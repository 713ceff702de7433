-- ===== src/Providers/Kolada/Selected.antt =====
-- providers/adapters/kolada/adapter.py: the codes of the variants, and what a run leaves unfetched.
use Prim.Native.Char.{Char}
use nordicintel_harvest.Prelude.{
  ℕ, suc, ◌+◌, Bool, true, false, not, ◌&&◌, ◌||◌, ◌≡◌, refl, sym, subst, ap, ◌∙◌, String, Option,
  none, some, List, [], ◌∷◌, arith, string_eq, ◌==◌, contains, All, if◌then◌else◌, Bool-cases, inl,
  inr,
}
use nordicintel_harvest.Prelude.Int.{ℤ}
use nordicintel_harvest.Prelude.Dict.{lookup}
use nordicintel_harvest.Prelude.Text.{concat, ends_with, remove_suffix}
use nordicintel_harvest.Core.Errors.{Result, ok, err, ◌>>=◌, >>=-eq-ok, ok-injective}
use nordicintel_harvest.Providers.Interface.{DateTime, DatasetHarvestState, HarvestContext}
use nordicintel_harvest.Providers.Kolada.Parsing.{KpiInfo}
use nordicintel_harvest.Providers.Kolada.Adapter.{
  KoladaAdapter, ou_suffix, midnight, earlier, or_test, cutoff, stale_before, is_full, needs_fetch,
  code_of, candidate_of, Selected, Selections, Changes, yield_selection, data_paths,
  select_variants, select_each, split_code,
}

size : String → ℕ
size String.[] = 0
size (String.◌∷◌ c s) = suc (size s)

size-concat : (s t : String) → size (concat s t) ≡ size s + size t
unfolding size concat
size-concat String.[] t = omega arith
size-concat (String.◌∷◌ c s) t = ground (arith, size-concat s t)

pub concat_empty : (s : String) → concat s "" ≡ s
unfolding concat
concat_empty String.[] = refl
concat_empty (String.◌∷◌ c s) = ap (String.◌∷◌ c) (concat_empty s)

ends_with-concat : (s : String) → ends_with ou_suffix (concat s ou_suffix) ≡ true
unfolding ends_with concat
ends_with-concat String.[] = refl
ends_with-concat (String.◌∷◌ c s) = ground (arith, ends_with-concat s)

longer : (c : Char) (s : String) → (String.◌∷◌ c (concat s ou_suffix) == ou_suffix) ≡ false
unfolding size
longer c s = elim (Bool-cases (String.◌∷◌ c (concat s ou_suffix) == ou_suffix)) [
  | inr apart ↦ apart
  | inl same ↦
      let equal = (string_eq.beq_iff (String.◌∷◌ c (concat s ou_suffix)) ou_suffix).0 same in
      let sizes : suc (size (concat s ou_suffix)) ≡ 3 = ap size equal in
      let parts : size (concat s ou_suffix) ≡ size s + 3 = size-concat s ou_suffix in
      absurd (omega arith)
]

remove_suffix-concat : (s : String) → remove_suffix ou_suffix (concat s ou_suffix) ≡ s
unfolding remove_suffix concat
remove_suffix-concat String.[] = refl
remove_suffix-concat (String.◌∷◌ c s) =
    ap (λ b. if b then String.[] else String.◌∷◌ c (remove_suffix ou_suffix (concat s ou_suffix)))
      (longer c s)
    ∙ ap (String.◌∷◌ c) (remove_suffix-concat s)

-- The code of a variant leads back to the id of its indicator and to the variant, provided that an id
-- which ends like the code of a unit variant is not taken for the indicator itself.
pub split_code-code_of :
    (kpi_id : String) (is_ou : Bool)
    → (ends_with ou_suffix kpi_id ≡ true → is_ou ≡ true)
    → split_code (code_of kpi_id is_ou) ≡ (kpi_id, is_ou)
unfolding split_code code_of
split_code-code_of kpi_id true h =
    ap
      (λ b.
        if b
        then (remove_suffix ou_suffix (concat kpi_id ou_suffix), true)
        else (concat kpi_id ou_suffix, false))
      (ends_with-concat kpi_id)
    ∙ ap (λ s. (s, true)) (remove_suffix-concat kpi_id)
split_code-code_of kpi_id false h = elim (Bool-cases (ends_with ou_suffix kpi_id)) [
  | inl ends ↦ let no : false ≡ true = h ends in cc
  | inr apart ↦
      ap split_code (concat_empty kpi_id)
      ∙ ap (λ b. if b then (remove_suffix ou_suffix kpi_id, true) else (kpi_id, false)) apart
]

-- What speaks for a dataset that is not fetched in a run: the run is not forced, and since the start
-- of the day thirty days before it a complete run has started; the dataset has been fetched in the last
-- thirty days, without an error.
pub record IsKept (a : KoladaAdapter) (context : HarvestContext) (code : String) : Type 0 where
  pub unforced : context.force ≡ false
  pub previous : DateTime
  pub listed : context.previous_complete_started_at ≡ some previous
  pub recent : earlier previous (midnight (cutoff a context)) ≡ ok false
  pub state : DatasetHarvestState
  pub stored : lookup code context.datasets ≡ some state
  pub fetched : DateTime
  pub remembered : state.last_fetched_at ≡ some fetched
  pub fresh : earlier fetched (stale_before a context) ≡ ok false
  pub clean : state.has_error ≡ false

or_test-false :
    (test : Bool) (later : Result Bool)
    → or_test test later ≡ ok false
    → (test ≡ false) × (later ≡ ok false)
or_test-false true later h = cc
or_test-false false later h = (refl, h)

-- the state of a dataset that needs no fetch
record IsFresh (stale : ℤ) (changes : List String) (kpi_id : String)
    (o : Option DatasetHarvestState) : Type 0 where
  state : DatasetHarvestState
  stored : o ≡ some state
  fetched : DateTime
  remembered : state.last_fetched_at ≡ some fetched
  fresh : earlier fetched stale ≡ ok false
  clean : state.has_error ≡ false
  unchanged : contains changes kpi_id ≡ false

abbrev old_or : Result Bool → Bool → Result Bool
old_or r later = r >>= λ old. ok (old || later)

fresh_lem :
    (stale : ℤ) (changes : List String) (kpi_id : String) (s : DatasetHarvestState)
    (at : Option DateTime)
    → s.last_fetched_at ≡ at
    → (elim at [
      | none ↦ ok true
      | some fetched ↦
          earlier fetched stale >>= λ old. ok (old || s.has_error || contains changes kpi_id)
    ])
      ≡ ok false
    → IsFresh stale changes kpi_id (some s)
fresh_lem stale changes kpi_id s none e h = cc
fresh_lem stale changes kpi_id s (some fetched) e h =
    let (old, checked, rest) = >>=-eq-ok (earlier fetched stale) _ h in
    let tests : (old || s.has_error || contains changes kpi_id) ≡ false = ok-injective rest in
    let not_old : old ≡ false = ground arith in
    record {
      state = s;
      stored = refl;
      fetched = fetched;
      remembered = e;
      fresh = checked ∙ ap ok not_old;
      clean = ground arith;
      unchanged = ground arith;
    }

needs_fetch-IsFresh :
    (full : Bool) (stale : ℤ) (changes : List String) (kpi_id : String)
    (o : Option DatasetHarvestState)
    → needs_fetch full stale changes kpi_id o ≡ ok false
    → (full ≡ false) × IsFresh stale changes kpi_id o
unfolding needs_fetch
needs_fetch-IsFresh full stale changes kpi_id none h =
    let both = or_test-false full (ok true) h in let bad : ok true ≡ ok false = both.1 in cc
needs_fetch-IsFresh full stale changes kpi_id (some s) h =
    let (not_full, rest) = or_test-false full _ h in
    (not_full, fresh_lem stale changes kpi_id s s.last_fetched_at refl rest)

previous_lem :
    (a : KoladaAdapter) (context : HarvestContext) (o : Option DateTime)
    → (elim o [ none ↦ ok true | some previous ↦ earlier previous (midnight (cutoff a context)) ])
      ≡ ok false
    → (previous : DateTime) × (o ≡ some previous)
      × (earlier previous (midnight (cutoff a context)) ≡ ok false)
previous_lem a context none h = cc
previous_lem a context (some previous) h = (previous, refl, h)

is_full-false :
    (a : KoladaAdapter) (context : HarvestContext)
    → is_full a context ≡ ok false
    → (context.force ≡ false)
      × (previous : DateTime) × (context.previous_complete_started_at ≡ some previous)
      × (earlier previous (midnight (cutoff a context)) ≡ ok false)
unfolding is_full
is_full-false a context h =
    let (unforced, rest) = or_test-false context.force _ h in
    let (previous, listed, recent) =
      previous_lem a context context.previous_complete_started_at rest in
    (unforced, previous, listed, recent)

-- a dataset of the run, if it is not fetched, is kept for a reason
abbrev pub IsExcused : KoladaAdapter → HarvestContext → Selected → Type 0
IsExcused a context x = x.should_fetch ≡ false → IsKept a context x.candidate.candidate.dataset_code

yield_selection-IsExcused :
    (a : KoladaAdapter) (context : HarvestContext) (full : Bool) (changed : List String)
    (v : KpiInfo × Bool) (rest : Selections)
    → is_full a context ≡ ok full
    → All (IsExcused a context) rest.yielded
    → (r : Result Bool)
    → needs_fetch full
        (stale_before a context)
        changed
        v.0.kpi_id
        (lookup (code_of v.0.kpi_id v.1) context.datasets)
      ≡ r
    → All (IsExcused a context) (yield_selection a context v rest r).yielded
unfolding yield_selection candidate_of
yield_selection-IsExcused a context full changed v rest e all_rest (err x) h = tt
yield_selection-IsExcused a context full changed v rest e all_rest (ok fetch) h = (
  (λ skipped.
      let (not_full, fresh) =
        needs_fetch-IsFresh full (stale_before a context) changed v.0.kpi_id
          (lookup (code_of v.0.kpi_id v.1) context.datasets) (h ∙ ap ok skipped) in
      let (unforced, previous, listed, recent) = is_full-false a context (e ∙ ap ok not_full) in
      record {
        unforced = unforced;
        previous = previous;
        listed = listed;
        recent = recent;
        state = fresh.state;
        stored = fresh.stored;
        fetched = fresh.fetched;
        remembered = fresh.remembered;
        fresh = fresh.fresh;
        clean = fresh.clean;
      }),
  all_rest,
)

select_variants-IsExcused :
    (a : KoladaAdapter) (context : HarvestContext) (changes : Changes) (kpi : KpiInfo)
    (rest : Selections) (paths : List (Bool × List String))
    → is_full a context ≡ ok changes.full
    → All (IsExcused a context) rest.yielded
    → All (IsExcused a context) (select_variants a context changes kpi rest paths).yielded
unfolding select_variants
select_variants-IsExcused a context changes kpi rest [] e h = h
select_variants-IsExcused a context changes kpi rest ((is_ou, changed) ∷ paths) e h =
    let later = select_variants a context changes kpi rest paths in
    let before = select_variants-IsExcused a context changes kpi rest paths e h in
    let r =
      needs_fetch changes.full (stale_before a context) changed kpi.kpi_id
        (lookup (code_of kpi.kpi_id is_ou) context.datasets) in
    let made =
      yield_selection-IsExcused a context changes.full changed (kpi, is_ou) later e before r refl in
    let at : Bool → Type 0 = λ b.
      All (IsExcused a context)
        (if b then later else yield_selection a context (kpi, is_ou) later r).yielded in
    elim (Bool-cases (is_ou && not kpi.has_ou_data)) [
      | inl passed ↦ subst at (sym passed) before
      | inr taken ↦ subst at (sym taken) made
    ]

pub select_each-IsExcused :
    (a : KoladaAdapter) (context : HarvestContext) (changes : Changes) (kpis : List KpiInfo)
    → is_full a context ≡ ok changes.full
    → All (IsExcused a context) (select_each a context changes kpis).yielded
unfolding select_each
select_each-IsExcused a context changes [] e = tt
select_each-IsExcused a context changes (kpi ∷ kpis) e =
    select_variants-IsExcused a context changes kpi (select_each a context changes kpis)
      (data_paths changes) e (select_each-IsExcused a context changes kpis e)
