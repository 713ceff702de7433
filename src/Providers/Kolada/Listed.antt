-- ===== src/Providers/Kolada/Listed.antt =====
-- providers/adapters/kolada/adapter.py: what the discovery of a run yields.
use nordicintel_harvest.Prelude.{
  Bool, true, false, not, ◌&&◌, ◌≡◌, refl, sym, subst, ap, ◌∙◌, String, Option, none, some, List,
  [], ◌∷◌, map, All, string_eq, if◌then◌else◌, Bool-cases, inl, inr,
}
use nordicintel_harvest.Prelude.Int.{ℤ}
use nordicintel_harvest.Prelude.Dict.{lookup}
use nordicintel_harvest.Prelude.Text.{concat}
use nordicintel_harvest.Core.Errors.{Result, ok, err, >>=-eq-ok, ok-injective}
use nordicintel_harvest.Providers.Interface.{DatasetHarvestState, HarvestContext}
use nordicintel_harvest.Providers.Kolada.Parsing.{KpiInfo}
use nordicintel_harvest.Providers.Kolada.Indicators.{KoladaClient, list_kpis}
use nordicintel_harvest.Providers.Kolada.Adapter.{
  KoladaAdapter, midnight, earlier, or_test, cutoff, stale_before, is_full, needs_fetch, code_of,
  candidate_of, Selected, Selections, Changes, yield_selection, data_paths, select_variants,
  select_each, changes_in, prepare, after, discover_datasets,
}
use nordicintel_harvest.Providers.Kolada.Selected.{IsExcused, concat_empty, select_each-IsExcused}

prepare-ok :
    (a : KoladaAdapter) (context : HarvestContext) (client : KoladaClient)
    (p : (List KpiInfo × Changes) × KoladaClient)
    → prepare a context client ≡ ok p
    → (is_full a context ≡ ok (p.0).1.full)
      × (later : KoladaClient) × (list_kpis a.api a.rounds client ≡ ok ((p.0).0, later))
unfolding prepare
prepare-ok a context client p h =
    let (full, checked, h1) = >>=-eq-ok (is_full a context) _ h in
    let (kpis, listed, h2) = >>=-eq-ok (list_kpis a.api a.rounds client) _ h1 in
    let (changed, _, h3) = >>=-eq-ok (changes_in a context "data" full kpis.1) _ h2 in
    let (changed_ou, _, h4) = >>=-eq-ok (changes_in a context "oudata" full changed.1) _ h3 in
    let same = ok-injective h4 in
    (checked ∙ ap (λ q. ok (q.0).1.full) same, kpis.1, listed ∙ ap (λ q. ok ((q.0).0, kpis.1)) same)

abbrev pub yielded_codes : List Selected → List String
yielded_codes = map (λ x. x.candidate.candidate.dataset_code)

-- what a catalogue is discovered as: the id of every indicator, in order, and after each that has data
-- of units its id with `_OU`
unfoldable pub expected_codes : List KpiInfo → List String
unfolding concat
expected_codes [] = []
expected_codes (kpi ∷ kpis) =
    let rest = expected_codes kpis in
    kpi.kpi_id ∷ (if kpi.has_ou_data then concat kpi.kpi_id "_OU" ∷ rest else rest)

-- a dataset that the run fetches
abbrev pub IsFetched : Selected → Type 0
IsFetched x = x.should_fetch ≡ true

-- the codes are these, and where every indicator is fetched so is every dataset
record IsYielded (codes : List String) (full : Bool) (s : Selections) : Type 0 where
  codes_yielded : yielded_codes s.yielded ≡ codes
  fetched : full ≡ true → All IsFetched s.yielded

needs_fetch-full :
    (full : Bool) (stale : ℤ) (changed : List String) (kpi_id : String)
    (state : Option DatasetHarvestState) (fetch : Bool)
    → needs_fetch full stale changed kpi_id state ≡ ok fetch
    → full ≡ true
    → fetch ≡ true
unfolding needs_fetch
needs_fetch-full false stale changed kpi_id state fetch h f = cc
needs_fetch-full true stale changed kpi_id state fetch h f = sym (ok-injective h)

yield_selection-IsYielded :
    (a : KoladaAdapter) (context : HarvestContext) (kpi : KpiInfo) (is_ou full : Bool)
    (later : Selections) (codes : List String)
    → (later.raised ≡ none → IsYielded codes full later)
    → (r : Result Bool) → ((fetch : Bool) → r ≡ ok fetch → full ≡ true → fetch ≡ true)
    → (yield_selection a context (kpi, is_ou) later r).raised ≡ none
    → IsYielded
        (code_of kpi.kpi_id is_ou ∷ codes)
        full
        (yield_selection a context (kpi, is_ou) later r)
unfolding yield_selection candidate_of
yield_selection-IsYielded a context kpi is_ou full later codes k (err e) f h = cc
yield_selection-IsYielded a context kpi is_ou full later codes k (ok fetch) f h =
    let rest = k h in
    record {
      codes_yielded = ap (λ l. code_of kpi.kpi_id is_ou ∷ l) rest.codes_yielded;
      fetched = λ e. (f fetch refl e, rest.fetched e);
    }

-- the codes of the paths of an indicator
unfoldable path_codes : KpiInfo → List (Bool × List String) → List String → List String
unfolding code_of
path_codes kpi [] rest = rest
path_codes kpi ((is_ou, changed) ∷ paths) rest =
    if is_ou && not kpi.has_ou_data
    then path_codes kpi paths rest
    else code_of kpi.kpi_id is_ou ∷ path_codes kpi paths rest

select_variants-IsYielded :
    (a : KoladaAdapter) (context : HarvestContext) (changes : Changes) (kpi : KpiInfo)
    (rest : Selections) (codes : List String) (paths : List (Bool × List String))
    → (rest.raised ≡ none → IsYielded codes changes.full rest)
    → (select_variants a context changes kpi rest paths).raised ≡ none
    → IsYielded
        (path_codes kpi paths codes)
        changes.full
        (select_variants a context changes kpi rest paths)
unfolding select_variants path_codes
select_variants-IsYielded a context changes kpi rest codes [] k = k
select_variants-IsYielded a context changes kpi rest codes ((is_ou, changed) ∷ paths) k =
    let later = select_variants a context changes kpi rest paths in
    let before = select_variants-IsYielded a context changes kpi rest codes paths k in
    let state = lookup (code_of kpi.kpi_id is_ou) context.datasets in
    let r = needs_fetch changes.full (stale_before a context) changed kpi.kpi_id state in
    let inner = path_codes kpi paths codes in
    let made =
      yield_selection-IsYielded a context kpi is_ou changes.full later inner before r (λ fetch e.
        needs_fetch-full changes.full (stale_before a context) changed kpi.kpi_id state fetch e) in
    let at : Bool → Type 0 = λ b.
      let s = if b then later else yield_selection a context (kpi, is_ou) later r in
      s.raised ≡ none
      → IsYielded (if b then inner else code_of kpi.kpi_id is_ou ∷ inner) changes.full s in
    elim (Bool-cases (is_ou && not kpi.has_ou_data)) [
      | inl passed ↦ subst at (sym passed) before
      | inr taken ↦ subst at (sym taken) made
    ]

path_codes-data_paths :
    (kpi : KpiInfo) (changes : Changes) (rest : List String)
    → path_codes kpi (data_paths changes) rest
      ≡ kpi.kpi_id ∷ (if kpi.has_ou_data then concat kpi.kpi_id "_OU" ∷ rest else rest)
unfolding path_codes code_of
path_codes-data_paths kpi changes rest =
    let own : concat kpi.kpi_id "" ≡ kpi.kpi_id = concat_empty kpi.kpi_id in
    let inner : Bool → List String = λ b. if b then concat kpi.kpi_id "_OU" ∷ rest else rest in
    ap (λ s. s ∷ (if not kpi.has_ou_data then rest else concat kpi.kpi_id "_OU" ∷ rest)) own
    ∙ ap (λ l. kpi.kpi_id ∷ l)
        (elim (Bool-cases kpi.has_ou_data) [
          | inl e ↦
              ap (λ b. if not b then rest else concat kpi.kpi_id "_OU" ∷ rest) e ∙ sym (ap inner e)
          | inr e ↦
              ap (λ b. if not b then rest else concat kpi.kpi_id "_OU" ∷ rest) e ∙ sym (ap inner e)
        ])

select_each-IsYielded :
    (a : KoladaAdapter) (context : HarvestContext) (changes : Changes) (kpis : List KpiInfo)
    → (select_each a context changes kpis).raised ≡ none
    → IsYielded (expected_codes kpis) changes.full (select_each a context changes kpis)
unfolding select_each expected_codes
select_each-IsYielded a context changes [] h = record { codes_yielded = refl; fetched = λ e. tt }
select_each-IsYielded a context changes (kpi ∷ kpis) h =
    subst (λ l. IsYielded l changes.full (select_each a context changes (kpi ∷ kpis)))
      (path_codes-data_paths kpi changes (expected_codes kpis))
      (select_variants-IsYielded a context changes kpi (select_each a context changes kpis)
        (expected_codes kpis) (data_paths changes) (select_each-IsYielded a context changes kpis) h)

after-IsExcused :
    (a : KoladaAdapter) (context : HarvestContext)
    (r : Result ((List KpiInfo × Changes) × KoladaClient))
    → ((p : (List KpiInfo × Changes) × KoladaClient)
        → r ≡ ok p
        → is_full a context ≡ ok (p.0).1.full)
    → All (IsExcused a context) (after a context r).yielded
unfolding after
after-IsExcused a context (err e) h = tt
after-IsExcused a context (ok ((kpis, changes), client)) h =
    select_each-IsExcused a context changes kpis (h ((kpis, changes), client) refl)

-- Whatever the provider answers, a dataset that a run yields and does not fetch is kept for a reason:
-- the run is not forced, a complete run started no earlier than the day thirty days before, and the
-- dataset has been fetched in the thirty days before the run, without an error.
pub discover_datasets_lem :
    (a : KoladaAdapter) (context : HarvestContext) (client : KoladaClient)
    → All (IsExcused a context) (discover_datasets a context client).yielded
unfolding discover_datasets
discover_datasets_lem a context client =
    after-IsExcused a context (prepare a context client)
      (λ p e. (prepare-ok a context client p e).0)

after-IsYielded :
    (a : KoladaAdapter) (context : HarvestContext)
    (r : Result ((List KpiInfo × Changes) × KoladaClient))
    → (after a context r).raised ≡ none
    → (p : (List KpiInfo × Changes) × KoladaClient) × (r ≡ ok p)
      × IsYielded (expected_codes (p.0).0) (p.0).1.full (after a context r)
unfolding after
after-IsYielded a context (err e) h = cc
after-IsYielded a context (ok ((kpis, changes), client)) h =
    (((kpis, changes), client), refl, select_each-IsYielded a context changes kpis h)

forced_full :
    (a : KoladaAdapter) (context : HarvestContext) (full : Bool)
    → context.force ≡ true
    → is_full a context ≡ ok full
    → full ≡ true
unfolding is_full
forced_full a context full forced h =
    let later : Result Bool = elim context.previous_complete_started_at [
      | none ↦ ok true
      | some previous ↦ earlier previous (midnight (cutoff a context))
    ] in
    ok-injective (sym h ∙ ap (λ b. or_test b later) forced)

-- A discovery that raises nothing has yielded the id of every indicator of the catalogue, in its order,
-- right after each that has data of units this id with `_OU`, and nothing else; a forced one fetches
-- them all.
pub discover_datasets_complete :
    (a : KoladaAdapter) (context : HarvestContext) (client : KoladaClient)
    → (discover_datasets a context client).raised ≡ none
    → (kpis : List KpiInfo) × (later : KoladaClient) × (list_kpis a.api a.rounds client
        ≡ ok (kpis, later))
      × (yielded_codes (discover_datasets a context client).yielded ≡ expected_codes kpis)
      × (context.force ≡ true → All IsFetched (discover_datasets a context client).yielded)
unfolding discover_datasets
discover_datasets_complete a context client h =
    let (p, prepared, s) = after-IsYielded a context (prepare a context client) h in
    let (checked, later, listed) = prepare-ok a context client p prepared in
    (
      (p.0).0,
      later,
      listed,
      s.codes_yielded,
      (λ forced. s.fetched (forced_full a context (p.0).1.full forced checked)),
    )
