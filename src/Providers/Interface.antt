-- ===== src/Providers/Interface.antt =====
-- providers/interface.py: candidates, the harvest state of a dataset, and the selection by timestamp.
use nordicintel_harvest.Prelude.{
  Bool, true, false, not, ◌||◌, ◌≡◌, ◌↔◌, refl, ap, ◌∙◌, String, Option, none, some, List, map,
  arith, ◌==◌, string_eq, is_some,
}
use nordicintel_harvest.Prelude.Int.{ℤ, pos, ◌-ℤ◌, int_eq, int_beq_iff, int_laws}
use nordicintel_harvest.Prelude.Dict.{Dict, lookup}

-- A `datetime`: its wall clock in microseconds, and its offset from UTC if it is aware.
pub record DateTime : Type 0 where
  pub wall : ℤ
  pub offset : Option ℤ

-- The instant in UTC: a naive value is taken as UTC. Aware values are equal when their instants are.
unfoldable pub utc : DateTime → ℤ
utc d = elim d.offset [ none ↦ d.wall | some o ↦ d.wall -ℤ o ]

-- `DatasetIdentity`
pub record Identity : Type 0 where
  pub provider_code : String
  pub dataset_code : String
  pub language : String

-- `DatasetCandidate`, less the fields that selection and execution pass on unread
pub record DatasetCandidate : Type 0 where
  pub provider_code : String
  pub dataset_code : String
  pub language : String
  pub updated : Option DateTime

abbrev pub identity : DatasetCandidate → Identity
identity c = record {
  provider_code = c.provider_code;
  dataset_code = c.dataset_code;
  language = c.language;
}

pub record DatasetHarvestState : Type 0 where
  pub source_updated_at : Option DateTime
  pub last_fetched_at : Option DateTime
  pub has_error : Bool

pub record HarvestContext : Type 0 where
  pub datasets : Dict String DatasetHarvestState
  pub started_at : DateTime
  pub previous_complete_started_at : Option DateTime
  pub force : Bool

-- The stamp of a selection is normalised to UTC.
pub record DatasetSelection : Type 0 where
  pub candidate : DatasetCandidate
  pub should_fetch : Bool
  pub source_updated_at : Option ℤ

-- `updated is None or state.source_updated_at is None or updated != utc(state.source_updated_at)`
abbrev stamp_changed : Option DateTime → Option DateTime → Bool
stamp_changed none old = true
stamp_changed (some new) none = true
stamp_changed (some new) (some old) = not (utc new == utc old)

-- what the stored state of the dataset says, if there is one
abbrev needs_fetch : DatasetCandidate → Option DatasetHarvestState → Bool
needs_fetch c none = true
needs_fetch c (some s) =
    not (is_some s.last_fetched_at) || s.has_error || stamp_changed c.updated s.source_updated_at

abbrev utc_of : Option DateTime → Option ℤ
utc_of none = none
utc_of (some d) = some (utc d)

unfoldable pub select_by_timestamp : DatasetCandidate → HarvestContext → DatasetSelection
select_by_timestamp c context = record {
  candidate = c;
  should_fetch = context.force || needs_fetch c (lookup c.dataset_code context.datasets);
  source_updated_at = utc_of c.updated;
}

-- `ProviderAdapter.discover_datasets`, over the candidates that the adapter yields
unfoldable pub discover_datasets : List DatasetCandidate → HarvestContext → List DatasetSelection
unfolding select_by_timestamp
discover_datasets candidates context = map (λ c. select_by_timestamp c context) candidates

-- The stored state speaks for a dataset that need not be fetched again.
pub record IsCurrent (c : DatasetCandidate) (context : HarvestContext) : Type 0 where
  pub unforced : context.force ≡ false
  pub state : DatasetHarvestState
  pub stored : lookup c.dataset_code context.datasets ≡ some state
  pub fetched : is_some state.last_fetched_at ≡ true
  pub clean : state.has_error ≡ false
  pub new : DateTime
  pub old : DateTime
  pub stamped : c.updated ≡ some new
  pub remembered : state.source_updated_at ≡ some old
  pub same : utc new ≡ utc old

stamps_kept :
    (u o : Option DateTime)
    → stamp_changed u o ≡ false
    → (new : DateTime) × (old : DateTime) × (u ≡ some new) × (o ≡ some old) × (utc new ≡ utc old)
stamps_kept none o h = cc
stamps_kept (some new) none h = cc
stamps_kept (some new) (some old) h =
    (new, old, refl, refl, ground (arith, int_beq_iff (utc new) (utc old)))

skipped_needs :
    (c : DatasetCandidate) (context : HarvestContext) (o : Option DatasetHarvestState)
    → lookup c.dataset_code context.datasets ≡ o
    → (context.force || needs_fetch c o) ≡ false
    → IsCurrent c context
skipped_needs c context none e h = ground arith
skipped_needs c context (some s) e h =
    let (new, old, n, o, same) = stamps_kept c.updated s.source_updated_at (ground arith) in
    record {
      unforced = ground arith;
      state = s;
      stored = e;
      fetched = ground arith;
      clean = ground arith;
      new = new;
      old = old;
      stamped = n;
      remembered = o;
      same = same;
    }

current_skips :
    (c : DatasetCandidate) (context : HarvestContext)
    → IsCurrent c context
    → (select_by_timestamp c context).should_fetch ≡ false
unfolding select_by_timestamp
current_skips c context i = ground (
  arith,
  i.unforced,
  i.stored,
  i.fetched,
  i.clean,
  i.stamped,
  i.remembered,
  i.same,
  int_beq_iff (utc i.new) (utc i.old),
)

-- A candidate is skipped exactly when the run is not forced and the stored state has a fetch, no
-- error, and a timestamp at the same instant as the candidate's.
pub select_by_timestamp_skips_iff :
    (c : DatasetCandidate) (context : HarvestContext)
    → ((select_by_timestamp c context).should_fetch ≡ false) ↔ IsCurrent c context
unfolding select_by_timestamp
select_by_timestamp_skips_iff c context =
    (skipped_needs c context (lookup c.dataset_code context.datasets) refl, current_skips c context)

-- the state of a dataset that was fetched at a time and saved with the stamp of its selection
abbrev pub saved_state : DatasetSelection → DateTime → DatasetHarvestState
saved_state selection fetched = record {
  source_updated_at = elim selection.source_updated_at [
    | none ↦ none
    | some instant ↦ some (record { wall = instant; offset = some (pos 0) })
  ];
  last_fetched_at = some fetched;
  has_error = false;
}

utc_again : (instant : ℤ) → utc (record { wall = instant; offset = some (pos 0) }) ≡ instant
unfolding utc
utc_again instant = omega int_laws

again_needs :
    (c : DatasetCandidate) (updated : Option DateTime) (fetched : DateTime)
    (before : HarvestContext)
    → c.updated ≡ updated
    → needs_fetch c (some (saved_state (select_by_timestamp c before) fetched))
      ≡ not (is_some updated)
unfolding select_by_timestamp
again_needs c none fetched before e = ground arith
again_needs c (some d) fetched before e =
    ground (arith, utc_again (utc d), int_beq_iff (utc d) (utc d))

-- A run has selected a candidate, and the dataset was fetched and saved with the stamp of that
-- selection. An unforced run that finds the candidate again skips it if it has a timestamp, and
-- fetches it if it has none.
pub select_by_timestamp_again :
    (c : DatasetCandidate) (before context : HarvestContext) (fetched : DateTime)
    → context.force ≡ false
    → lookup c.dataset_code context.datasets
      ≡ some (saved_state (select_by_timestamp c before) fetched)
    → (select_by_timestamp c context).should_fetch ≡ not (is_some c.updated)
unfolding select_by_timestamp
select_by_timestamp_again c before context fetched unforced stored =
    ap (λ b. b || needs_fetch c (lookup c.dataset_code context.datasets)) unforced
    ∙ ap (needs_fetch c) stored
    ∙ again_needs c c.updated fetched before refl
