-- ===== src/Providers/Kolada/Adapter.antt =====
-- providers/adapters/kolada/adapter.py: which indicators are fetched in a run, and how one is resolved.
-- Timestamps are in microseconds.
use Prim.Native.Nat.{◌/◌}
use nordicintel_harvest.Prelude.{
  ℕ, ◌+◌, ◌-◌, ◌*◌, Bool, true, false, not, ◌&&◌, ◌||◌, String, Option, none, some, List, [], ◌∷◌,
  string_eq, ◌==◌, contains, if◌then◌else◌, get_or,
}
use nordicintel_harvest.Prelude.Int.{ℤ, pos, negsuc, ◌-ℤ◌, ltb_ℤ}
use nordicintel_harvest.Prelude.Dict.{lookup}
use nordicintel_harvest.Prelude.Text.{is_empty, concat, join, ends_with, remove_suffix}
use nordicintel_harvest.Core.Errors.{
  Error, Result, ok, err, ◌>>=◌, ◌>>◌, raise_if, value_error, type_error,
}
use nordicintel_harvest.Schemas.Documents.{Validation}
use nordicintel_harvest.Providers.Interface.{DateTime, DatasetHarvestState, HarvestContext, utc}
use nordicintel_harvest.Providers.Candidates.{FullCandidate}
use nordicintel_harvest.Providers.Kolada.Parsing.{KpiInfo}
use nordicintel_harvest.Providers.Kolada.Client.{Api}
use nordicintel_harvest.Providers.Kolada.Indicators.{KoladaClient, list_kpis}
use nordicintel_harvest.Providers.Kolada.Probe.{changed_kpi_ids}
use nordicintel_harvest.Providers.Kolada.Metadata.{Patterns, kpi_metadata}

-- The adapter, and what it takes from outside: the offset of the local clock, the calendar (the year of
-- a day since 1970, and a day as the query of a URL), the patterns and the validation of the models.
-- `rounds` bounds the pages of one list.
pub record KoladaAdapter : Type 0 where
  pub provider_code : String
  pub language : String
  pub base_api_url : String
  pub api : Api
  pub rounds : ℕ
  pub local : ℤ
  pub year_of : ℤ → ℕ
  pub from_date : ℤ → String
  pub patterns : Patterns
  pub validation : Validation

-- the checks of `__init__`
unfoldable pub init : KoladaAdapter → Result KoladaAdapter
init a =
    raise_if (not (a.provider_code == "kolada") || not (a.language == "sv")) value_error
    >> raise_if (is_empty a.base_api_url) value_error
    >> ok a

abbrev pub web_url : String
web_url = "https://kolada.se/verktyg/fri-sokning/"

abbrev pub ou_suffix : String
ou_suffix = "_OU"

-- `d.astimezone(UTC)`
abbrev pub instant : KoladaAdapter → DateTime → ℤ
instant a d = d.wall -ℤ get_or d.offset a.local

abbrev pub day_length : ℕ
day_length = 86400000000

-- the day of an instant, rounded down
abbrev pub day_of : ℤ → ℤ
day_of (pos n) = pos (n / day_length)
day_of (negsuc n) = negsuc (n / day_length)

abbrev pub midnight : ℤ → ℤ
midnight (pos d) = pos (d * day_length)
midnight (negsuc d) = negsuc (d * day_length + (day_length - 1))

-- `d < limit`, for a limit that is aware
unfoldable pub earlier : DateTime → ℤ → Result Bool
unfolding utc
earlier d limit = elim d.offset [ none ↦ err type_error | some o ↦ ok (ltb_ℤ (d.wall -ℤ o) limit) ]

-- the first of these tests that holds; a later one is not made
abbrev pub or_test : Bool → Result Bool → Result Bool
or_test true later = ok true
or_test false later = later

-- when the indicators were last listed in full, in terms of the start of this run
abbrev pub cutoff : KoladaAdapter → HarvestContext → ℤ
cutoff a context = day_of (instant a context.started_at) -ℤ pos 30

abbrev pub stale_before : KoladaAdapter → HarvestContext → ℤ
stale_before a context = instant a context.started_at -ℤ pos (30 * day_length)

unfoldable pub harvest_year : KoladaAdapter → HarvestContext → ℕ
harvest_year a context = a.year_of (day_of (instant a context.started_at))

-- whether every indicator is fetched
unfoldable pub is_full : KoladaAdapter → HarvestContext → Result Bool
unfolding earlier
is_full a context = or_test context.force (elim context.previous_complete_started_at [
  | none ↦ ok true
  | some previous ↦ earlier previous (midnight (cutoff a context))
])

-- the test on the stored state of a dataset
unfoldable pub needs_fetch :
    Bool → ℤ → List String → String → Option DatasetHarvestState → Result Bool
unfolding earlier
needs_fetch full stale changes kpi_id state = or_test full (elim state [
  | none ↦ ok true
  | some stored ↦ elim stored.last_fetched_at [
    | none ↦ ok true
    | some fetched ↦
        earlier fetched stale >>= λ old. ok (old || stored.has_error || contains changes kpi_id)
  ]
])

-- the two variants of an indicator
unfoldable pub code_of : String → Bool → String
unfolding concat
code_of kpi_id is_ou = concat kpi_id (if is_ou then ou_suffix else "")

abbrev path_name : Bool → String
path_name is_ou = if is_ou then "oudata" else "data"

-- `_candidate`, in a year
unfoldable pub candidate_of : KoladaAdapter → ℕ → KpiInfo → Bool → FullCandidate
unfolding kpi_metadata code_of join
candidate_of a year kpi is_ou =
    let fields = kpi_metadata a.patterns kpi (pos year) in
    record {
      candidate = record {
        provider_code = a.provider_code;
        dataset_code = code_of kpi.kpi_id is_ou;
        language = a.language;
        updated = none;
      };
      label = some fields.label;
      description = fields.description;
      source = some fields.source;
      note = none;
      subject_code = fields.subject_code;
      subject_label = fields.subject_label;
      time_unit = some "Annual";
      first_period = none;
      last_period = none;
      discontinued = some fields.discontinued;
      metadata_url = some (join "/" (a.base_api_url ∷ "kpi" ∷ kpi.kpi_id ∷ []));
      data_url = some (join "/" (a.base_api_url ∷ path_name is_ou ∷ "kpi" ∷ kpi.kpi_id ∷ []));
      web_url = some web_url;
      doc_url = none;
      paths = fields.paths;
      official_statistics = none;
      contact = none;
      extension = fields.extension;
    }

pub record Selected : Type 0 where
  pub candidate : FullCandidate
  pub should_fetch : Bool

-- what the generator has yielded, and the error that ended it, if one did
pub record Selections : Type 0 where
  pub yielded : List Selected
  pub raised : Option Error

-- the ids that have changed, of each kind
pub record Changes : Type 0 where
  pub full : Bool
  pub changed : List String
  pub changed_ou : List String

unfoldable pub selected : KoladaAdapter → HarvestContext → KpiInfo × Bool → Bool → Selected
unfolding candidate_of
selected a context v fetch = record {
  candidate = candidate_of a (harvest_year a context) v.0 v.1;
  should_fetch = fetch;
}

-- one turn of the loop before the rest of it
unfoldable pub yield_selection :
    KoladaAdapter → HarvestContext → KpiInfo × Bool → Selections → Result Bool → Selections
unfolding selected
yield_selection a context v rest (err e) = record { yielded = []; raised = some e }
yield_selection a context v rest (ok fetch) = record {
  yielded = selected a context v fetch ∷ rest.yielded;
  raised = rest.raised;
}

-- the two paths of the inner loop, the second being that of the units, and what has changed on each
abbrev pub data_paths : Changes → List (Bool × List String)
data_paths changes = (false, changes.changed) ∷ (true, changes.changed_ou) ∷ []

-- the inner loop for an indicator, and the rest of the outer loop
unfoldable pub select_variants :
    KoladaAdapter
    → HarvestContext
    → Changes
    → KpiInfo
    → Selections
    → List (Bool × List String)
    → Selections
unfolding yield_selection needs_fetch code_of lookup
select_variants a context changes kpi rest [] = rest
select_variants a context changes kpi rest ((is_ou, changed) ∷ paths) =
    let later = select_variants a context changes kpi rest paths in
    if is_ou && not kpi.has_ou_data
    then later
    else yield_selection a context (kpi, is_ou) later
        (needs_fetch changes.full (stale_before a context) changed kpi.kpi_id
          (lookup (code_of kpi.kpi_id is_ou) context.datasets))

-- the loop over the indicators
unfoldable pub select_each : KoladaAdapter → HarvestContext → Changes → List KpiInfo → Selections
unfolding select_variants
select_each a context changes [] = record { yielded = []; raised = none }
select_each a context changes (kpi ∷ kpis) =
    select_variants a context changes kpi (select_each a context changes kpis) (data_paths changes)

-- the ids that have changed since the cutoff
unfoldable pub changes_in :
    KoladaAdapter
    → HarvestContext
    → String
    → Bool
    → KoladaClient
    → Result (List String × KoladaClient)
unfolding changed_kpi_ids harvest_year
changes_in a context data_path full client =
    if full
    then ok ([], client)
    else changed_kpi_ids a.api a.rounds data_path (a.from_date (cutoff a context))
        (harvest_year a context + 3) client

-- what is known before the loop
unfoldable pub prepare :
    KoladaAdapter → HarvestContext → KoladaClient → Result ((List KpiInfo × Changes) × KoladaClient)
unfolding is_full list_kpis changes_in
prepare a context client = is_full a context >>= λ full. list_kpis a.api a.rounds client >>= λ kpis.
    changes_in a context "data" full kpis.1 >>= λ changed.
    changes_in a context "oudata" full changed.1 >>= λ changed_ou.
    ok (
      (kpis.0, record { full = full; changed = changed.0; changed_ou = changed_ou.0 }),
      changed_ou.1,
    )

unfoldable pub after :
    KoladaAdapter → HarvestContext → Result ((List KpiInfo × Changes) × KoladaClient) → Selections
unfolding select_each
after a context (err e) = record { yielded = []; raised = some e }
after a context (ok ((kpis, changes), client)) = select_each a context changes kpis

unfoldable pub discover_datasets : KoladaAdapter → HarvestContext → KoladaClient → Selections
unfolding prepare after
discover_datasets a context client = after a context (prepare a context client)

-- whether a code is that of a unit variant, and the id of its indicator
unfoldable pub split_code : String → String × Bool
unfolding ends_with remove_suffix
split_code code =
    if ends_with ou_suffix code then (remove_suffix ou_suffix code, true) else (code, false)
