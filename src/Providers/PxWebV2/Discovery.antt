-- ===== src/Providers/PxWebV2/Discovery.antt =====
-- providers/adapters/pxweb_v2/adapter.py: the addresses of the service and the discovery of its tables,
-- page by page. The answer to a request is a parameter.
use nordicintel_harvest.Prelude.{
  ℕ, zero, suc, not, ◌&&◌, String, Option, none, some, List, [], ◌∷◌, ◌++◌, string_eq, ◌==◌,
  contains, if◌then◌else◌, get_or,
}
use nordicintel_harvest.Prelude.Int.{ℤ, pos}
use nordicintel_harvest.Prelude.Text.{is_empty, join}
use nordicintel_harvest.Core.Errors.{
  Error, Result, ok, err, ◌>>=◌, ◌>>◌, raise_if, value_error, runtime_error, attribute_error,
}
use nordicintel_harvest.Core.Json.{Value, num, str, arr, obj, Fields, end, field, get, items}
use nordicintel_harvest.Core.Values.{Builtins, int_of}
use nordicintel_harvest.Schemas.Contracts.{Urls}
use nordicintel_harvest.Schemas.Dimensions.{leb_ℤ}
use nordicintel_harvest.Providers.Common.{Texts}
use nordicintel_harvest.Providers.Candidates.{FullCandidate}
use nordicintel_harvest.Providers.PxWebV2.Tables.{DiscoveryTable, parse_pxweb2_discovery_table}

-- The adapter of one provider and language, and what it calls: `get_json` with its parameters. An empty
-- `base_api_url` is a missing one.
pub record Service : Type 0 where
  pub texts : Texts
  pub urls : Urls
  pub get_json : String → Fields → Result Value
  pub provider_code : String
  pub language : String
  pub base_api_url : String
  pub base_web_url : Option String

abbrev pub valid_endpoints : List String
valid_endpoints = "config" ∷ "tables" ∷ "metadata" ∷ "data" ∷ "codelists" ∷ []

-- the function of the module
unfoldable pub api_url : String → String → String → Result String
unfolding join
api_url base_api_url endpoint id =
    if not (contains valid_endpoints endpoint)
    then err value_error
    else if endpoint == "config"
    then ok (join "/" (base_api_url ∷ "config" ∷ []))
    else if endpoint == "tables"
    then ok (join "/" (base_api_url ∷ "tables" ∷ []))
    else if endpoint == "metadata" && not (is_empty id)
    then ok (join "/" (base_api_url ∷ "tables" ∷ id ∷ "metadata" ∷ []))
    else if endpoint == "data" && not (is_empty id)
    then ok (join "/" (base_api_url ∷ "tables" ∷ id ∷ "data" ∷ []))
    else if endpoint == "codelists"
    then ok (join "/" (base_api_url ∷ "codelists" ∷ []))
    else err value_error

-- the method; an `id` of `None` is the empty one
unfoldable pub get_api_url : Service → String → String → Result String
unfolding api_url
get_api_url s endpoint id =
    raise_if (is_empty s.base_api_url) value_error >> api_url s.base_api_url endpoint id

-- one page of the listing: its tables, its number, and the number of pages
pub record Page : Type 0 where
  pub tables : List Value
  pub current_page : ℤ
  pub total_pages : ℤ

-- `int(page_info.get(key, default))`
unfoldable pub int_under : Builtins → String → ℤ → Fields → Result ℤ
unfolding int_of get
int_under py key default o = int_of py (get_or (get key o) (num default))

abbrev pub page_params : Service → ℕ → Fields
page_params s page_number = field "lang" (str s.language) (
    field "pageSize" (num (pos 1000))
      (field "pageNumber" (num (pos page_number)) (field "includeDiscontinued" (str "true") end)))

-- the numbers of the page; what is no object has no `get`
unfoldable pub numbered : Builtins → ℕ → List Value → Value → Result Page
unfolding int_under
numbered py page_number tables (obj page_info) =
    int_under py "pageNumber" (pos page_number) page_info >>= λ current.
    int_under py "totalPages" current page_info >>= λ total.
    ok (record { tables = tables; current_page = current; total_pages = total })
numbered py page_number tables v = err attribute_error

-- what an answer says; an empty object is no answer
unfoldable pub read_tables : Builtins → ℕ → Value → Result Page
unfolding numbered get items
read_tables py page_number (obj (field k v o)) = elim (get "tables" (field k v o)) [
  | some (arr l) ↦ numbered py page_number (items l) (get_or (get "page" (field k v o)) (obj end))
  | _ ↦ err runtime_error
]
read_tables py page_number v = err runtime_error

unfoldable pub fetch_page_tables : Service → ℕ → Result Page
unfolding get_api_url read_tables
fetch_page_tables s page_number = get_api_url s "tables" "" >>= λ url.
    s.get_json url (page_params s page_number) >>= read_tables s.texts.py page_number

unfoldable pub candidate_of : Service → DiscoveryTable → FullCandidate
candidate_of s t = record {
  candidate = record {
    provider_code = s.provider_code;
    dataset_code = t.dataset_code;
    language = s.language;
    updated = t.updated;
  };
  label = some t.label;
  description = t.description;
  source = t.source;
  note = t.note;
  subject_code = t.subject_code;
  subject_label = none;
  time_unit = some t.time_unit;
  first_period = some t.first_period;
  last_period = some t.last_period;
  discontinued = t.discontinued;
  metadata_url = some t.metadata_url;
  data_url = some t.data_url;
  web_url = t.web_url;
  doc_url = none;
  paths = t.paths;
  official_statistics = none;
  contact = none;
  extension = t.extension;
}

-- what the handler of exceptions leaves
abbrev parsed : Service → Result (Option DiscoveryTable) → Option FullCandidate
unfolding candidate_of
parsed s (ok (some t)) = some (candidate_of s t)
parsed s (ok none) = none
parsed s (err e) = none

-- `_api_table_to_discovered_dataset`: a table that raises is no candidate
unfoldable pub discovered_dataset : Service → Value → Option FullCandidate
unfolding parse_pxweb2_discovery_table candidate_of
discovered_dataset s (obj table) =
    parsed s
      (parse_pxweb2_discovery_table s.texts s.urls s.base_api_url s.base_web_url s.language table)
discovered_dataset s v = none

-- the loop over the tables of a page
unfoldable pub candidates_in : Service → List Value → List FullCandidate
unfolding discovered_dataset
candidates_in s [] = []
candidates_in s (table ∷ tables) =
    let rest = candidates_in s tables in
    elim (discovered_dataset s table) [ none ↦ rest | some candidate ↦ candidate ∷ rest ]

-- how the generator ended: it returned, it raised, or it is still running
pub data Outcome : Type 0 where
  completed running : Outcome
  failed : Error → Outcome

pub record Discovery : Type 0 where
  pub yielded : List FullCandidate
  pub outcome : Outcome

-- one turn of the loop, and the rest of it
unfoldable pub turn : Service → Discovery → Result Page → Discovery
unfolding candidates_in
turn s rest (err e) = record { yielded = []; outcome = failed e }
turn s rest (ok page) =
    let found = candidates_in s page.tables in
    if leb_ℤ page.total_pages page.current_page
    then record { yielded = found; outcome = completed }
    else record { yielded = found ++ rest.yielded; outcome = rest.outcome }

-- so many turns of the loop, from a page on
unfoldable pub discover_pages : Service → ℕ → ℕ → Discovery
unfolding turn fetch_page_tables
discover_pages s zero page_number = record { yielded = []; outcome = running }
discover_pages s (suc turns) page_number =
    let rest = discover_pages s turns (suc page_number) in
    turn s rest (fetch_page_tables s page_number)

-- `_discover_candidates`, for so many turns at most; a service without an address has no tables
unfoldable pub discover_candidates : Service → ℕ → Discovery
unfolding discover_pages
discover_candidates s turns =
    if is_empty s.base_api_url
    then record { yielded = []; outcome = completed }
    else discover_pages s turns 1
