-- ===== src/Providers/PxWebV2/Tests.antt =====
-- Runs of the PxWeb v2 adapter and of the shared helpers, and their theorems at concrete inputs.
use nordicintel_harvest.Prelude.{
  true, false, ◌≡◌, refl, String, Option, none, some, List, [], ◌∷◌, string_eq, nat_eq, ◌==◌, arith,
  distinct, any, contains, if◌then◌else◌,
}
use nordicintel_harvest.Prelude.Int.{pos}
use nordicintel_harvest.Prelude.Dict.{keys}
use nordicintel_harvest.Prelude.Text.{is_empty}
use nordicintel_harvest.Prelude.Sets.{same_set, is_subset}
use nordicintel_harvest.Core.Errors.{
  Result, ok, err, value_error, type_error, client_error, attribute_error,
}
use nordicintel_harvest.Core.Json.{
  Value, null, num, str, arr, obj, Items, nil, cons, Fields, end, field, get,
}
use nordicintel_harvest.Schemas.Contracts.{Urls}
use nordicintel_harvest.Schemas.Dimensions.{no_items}
use nordicintel_harvest.Schemas.Datasets.{DatasetMetadata}
use nordicintel_harvest.Schemas.Documents.{DatasetDocuments}
use nordicintel_harvest.Schemas.Roles.{role_ids}
use nordicintel_harvest.Providers.Interface.{identity}
use nordicintel_harvest.Providers.Candidates.{FullCandidate}
use nordicintel_harvest.Providers.Common.{Texts}
use nordicintel_harvest.Providers.Common.Extras.{structured_extras}
use nordicintel_harvest.Providers.Common.Loop.{field_names}
use nordicintel_harvest.Providers.Common.Kept.{IsKept, structured_extras_lem}
use nordicintel_harvest.Providers.PxWebV2.Categories.{Models, keys_of}
use nordicintel_harvest.Providers.PxWebV2.Dimensions.{
  BuiltDimensions, build_dimensions, stripped_ids,
}
use nordicintel_harvest.Providers.PxWebV2.Declared.{build_dimensions_lem}
use nordicintel_harvest.Providers.PxWebV2.Discovery.{
  Service, completed, failed, get_api_url, discover_candidates,
}
use nordicintel_harvest.Providers.PxWebV2.Expected.{all_candidates}
use nordicintel_harvest.Providers.PxWebV2.Pages.{
  listing, discover_candidates_lem, discover_candidates_raises,
}
use nordicintel_harvest.Providers.PxWebV2.Resolve.{Resolving, resolve_dataset, info_of}
use nordicintel_harvest.Providers.PxWebV2.Resolved.{
  nothing, resolve_dataset_lem, resolve_dataset_rejects,
}

abbrev texts : Texts
texts = record {
  py = record { repr = λ v. "[]"; parse_int = λ s. err value_error };
  lower = λ s. s;
  fromisoformat = λ s. none;
  eq = λ a b. true;
  dict_of = λ v. err type_error;
}

abbrev urls : Urls
urls = record {
  urlsplit = λ s. record { scheme = ""; netloc = ""; path = s; query = ""; fragment = "" };
  urlunsplit = λ p. p.path;
  quote = λ t safe. t;
}

abbrev models : Models
models = record { coordinates = λ v. err value_error; unit = λ o. err value_error }

abbrev item : String → Value
item s = obj (field "name" (str s) (field "color" (str "red") end))

abbrev person : Fields
person =
    field "name" (str "Ann")
      (field "extension" (obj (field "desk" (str "3") end)) (field "room" (str "7") end))

abbrev structured : Fields
structured =
    field "name" (str "Ann")
      (field "extension" (obj (field "desk" (str "3") (field "room" (str "7") end))) end)

abbrev known_names : List String
known_names = "name" ∷ []

structured_extras_lem_example : IsKept texts person known_names structured
unfolding structured_extras field_names
structured_extras_lem_example = structured_extras_lem texts person known_names structured refl refl

-- one dimension of two years
abbrev year : Value
year = obj (
    field "label" (str "year") (
      field "category"
        (obj (
          field "index" (arr (cons (str "2020") (cons (str "2021") nil)))
            (field "label" (obj (field "2020" (str "2020") (field "2021" (str "2021") end))) end)))
        end))

abbrev raw_dimensions : Fields
raw_dimensions = field "Tid" year end

abbrev raw_role : Value
raw_role = obj (field "time" (arr (cons (str " Tid ") nil)) end)

abbrev empty_built : BuiltDimensions
empty_built = record { id = []; role = none; dimension = [] }

abbrev value_of {ℓ} : {A : Type ℓ} → A → Result A → A
value_of other (ok a) = a
value_of other (err e) = other

unfoldable built : BuiltDimensions
unfolding build_dimensions
built = value_of empty_built (
    build_dimensions texts models (some (obj raw_dimensions)) (some (arr (cons (str "Tid") nil)))
      (some raw_role))

build_dimensions_lem_example :
    (built.id ≡ stripped_ids texts.py (str "Tid" ∷ []))
    × (no_items built.id ≡ false)
    × (any is_empty built.id ≡ false)
    × (distinct built.id ≡ true)
    × (same_set (keys_of raw_dimensions) built.id ≡ true)
    × (keys built.dimension ≡ built.id)
    × (distinct (role_ids built.role) ≡ true)
    × (is_subset (role_ids built.role) built.id ≡ true)
unfolding build_dimensions built
build_dimensions_lem_example =
    build_dimensions_lem texts models raw_dimensions (cons (str "Tid") nil) (some raw_role) built
      refl

abbrev table : String → Value
table code = obj (field "id" (str code) (field "label" (str code) end))

abbrev first_tables : Items
first_tables = cons (table "A") (cons (table "B") nil)

abbrev last_tables : Items
last_tables = cons (table "C") nil

abbrev metadata_answer : Fields
metadata_answer =
    field "id" (arr (cons (str "Tid") nil))
      (field "role" raw_role (field "dimension" (obj raw_dimensions) end))

-- a service with two pages
abbrev answer : Option Value → Result Value
answer (some (num (pos n))) =
    if n == 1
    then ok (listing first_tables 1 2)
    else if n == 2
    then ok (listing last_tables 2 2)
    else err client_error
answer _ = ok (obj metadata_answer)

-- a service that fails on the second page
abbrev failing_answer : Option Value → Result Value
failing_answer (some (num (pos n))) =
    if n == 1 then ok (listing first_tables 1 2) else err client_error
failing_answer _ = ok null

abbrev served : (Option Value → Result Value) → Service
unfolding get
served by = record {
  texts = texts;
  urls = urls;
  get_json = λ url params. by (get "pageNumber" params);
  provider_code = "scb";
  language = "sv";
  base_api_url = "https://api";
  base_web_url = none;
}

-- codes of what is discovered
abbrev codes_of : List FullCandidate → List String
codes_of [] = []
codes_of (c ∷ cs) = c.candidate.dataset_code ∷ codes_of cs

discovered_codes : codes_of (discover_candidates (served answer) 5).yielded ≡ "A" ∷ "B" ∷ "C" ∷ []
unfolding discover_candidates served
discovered_codes = refl

discover_candidates_lem_example : discover_candidates (served answer) 3 ≡ record {
  yielded = all_candidates (served answer) (first_tables ∷ last_tables ∷ []);
  outcome = completed;
}
unfolding served
discover_candidates_lem_example =
    discover_candidates_lem (served answer) first_tables (last_tables ∷ []) 2 refl
      (refl, (refl, tt)) (omega arith)

discover_candidates_raises_example : discover_candidates (served failing_answer) 3 ≡ record {
  yielded = all_candidates (served failing_answer) (first_tables ∷ []);
  outcome = failed client_error;
}
unfolding served
discover_candidates_raises_example =
    discover_candidates_raises (served failing_answer) (first_tables ∷ []) 2 2 client_error refl
      (refl, tt) refl (omega arith) (omega arith)

abbrev resolving : Resolving
resolving = record {
  models = models;
  validation = record {
    matches = λ pattern s. true;
    is_date = λ d. false;
    dataset = λ d. ok tt;
    metadata = λ m. ok tt;
  };
  not_text = λ v. attribute_error;
}

abbrev candidate : FullCandidate
candidate = record {
  candidate = record { provider_code = "scb"; dataset_code = "A"; language = "sv"; updated = none };
  label = some "A";
  description = none;
  source = none;
  note = none;
  subject_code = some "BE";
  subject_label = none;
  time_unit = none;
  first_period = none;
  last_period = none;
  discontinued = none;
  metadata_url = none;
  data_url = none;
  web_url = none;
  doc_url = none;
  paths = none;
  official_statistics = none;
  contact = none;
  extension = end;
}

abbrev no_metadata : DatasetMetadata
no_metadata = record {
  identity = identity candidate.candidate;
  id = [];
  dimension = [];
  role = none;
  subject = none;
  paths = none;
  official_statistics = none;
  source = none;
  note = none;
  contact = none;
  metadata_url = none;
  retrieval = none;
  extension = end;
}

unfoldable documents : DatasetDocuments
unfolding resolve_dataset served info_of
documents =
    value_of (record { dataset = info_of (served answer) candidate; metadata = no_metadata })
      (resolve_dataset (served answer) resolving candidate)

resolved_ids : documents.metadata.id ≡ "Tid" ∷ []
unfolding documents resolve_dataset
resolved_ids = refl

resolve_dataset_lem_example :
    (documents.dataset ≡ info_of (served answer) candidate)
    × (documents.metadata.identity ≡ identity candidate.candidate)
    × (no_items documents.metadata.id ≡ false)
    × (any is_empty documents.metadata.id ≡ false)
    × (distinct documents.metadata.id ≡ true)
    × ((x : String)
        → contains (keys documents.metadata.dimension) x ≡ contains documents.metadata.id x)
    × (distinct (role_ids documents.metadata.role) ≡ true)
    × (is_subset (role_ids documents.metadata.role) documents.metadata.id ≡ true)
unfolding documents resolve_dataset
resolve_dataset_lem_example = resolve_dataset_lem (served answer) resolving candidate documents refl

resolve_dataset_rejects_example :
    ¬ (resolve_dataset (served failing_answer) resolving candidate ≡ ok documents)
unfolding served get_api_url
resolve_dataset_rejects_example =
    resolve_dataset_rejects (served failing_answer) resolving candidate
      "https://api/tables/A/metadata" refl (nothing refl) documents
