-- ===== src/Tests.antt =====
-- Runs of the catalogue requests, the inputs, the worker, the schemas and the Kolada client, and the
-- theorems at concrete inputs.
use nordicintel_harvest.Providers.Kolada.Dimensions.{title_in, build_municipality_dimension}
use nordicintel_harvest.Providers.Kolada.Built.{build_municipality_dimension_lem}
use nordicintel_harvest.Prelude.{map, length}
use nordicintel_harvest.Prelude.Dict.{Dict, values}
use nordicintel_harvest.Prelude.Sort.{sorted}
use nordicintel_harvest.Prelude.Sets.{range}
use nordicintel_harvest.Prelude.Text.{text_leb}
use nordicintel_harvest.Prelude.{
  ℕ, zero, suc, ◌*◌, ◌≤◌, ◌<◌, ◌≡◌, refl, true, false, ◌⊎◌, String, Option, none, some, List, [],
  ◌∷◌, arith, string_eq, ◌==◌, ◌&&◌, any, take, drop, contains, All, get_or, distinct, subst, ap,
}
use nordicintel_harvest.Prelude.Int.{ℤ, int_eq, pos}
use nordicintel_harvest.Prelude.Dict.{keys}
use nordicintel_harvest.Prelude.Count.{count}
use nordicintel_harvest.Prelude.Sets.{is_subset}
use nordicintel_harvest.Prelude.Text.{is_empty, strip}
use nordicintel_harvest.Core.Errors.{Result, ok, ◌>>=◌, ok-injective}
use nordicintel_harvest.Core.Json.{Value, str, num, arr, obj, nil, Fields, end, field}
use nordicintel_harvest.Catalog.{
  Answer, replied, failed, request, request_lem, read_answer, powers, goes_on,
}
use nordicintel_harvest.Core.Errors.{timeout_error}
use nordicintel_harvest.Inputs.{
  HarvestInput, pxweb_v2, validate_input, cell_limit, max_concurrency, IsLimit, validate_input_lem,
}
use nordicintel_harvest.Providers.Interface.{DatasetHarvestState}
use nordicintel_harvest.Worker.{Rows, store_rows, load_states, load_states_lem, page_limit}
use nordicintel_harvest.Schemas.Dimensions.{DimensionCategory, validate_category, no_items}
use nordicintel_harvest.Schemas.Ordinals.{IsValidIndex, HasKnownChildren, validate_category_lem}
use nordicintel_harvest.Schemas.Dimensions.{DatasetDimension}
use nordicintel_harvest.Schemas.Datasets.{DatasetMetadata, validate_dimension_structure}
use nordicintel_harvest.Schemas.Roles.{role_ids, validate_dimension_structure_lem}
use nordicintel_harvest.Providers.Kolada.Parsing.{MunicipalityInfo}
use nordicintel_harvest.Providers.Kolada.Catalogue.{
  candidate_municipality_ids, reports, candidate_municipality_ids_lem,
}
use nordicintel_harvest.Providers.Kolada.Batches.{
  build_data_request_batches, total_asked, IsRequest, build_data_request_batches_lem,
}
use nordicintel_harvest.Providers.Kolada.Client.{Api, read_page, next_url, paginate}
use nordicintel_harvest.Providers.Kolada.Pages.{paginate_lem}

abbrev answers : ℕ → Answer
answers zero = replied 503 none
answers (suc zero) = failed timeout_error
answers (suc (suc n)) = replied 200 (some (num (pos 7)))

request-answers : request true answers ≡ (ok (some (num (pos 7))), 1 ∷ 2 ∷ [])
unfolding request
request-answers = refl

request_lem_example :
    (n : ℕ) × (n ≤ 2)
    × (request true answers ≡ (read_answer (answers n), powers 0 n))
    × ((i : ℕ) → i < n → goes_on (read_answer (answers i)) ≡ true)
    × ((goes_on (read_answer (answers n)) ≡ false) ⊎ (n ≡ 2))
request_lem_example = request_lem true answers

abbrev input : HarvestInput
input = record {
  adapter = pxweb_v2;
  provider_code = "scb";
  language = "sv";
  rate_limit = 500;
  config = field "extension" (obj (field "cell_limit" (num (pos 90000)) end)) end;
}

abbrev contract : HarvestInput → Result (Unit {0})
contract i = ok tt

input-accepted : validate_input contract input ≡ ok input
unfolding validate_input
input-accepted = refl

validate_input_lem_example :
    (input ≡ input)
    × ((v : Value) × (cell_limit input ≡ ok v) × IsLimit v)
    × ((v : Value) × (max_concurrency input ≡ ok v) × IsLimit v)
validate_input_lem_example = validate_input_lem contract input input input-accepted

abbrev state : DatasetHarvestState
state = record { source_updated_at = none; last_fetched_at = none; has_error = true }

abbrev rows : Rows
rows = ("a", state) ∷ ("b", state) ∷ []

abbrev page : ℕ → Result Rows
page offset = ok (take page_limit (drop offset rows))

load_states_lem_example : load_states 3 page ≡ some (ok (store_rows rows []))
load_states_lem_example = load_states_lem 3 page rows (λ offset. refl) (omega arith)

abbrev category : DimensionCategory
category = record {
  index = ("b", pos 1) ∷ ("a", pos 0) ∷ [];
  label = ("a", "First") ∷ ("b", "Second") ∷ [];
  child = some (("a", "b" ∷ []) ∷ []);
  coordinates = none;
  unit = none;
  note = none;
  extension = end;
}

category-accepted : validate_category category ≡ ok category
unfolding validate_category strip
category-accepted = refl

validate_category_lem_example :
    (category ≡ category)
    × IsValidIndex category
    × All (HasKnownChildren (keys category.index)) (get_or category.child [])
validate_category_lem_example = validate_category_lem category category category-accepted

abbrev dimension : DatasetDimension
dimension = record {
  label = "Area";
  category = category;
  note = none;
  extension = end;
  link = none;
}

abbrev metadata : DatasetMetadata
metadata = record {
  identity = record { provider_code = "scb"; dataset_code = "T1"; language = "sv" };
  id = "area" ∷ "year" ∷ [];
  dimension = ("year", dimension) ∷ ("area", dimension) ∷ [];
  role = some (record { time = some ("year" ∷ []); geo = some ("area" ∷ []); metric = none });
  subject = none;
  paths = none;
  official_statistics = none;
  source = none;
  note = none;
  contact = none;
  metadata_url = none;
  retrieval = none;
  extension = end;
}

metadata-accepted : validate_dimension_structure metadata ≡ ok metadata
unfolding validate_dimension_structure
metadata-accepted = refl

validate_dimension_structure_lem_example :
    (metadata ≡ metadata)
    × (no_items metadata.id ≡ false)
    × (any is_empty metadata.id ≡ false)
    × (distinct metadata.id ≡ true)
    × ((x : String) → contains (keys metadata.dimension) x ≡ contains metadata.id x)
    × (distinct (role_ids metadata.role) ≡ true)
    × (is_subset (role_ids metadata.role) metadata.id ≡ true)
validate_dimension_structure_lem_example =
    validate_dimension_structure_lem metadata metadata metadata-accepted

abbrev municipalities : List MunicipalityInfo
municipalities =
    record { municipality_id = "0000"; title = "Riket"; kind = "L" }
    ∷ record { municipality_id = "0001"; title = "Region"; kind = "L" }
    ∷ record { municipality_id = "1440"; title = "Ale"; kind = "K" }
    ∷ []

abbrev asked_ids : List String
asked_ids = "1440" ∷ "0000" ∷ []

candidates : candidate_municipality_ids "K" municipalities ≡ ok asked_ids
unfolding candidate_municipality_ids
candidates = refl

candidate_municipality_ids_lem_example :
    contains asked_ids "0001"
    ≡ any (λ m. m.municipality_id == "0001" && reports "K" m) municipalities
candidate_municipality_ids_lem_example =
    candidate_municipality_ids_lem "K" municipalities asked_ids candidates "0001"

build_data_request_batches_lem_example :
    ((m : String) (y : ℤ)
      → total_asked m y (build_data_request_batches ("1440" ∷ []) (pos 2020 ∷ pos 2021 ∷ []))
        ≡ count m ("1440" ∷ []) * count y (pos 2020 ∷ pos 2021 ∷ []))
    × All IsRequest (build_data_request_batches ("1440" ∷ []) (pos 2020 ∷ pos 2021 ∷ []))
build_data_request_batches_lem_example =
    build_data_request_batches_lem ("1440" ∷ []) (pos 2020 ∷ pos 2021 ∷ [])

-- An API whose pages all link to "b".
abbrev page_to : String → Value
page_to link = obj (field "values" (arr nil) (field "next_url" (str link) end))

abbrev api : Api
api = record {
  py = record { repr = λ v. ""; parse_int = λ s. ok (pos 0) };
  get_json = λ url. ok (page_to "b");
  urljoin = λ url link. link;
  base_api_url = "";
}

abbrev page_to_b : Result (List Fields × Option String)
page_to_b = ok ([], some "b")

linked :
    (page_values : List Fields) (link : String)
    → page_to_b ≡ ok (page_values, some link)
    → link ≡ "b"
linked page_values link h =
    let pair : ([], some "b") ≡ (page_values, some link) = ok-injective h in
    let second : some "b" ≡ some link = ap (λ p. p.1) pair in cc

reached_b : (next : String) → some "b" ≡ some next → "b" ≡ next
reached_b next h = cc

api-closed :
    (url : String) (page_values : List Fields) (link next : String)
    → contains ("a" ∷ "b" ∷ []) url ≡ true
    → (api.get_json url >>= read_page) ≡ ok (page_values, some link)
    → next_url api url link ≡ some next
    → contains ("a" ∷ "b" ∷ []) next ≡ true
unfolding read_page next_url strip
api-closed url page_values link next known read followed =
    let same = linked page_values link read in
    let reached : some "b" ≡ some next =
      subst (λ l. next_url api url l ≡ some next) same followed in
    let last = reached_b next reached in subst (λ n. contains ("a" ∷ "b" ∷ []) n ≡ true) last refl

paginate_lem_example : (r : Result (List Fields)) × (paginate api 3 (some "a") [] [] ≡ some r)
paginate_lem_example = paginate_lem api ("a" ∷ "b" ∷ []) "a" refl api-closed

abbrev area_ids : List String
area_ids = "1440" ∷ "0000" ∷ []

abbrev titles : Dict String String
titles = ("0000", "Riket") ∷ []

build_municipality_dimension_lem_example :
    (d : DatasetDimension) × (build_municipality_dimension area_ids titles ≡ ok d)
    × (keys d.category.index ≡ sorted text_leb area_ids)
    × (values d.category.index ≡ range 0 (length (sorted text_leb area_ids)))
    × (values d.category.label ≡ map (title_in titles) (sorted text_leb area_ids))
unfolding strip title_in
build_municipality_dimension_lem_example =
    build_municipality_dimension_lem area_ids titles refl refl refl refl
