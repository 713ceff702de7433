-- ===== src/Providers/PxWebV1/Tests.antt =====
-- Runs of the listing of a PxWeb v1 catalogue, and its theorems at concrete inputs.
use nordicintel_harvest.Prelude.{
  true, false, ◌≡◌, ◌≤◌, refl, String, Option, none, some, List, [], ◌∷◌, map, string_eq, ◌==◌,
  arith, if◌then◌else◌, All,
}
use nordicintel_harvest.Prelude.Int.{ℤ, pos}
use nordicintel_harvest.Prelude.Dict.{Dict}
use nordicintel_harvest.Schemas.Dimensions.{DatasetDimension}
use nordicintel_harvest.Providers.PxWebV1.Sample.{
  Selection, selection_of, cells_in, sample_selection,
}
use nordicintel_harvest.Providers.PxWebV1.Sampled.{HasValue, codes_of, sample_selection_lem}
use nordicintel_harvest.Core.Errors.{Result, ok, err, client_error, value_error}
use nordicintel_harvest.Core.Json.{Value, str, arr, obj, nil, cons, end, field}
use nordicintel_harvest.Providers.PxWebV1.Names.{PxWebTable}
use nordicintel_harvest.Core.Json.{items, Items, Fields}
use nordicintel_harvest.Providers.PxWebV1.Variables.{Variables, no_variables, payload_variables}
use nordicintel_harvest.Providers.PxWebV1.Discovery.{
  PxWebV1Adapter, Databases, discovered_from, discovered_candidates,
}
use nordicintel_harvest.Providers.PxWebV1.Discovered.{
  IsListed, codes_of_candidates, discovered_from_lem,
}
use nordicintel_harvest.Providers.PxWebV1.Crawl.{
  Catalogue, Reply, no_reply, replied, Crawl, first_crawl, walk, crawl_navigation,
}
use nordicintel_harvest.Providers.PxWebV1.Crawled.{IsComplete, walk-IsComplete}
use nordicintel_harvest.Providers.PxWebV1.Web.{Website, no_page}
use nordicintel_harvest.Providers.PxWebV1.Languages.{Unicode, list_pxweb_tables}
use nordicintel_harvest.Providers.PxWebV1.Listed.{list_pxweb_tables_returns}

abbrev entry : String → String → Value
entry kind id = obj (field "type" (str kind) (field "id" (str id) end))

-- a catalogue with a folder, which lists a table twice
abbrev answer : String → Result Reply
answer url =
    if url == "u"
    then ok (replied 200 true (ok (arr (cons (entry "l" "a") (cons (entry "t" "T1") nil)))))
    else if url == "u/a"
    then ok (replied 200 true (ok (arr (cons (entry "t" "T2") (cons (entry "t" "T2") nil)))))
    else ok no_reply

abbrev catalogue : Catalogue
catalogue = record {
  names = record {
    urls = record {
      urlsplit = λ s. record { scheme = ""; netloc = ""; path = s; query = ""; fragment = "" };
      urlunsplit = λ p. p.path;
      quote = λ t safe. t;
    };
    unquote = λ s. s;
    casefold = λ s. s;
    without_id = λ name id. name;
  };
  py = record { repr = λ v. ""; parse_int = λ s. err value_error };
  request = answer;
  api_url = "u";
  web_url = none;
}

abbrev ids_of : List PxWebTable → List String
ids_of = map (λ t. t.id)

abbrev ids_listed : Option (Result (List PxWebTable)) → List String
ids_listed (some (ok tables)) = ids_of tables
ids_listed _ = []

listed_ids : ids_listed (crawl_navigation catalogue 10000) ≡ "T1" ∷ "T2" ∷ []
unfolding crawl_navigation
listed_ids = refl

abbrev crawled : Option (Result Crawl) → Crawl
crawled (some (ok t)) = t
crawled _ = first_crawl

unfoldable end_state : Crawl
unfolding walk
end_state = crawled (walk catalogue 10000 first_crawl.pending first_crawl)

requested_urls : end_state.requested ≡ "u" ∷ "u/a" ∷ []
unfolding end_state walk
requested_urls = refl

walk-IsComplete_example : IsComplete catalogue end_state
unfolding end_state walk
walk-IsComplete_example = walk-IsComplete catalogue 10000 end_state (omega arith) refl

abbrev unicode : Unicode
unicode = record { nfkd = λ s. s; is_combining = λ c. false; is_alnum = λ c. true }

abbrev website : Website
website = record {
  get_page = λ url. ok no_page;
  post_form = λ url fields referer. ok no_page;
  events = λ s. [];
  urljoin = λ base url. url;
}

list_pxweb_tables_returns_example :
    (r : Result (List PxWebTable)) × (list_pxweb_tables catalogue unicode website
        (err client_error)
        10000
      ≡ some r)
list_pxweb_tables_returns_example =
    list_pxweb_tables_returns catalogue unicode website (err client_error) 10000 (omega arith)

abbrev dimension : Dict String ℤ → DatasetDimension
dimension index = record {
  label = "L";
  category = record {
    index = index;
    label = [];
    child = none;
    coordinates = none;
    unit = none;
    note = none;
    extension = end;
  };
  note = none;
  extension = end;
  link = none;
}

abbrev dimensions : Dict String DatasetDimension
dimensions =
    ("sex", dimension (("m", pos 1) ∷ ("f", pos 0) ∷ []))
    ∷ ("year", dimension (("2020", pos 0) ∷ ("2021", pos 1) ∷ ("2022", pos 2) ∷ []))
    ∷ []

abbrev sample : Selection
sample = ("sex", "f" ∷ "m" ∷ []) ∷ ("year", "2020" ∷ "2021" ∷ []) ∷ []

selected_sample : selection_of dimensions ("sex" ∷ "year" ∷ []) ≡ ok sample
unfolding selection_of
selected_sample = refl

shrunk_sample : sample_selection 3 sample ≡ ("sex", "f" ∷ "m" ∷ []) ∷ ("year", "2020" ∷ []) ∷ []
unfolding sample_selection
shrunk_sample = refl

sample_selection_lem_example :
    (cells_in (sample_selection 3 sample) ≤ 3)
    × (codes_of (sample_selection 3 sample) ≡ "sex" ∷ "year" ∷ [])
    × All HasValue (sample_selection 3 sample)
sample_selection_lem_example =
    sample_selection_lem 3 dimensions ("sex" ∷ "year" ∷ []) sample (omega arith) selected_sample
      (record { filled = omega arith }, (record { filled = omega arith }, tt))

abbrev dated : String → Value
dated id = obj (field "type" (str "t") (field "id" (str id) (field "updated" (str "2024") end)))

abbrev adapter : PxWebV1Adapter
adapter = record {
  texts = record {
    py = catalogue.py;
    lower = λ s. s;
    fromisoformat =
        λ s. if s == "2024" then some (record { wall = pos 0; offset = some (pos 0) }) else none;
    eq = λ a b. false;
    dict_of = λ v. err value_error;
  };
  names = catalogue.names;
  provider_code = "P";
  language = "en";
  db_ids = "db" ∷ "other" ∷ [];
  base_api_url = "u";
  base_web_url = "";
}

abbrev table_at : String → String → Option String → PxWebTable
table_at id category updated = record {
  id = id;
  path = category;
  title = "";
  category_path = record { id = category; name = "N" } ∷ [];
  api_url = "u";
  web_url = none;
  published = none;
  updated = updated;
  score = none;
}

-- T1 comes twice, T2 has no time stamp, and the category of T3 has no id
abbrev entries : List PxWebTable
entries =
    table_at "T1" "a" (some "2024")
    ∷ table_at "T2" "a" none
    ∷ table_at "T1" "b" (some "2024")
    ∷ table_at "T3" "" (some "2024")
    ∷ table_at "T4" "a" (some "2024")
    ∷ []

listed_codes : codes_of_candidates (discovered_from adapter (ok entries)) ≡ "T1" ∷ "T4" ∷ []
unfolding discovered_from
listed_codes = refl

discovered_from_lem_example : IsListed adapter entries (discovered_from adapter (ok entries))
discovered_from_lem_example = discovered_from_lem adapter entries

abbrev databases : Databases
databases = record {
  catalogue = record catalogue {
    request = λ url.
        if url == "u/en/db"
        then ok (replied 200 true (ok (arr (cons (dated "T1") nil))))
        else ok no_reply;
  };
  unicode = unicode;
  website = website;
  search = λ url. err client_error;
}

-- the second database does not answer
abbrev found_in_databases : List String
found_in_databases = elim (discovered_candidates adapter databases 10000) [
  | none ↦ []
  | some found ↦ codes_of_candidates found
]

found_codes : found_in_databases ≡ "T1" ∷ []
unfolding discovered_candidates
found_codes = refl

abbrev variable : String → Items → Value
variable code values = obj (field "code" (str code) (field "values" (arr values) end))

abbrev payload : Fields
payload =
    field "variables"
      (arr (
        cons (variable "sex" (cons (str "m") (cons (str "f") nil)))
          (cons (variable "year" (cons (str "2020") nil)) nil)))
      end

abbrev variables_of : Result Variables → Variables
variables_of (ok s) = s
variables_of (err e) = no_variables

unfoldable taken : Variables
unfolding payload_variables
taken = variables_of (payload_variables adapter.texts (obj payload))

payload_ids : taken.dimension_ids ≡ "sex" ∷ "year" ∷ []
unfolding taken items
payload_ids = refl
