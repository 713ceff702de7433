-- ===== src/Providers/PxWebV1/Languages.antt =====
-- providers/adapters/pxweb_v1/catalog.py: the categories of a path in the language of the API, and
-- `list_pxweb_tables`.
use nordicintel_harvest.Prelude.{
  ℕ, Bool, false, not, ◌&&◌, String, Option, none, some, List, [], ◌∷◌, ◌++◌, string_eq, ◌==◌, add,
  keep, if◌then◌else◌,
}
use Prim.Native.Char.{Char}
use nordicintel_harvest.Prelude.Dict.{Dict, lookup, insert}
use nordicintel_harvest.Prelude.Sets.{list_eq}
use nordicintel_harvest.Prelude.Sort.{sorted}
use nordicintel_harvest.Prelude.Text.{join, split_slash}
use nordicintel_harvest.Core.Errors.{Result, ok, err, ◌>>=◌, external_api_error}
use nordicintel_harvest.Core.Json.{str, Fields, get}
use nordicintel_harvest.Providers.PxWebV1.Names.{
  PxWebCategory, PxWebTable, Names, category_name, navigation_url,
}
use nordicintel_harvest.Providers.PxWebV1.Html.{WebTable, unquoted}
use nordicintel_harvest.Providers.PxWebV1.Crawl.{
  Catalogue, Reply, Fetched, listed, refused, broken, fetch, is_text, entry_name, crawl_navigation,
}
use nordicintel_harvest.Providers.PxWebV1.Web.{
  Website, fetch_web_tables, fetch_web_only_metadata, path_leb,
}
use nordicintel_harvest.Providers.PxWebV1.Listing.{Overrides, tables_from_web}

-- The Unicode tables: the NFKD form of a text, `combining` and `isalnum` of a character.
pub record Unicode : Type 0 where
  pub nfkd : String → String
  pub is_combining : Char → Bool
  pub is_alnum : Char → Bool

-- the characters that are kept, each case folded
unfoldable pub folded : Names → Unicode → String → List String
folded n u String.[] = []
folded n u (String.◌∷◌ c s) =
    let rest = folded n u s in
    if not (u.is_combining c) && u.is_alnum c
    then n.casefold (String.◌∷◌ c String.[]) ∷ rest
    else rest

unfoldable pub normalize_id : Names → Unicode → String → String
unfolding folded join
normalize_id n u value = join "" (folded n u (u.nfkd (n.unquote value)))

-- the folders among the entries, with their ids
unfoldable pub folders_in : List Fields → List (String × Fields)
unfolding get
folders_in [] = []
folders_in (entry ∷ entries) =
    let rest = folders_in entries in
    elim (get "id" entry) [
      | some (str id) ↦ if is_text (get "type" entry) "l" then (id, entry) ∷ rest else rest
      | _ ↦ rest
    ]

-- the only one
abbrev pub only : List (String × Fields) → Option (String × Fields)
only (match ∷ []) = some match
only _ = none

abbrev pub or_try : Option (String × Fields) → Option (String × Fields) → Option (String × Fields)
or_try (some match) later = some match
or_try none later = later

unfoldable pub match_folder : Names → Unicode → List Fields → String → Option (String × Fields)
unfolding folders_in normalize_id
match_folder n u entries category_id =
    let folders = folders_in entries in
    or_try (only (keep (λ f. f.0 == category_id) folders)) (
      or_try (only (keep (λ f. n.casefold f.0 == n.casefold category_id) folders))
        (only (keep (λ f. normalize_id n u f.0 == normalize_id n u category_id) folders)))

abbrev pub Cache : Type 0
Cache = Dict (List String) (List Fields)

-- the entries of a folder, from the cache or the service
unfoldable pub cached : Catalogue → List String → Cache → Result (List Fields × Cache)
unfolding lookup insert fetch navigation_url
cached c path cache = elim (lookup path cache) [
  | some entries ↦ ok (entries, cache)
  | none ↦ elim (fetch (c.request (navigation_url c.names c.api_url path))) [
    | broken e ↦ err e
    | refused status ↦ err external_api_error
    | listed entries ↦ ok (entries, insert path entries cache)
  ]
]

abbrev resolved_category : Catalogue → String → Fields → PxWebCategory
unfolding entry_name category_name
resolved_category c category_id entry = record {
  id = category_id;
  name = category_name c.names (entry_name entry category_id) category_id;
}

-- one step down the path, before the rest of it; the rest is left when there is no folder
unfoldable pub go_down :
    Catalogue
    → String
    → List String
    → Cache
    → (List String → Cache → Result (Option (List PxWebCategory) × Cache))
    → Option (String × Fields)
    → Result (Option (List PxWebCategory) × Cache)
unfolding resolved_category
go_down c category_id parent cache more none = ok (none, cache)
go_down c category_id parent cache more (some (actual_id, entry)) =
    more (parent ++ actual_id ∷ []) cache >>= λ r. elim r.0 [
      | none ↦ ok (none, r.1)
      | some categories ↦ ok (some (resolved_category c category_id entry ∷ categories), r.1)
    ]

-- the categories of one path, if all of its folders are found
unfoldable pub resolve_path :
    Catalogue
    → Unicode
    → List String
    → List String
    → Cache
    → Result (Option (List PxWebCategory) × Cache)
unfolding cached go_down match_folder
resolve_path c u [] parent cache = ok (some [], cache)
resolve_path c u (category_id ∷ path) parent cache = cached c parent cache >>= λ r.
    go_down c category_id parent r.1 (resolve_path c u path)
      (match_folder c.names u r.0 category_id)

abbrev with_path : List String → Option (List PxWebCategory) → Overrides → Overrides
unfolding insert
with_path path none resolved = resolved
with_path path (some categories) resolved = insert path categories resolved

unfoldable pub resolve_paths :
    Catalogue → Unicode → List (List String) → Cache → Overrides → Result Overrides
unfolding resolve_path with_path
resolve_paths c u [] cache resolved = ok resolved
resolve_paths c u (path ∷ paths) cache resolved = resolve_path c u path [] cache >>= λ r.
    resolve_paths c u paths r.1 (with_path path r.0 resolved)

-- `{table.category_ids for table in web_tables}`
unfoldable pub paths_in : List WebTable → List (List String) → List (List String)
unfolding add
paths_in [] paths = paths
paths_in (table ∷ tables) paths = paths_in tables (add paths table.category_ids)

unfoldable pub resolve_api_category_paths :
    Catalogue → Unicode → List (List String) → Result Overrides
unfolding resolve_paths sorted path_leb
resolve_api_category_paths c u paths = resolve_paths c u (sorted path_leb paths) [] []

-- the part after `api` and `v1`
unfoldable pub language_after_api : Names → List String → Option String
language_after_api n (a ∷ b ∷ l ∷ parts) =
    let rest = language_after_api n (b ∷ l ∷ parts) in
    if n.casefold a == "api" && n.casefold b == "v1" then some (n.casefold l) else rest
language_after_api n (a ∷ b ∷ []) = none
language_after_api n (a ∷ []) = none
language_after_api n [] = none

unfoldable pub api_language : Names → String → Option String
unfolding language_after_api unquoted split_slash
api_language n url =
    let parts = n.urls.urlsplit url in language_after_api n (unquoted n (split_slash parts.path))

-- the part after the last `pxweb`
unfoldable pub language_after_pxweb : Names → List String → Option String
language_after_pxweb n (a ∷ l ∷ parts) =
    let rest = language_after_pxweb n (l ∷ parts) in
    elim rest [
      | some language ↦ some language
      | none ↦ if n.casefold a == "pxweb" then some (n.casefold l) else none
    ]
language_after_pxweb n (a ∷ []) = none
language_after_pxweb n [] = none

unfoldable pub web_language : Names → String → Option String
unfolding language_after_pxweb unquoted split_slash
web_language n url =
    let parts = n.urls.urlsplit url in language_after_pxweb n (unquoted n (split_slash parts.path))

abbrev pub languages_differ : Option String → Option String → Bool
languages_differ (some a) (some b) = not (a == b)
languages_differ _ b = false

-- the listing from the web tree; whatever it raises is handled by the caller
unfoldable pub list_from_web :
    Catalogue → Unicode → Website → List Fields → String → Result (List PxWebTable)
unfolding fetch_web_tables fetch_web_only_metadata api_language web_language
    resolve_api_category_paths paths_in tables_from_web
list_from_web c u w search_items web_url = fetch_web_tables c.names w web_url >>= λ web_tables.
    fetch_web_only_metadata c web_tables search_items >>= λ path_metadata.
    (if languages_differ (api_language c.names c.api_url) (web_language c.names web_url)
      then resolve_api_category_paths c u (paths_in web_tables [])
      else ok [])
    >>= λ overrides. tables_from_web c web_tables search_items path_metadata overrides

-- the listing from the flat catalogue, if it and the web tree are there
unfoldable pub list_from_search : Catalogue → Unicode → Website → Fetched → Option (List PxWebTable)
unfolding list_from_web
list_from_search c u w (broken e) = none
list_from_search c u w (refused status) = none
list_from_search c u w (listed search_items) = elim c.web_url [
  | none ↦ none
  | some web_url ↦ elim (list_from_web c u w search_items web_url) [
    | err e ↦ none
    | ok tables ↦ some tables
  ]
]

-- `list_pxweb_tables`, given the answer to the search of the flat catalogue
unfoldable pub list_pxweb_tables :
    Catalogue → Unicode → Website → Result Reply → ℕ → Option (Result (List PxWebTable))
unfolding list_from_search fetch crawl_navigation
list_pxweb_tables c u w search rounds = elim (list_from_search c u w (fetch search)) [
  | some tables ↦ some (ok tables)
  | none ↦ crawl_navigation c rounds
]
