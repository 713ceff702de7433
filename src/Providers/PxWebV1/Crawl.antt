-- ===== src/Providers/PxWebV1/Crawl.antt =====
-- providers/adapters/pxweb_v1/catalog.py: the requests to the service and the walk through its folders.
use nordicintel_harvest.Prelude.{
  ℕ, zero, suc, Bool, true, false, not, ◌||◌, String, Option, none, some, List, [], ◌∷◌, ◌++◌,
  string_eq, nat_eq, ◌==◌, contains, length, leb, if◌then◌else◌,
}
use nordicintel_harvest.Prelude.Int.{pos}
use nordicintel_harvest.Prelude.Text.{strip, is_empty, text_leb}
use nordicintel_harvest.Prelude.Sets.{list_eq, pair_eq}
use nordicintel_harvest.Prelude.Sort.{sorted}
use nordicintel_harvest.Schemas.Dimensions.{no_items}
use nordicintel_harvest.Core.Errors.{
  Error, Result, ok, err, ◌>>=◌, ◌>>◌, raise_if, value_error, type_error, runtime_error,
  external_api_error,
}
use nordicintel_harvest.Core.Json.{Value, float, str, arr, obj, Fields, get, items}
use nordicintel_harvest.Core.Values.{Builtins, text_of, get_present}
use nordicintel_harvest.Providers.PxWebV1.Names.{
  PxWebCategory, PxWebTable, Names, clean_text, category_name, path_string, table_api_url,
  navigation_url, table_web_url,
}

-- what `manager.request` gives: nothing, or a response with its status, `ok`, and its JSON body
pub data Reply : Type 0 where
  no_reply : Reply
  replied : ℕ → Bool → Result Value → Reply

-- The service, and how it is asked.
pub record Catalogue : Type 0 where
  pub names : Names
  pub py : Builtins
  pub request : String → Result Reply
  pub api_url : String
  pub web_url : Option String

-- A request that is refused carries the status, if there is one.
pub data Fetched : Type 0 where
  listed : List Fields → Fetched
  refused : Option ℕ → Fetched
  broken : Error → Fetched

-- all items are objects
unfoldable pub all_objects : List Value → Option (List Fields)
all_objects [] = some []
all_objects (v ∷ vs) =
    let rest = all_objects vs in
    elim v [ obj o ↦ elim rest [ none ↦ none | some os ↦ some (o ∷ os) ] | _ ↦ none ]

abbrev objects_or_error : Option (List Fields) → Fetched
objects_or_error none = broken type_error
objects_or_error (some os) = listed os

abbrev json_error : Error → Error
json_error type_error = value_error
json_error e = e

-- `_json_objects`
unfoldable pub json_objects : Result Value → Fetched
unfolding all_objects items
json_objects (err e) = broken (json_error e)
json_objects (ok (arr l)) = objects_or_error (all_objects (items l))
json_objects (ok v) = broken type_error

-- `_request`, and `_json_objects` of its response
unfoldable pub fetch : Result Reply → Fetched
unfolding json_objects
fetch (err e) = broken e
fetch (ok no_reply) = refused none
fetch (ok (replied status false body)) = refused (some status)
fetch (ok (replied status true body)) = json_objects body

abbrev pub max_navigation_folders : ℕ
max_navigation_folders = 10000

-- a folder that is still to be asked for
pub record Folder : Type 0 where
  pub path : List String
  pub categories : List PxWebCategory

-- The variables of `_crawl_navigation`, and the requests that it has sent, in order.
pub record Crawl : Type 0 where
  pub requested : List String
  pub pending : List Folder
  pub seen_folders : List (List String)
  pub seen_tables : List (List String × String)
  pub output : List PxWebTable

abbrev pub first_crawl : Crawl
first_crawl = record {
  requested = [];
  pending = record { path = []; categories = [] } ∷ [];
  seen_folders = [] ∷ [];
  seen_tables = [];
  output = [];
}

abbrev pub is_text : Option Value → String → Bool
is_text (some (str s)) expected = s == expected
is_text _ expected = false

-- the id of an entry; one that is no text, or blank, is left out
unfoldable pub entry_id_of : Fields → Option String
unfolding get strip
entry_id_of entry = elim (get "id" entry) [
  | some (str s) ↦ if is_empty (strip s) then none else some s
  | _ ↦ none
]

unfoldable pub entry_name : Fields → String → String
unfolding get clean_text
entry_name entry entry_id = elim (get "text" entry) [ some (str s) ↦ clean_text s | _ ↦ entry_id ]

unfoldable pub updated_of : Builtins → Fields → Option String
unfolding get_present text_of strip
updated_of py entry = elim (get_present "updated" entry) [
  | none ↦ none
  | some v ↦ some (strip (text_of py v))
]

-- the folder of an entry
unfoldable pub child_of : Catalogue → Folder → String → String → Folder
unfolding category_name
child_of c folder entry_id name = record {
  path = folder.path ++ entry_id ∷ [];
  categories =
      folder.categories
      ++ record { id = entry_id; name = category_name c.names name entry_id } ∷ [];
}

-- a folder among the entries
unfoldable pub add_folder : Catalogue → Folder → String → String → Crawl → Result Crawl
unfolding child_of
add_folder c folder entry_id name s =
    let child = child_of c folder entry_id name in
    let child_path = folder.path ++ entry_id ∷ [] in
    if contains s.seen_folders child_path
    then ok s
    else raise_if (leb max_navigation_folders (length s.seen_folders)) runtime_error
      >> ok (record s {
        pending = s.pending ++ child ∷ [];
        seen_folders = s.seen_folders ++ child_path ∷ [];
      })

abbrev pub one_point : Option Value
one_point = some (float (pos 1) true "1.0")

-- the record of a table
unfoldable pub table_of : Catalogue → Folder → String → String → Option String → PxWebTable
unfolding path_string table_api_url table_web_url
table_of c folder entry_id name updated = record {
  id = entry_id;
  path = path_string folder.path;
  title = if is_empty name then entry_id else name;
  category_path = folder.categories;
  api_url = table_api_url c.names c.api_url folder.path entry_id;
  web_url = table_web_url c.names c.web_url folder.path entry_id;
  published = updated;
  updated = updated;
  score = one_point;
}

-- a table among the entries
unfoldable pub add_table : Catalogue → Folder → String → String → Option String → Crawl → Crawl
unfolding table_of
add_table c folder entry_id name updated s =
    let key : List String × String = (folder.path, c.names.casefold entry_id) in
    if contains s.seen_tables key then s else record s {
      seen_tables = s.seen_tables ++ key ∷ [];
      output = s.output ++ table_of c folder entry_id name updated ∷ [];
    }

-- the kind of an entry
unfoldable pub add_entry : Catalogue → Folder → Fields → String → Crawl → Result Crawl
unfolding add_folder add_table entry_name updated_of get
add_entry c folder entry entry_id s =
    let name = entry_name entry entry_id in
    if is_text (get "type" entry) "l"
    then add_folder c folder entry_id name s
    else if is_text (get "type" entry) "t"
    then ok (add_table c folder entry_id name (updated_of c.py entry) s)
    else ok s

-- an entry by its id
unfoldable pub visit_id : Catalogue → Folder → Fields → Option String → Crawl → Result Crawl
unfolding add_entry
visit_id c folder entry none s = ok s
visit_id c folder entry (some entry_id) s = add_entry c folder entry entry_id s

unfoldable pub visit_entry : Catalogue → Folder → Fields → Crawl → Result Crawl
unfolding visit_id entry_id_of
visit_entry c folder entry s = visit_id c folder entry (entry_id_of entry) s

-- the loop over the entries of a folder
unfoldable pub visit_entries : Catalogue → Folder → List Fields → Crawl → Result Crawl
unfolding visit_entry
visit_entries c folder [] s = ok s
visit_entries c folder (entry ∷ entries) s =
    visit_entry c folder entry s >>= visit_entries c folder entries

-- a status that makes the walk skip a folder
abbrev pub is_unreachable : Option ℕ → Bool
is_unreachable none = false
is_unreachable (some status) = status == 400 || status == 404

-- what is done with the answer for a folder; the root cannot be skipped
unfoldable pub visit_folder : Catalogue → Folder → Fetched → Crawl → Result Crawl
unfolding visit_entries
visit_folder c folder (broken e) s = err e
visit_folder c folder (refused status) s =
    raise_if (no_items folder.path || not (is_unreachable status)) external_api_error >> ok s
visit_folder c folder (listed entries) s = visit_entries c folder entries s

-- a request, whose URL the service sees, and its answer
unfoldable pub ask : Catalogue → String → Crawl → Fetched × Crawl
unfolding fetch
ask c url s = (fetch (c.request url), record s { requested = s.requested ++ url ∷ [] })

-- one turn of the walk, for the folder that is taken from the front of the queue
unfoldable pub turn : Catalogue → Folder → List Folder → Crawl → Result Crawl
unfolding ask visit_folder navigation_url
turn c folder pending s =
    let asked =
      ask c (navigation_url c.names c.api_url folder.path) (record s { pending = pending }) in
    visit_folder c folder asked.0 asked.1

abbrev pub after_turn :
    (List Folder → Crawl → Option (Result Crawl)) → Result Crawl → Option (Result Crawl)
after_turn more (err e) = some (err e)
after_turn more (ok next) = more next.pending next

-- The walk from a state, in at most so many rounds; `none` if they do not suffice.
unfoldable pub walk : Catalogue → ℕ → List Folder → Crawl → Option (Result Crawl)
unfolding turn
walk c rounds [] s = some (ok s)
walk c zero (folder ∷ pending) s = none
walk c (suc rounds) (folder ∷ pending) s = after_turn (walk c rounds) (turn c folder pending s)

-- the key of the order of the tables
unfoldable pub table_leb : Names → PxWebTable → PxWebTable → Bool
unfolding text_leb
table_leb n a b =
    if n.casefold a.id == n.casefold b.id
    then text_leb (n.casefold a.path) (n.casefold b.path)
    else text_leb (n.casefold a.id) (n.casefold b.id)

-- what is returned after the walk
unfoldable pub listed_tables : Names → Crawl → Result (List PxWebTable)
unfolding sorted table_leb
listed_tables n s = raise_if (no_items s.output) value_error >> ok (sorted (table_leb n) s.output)

unfoldable pub crawl_navigation : Catalogue → ℕ → Option (Result (List PxWebTable))
unfolding walk listed_tables
crawl_navigation c rounds = elim (walk c rounds first_crawl.pending first_crawl) [
  | none ↦ none
  | some r ↦ some (r >>= listed_tables c.names)
]
