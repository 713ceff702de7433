-- ===== src/Providers/PxWebV1/Listing.antt =====
-- providers/adapters/pxweb_v1/catalog.py: the tables of a catalogue from its web tree, and the listing
-- that falls back on the walk.
use nordicintel_harvest.Prelude.{
  not, ◌-◌, String, Option, none, some, List, [], ◌∷◌, ◌++◌, string_eq, nat_eq, contains,
  if◌then◌else◌, get_or, drop, length, nat_beq,
}
use nordicintel_harvest.Prelude.Dict.{Dict, lookup, insert}
use nordicintel_harvest.Prelude.Sets.{list_eq, list_beq, pair_eq}
use nordicintel_harvest.Prelude.Sort.{sorted}
use nordicintel_harvest.Prelude.Text.{strip, is_empty}
use nordicintel_harvest.Schemas.Dimensions.{no_items}
use nordicintel_harvest.Core.Errors.{
  Result, ok, err, ◌>>=◌, ◌>>◌, raise_if, value_error, type_error,
}
use nordicintel_harvest.Core.Json.{Value, bool, num, float, str, Fields, get, truthy}
use nordicintel_harvest.Core.Values.{Builtins, text_of, get_present, stripped}
use nordicintel_harvest.Providers.PxWebV1.Names.{
  PxWebCategory, PxWebTable, Names, category_name, parse_path, path_string, table_api_url,
}
use nordicintel_harvest.Providers.PxWebV1.Html.{WebTable}
use nordicintel_harvest.Providers.PxWebV1.Crawl.{Catalogue, table_leb}
use nordicintel_harvest.Providers.PxWebV1.Web.{Metadata}

-- `str(item.get("path") or "")`
abbrev pub item_path : Builtins → Fields → String
unfolding get text_of
item_path py item = elim (get "path" item) [
  | none ↦ ""
  | some v ↦ if truthy v then text_of py v else ""
]

-- the first of the candidates that stands at the path of the table
unfoldable pub exact_match : Names → Builtins → List String → List Fields → Option Fields
unfolding parse_path item_path
exact_match n py path [] = none
exact_match n py path (candidate ∷ candidates) =
    let rest = exact_match n py path candidates in
    if list_beq (parse_path n (item_path py candidate)) path then some candidate else rest

abbrev pub first_or : List Fields → Option Fields → Option Fields
first_or [] other = other
first_or (candidate ∷ candidates) other = some candidate

unfoldable pub metadata_for_web_table :
    Names → Builtins → WebTable → Dict String (List Fields) → Metadata → Option Fields
unfolding exact_match lookup
metadata_for_web_table n py table metadata_by_id path_metadata =
    let candidates = get_or (lookup (n.casefold table.table_id) metadata_by_id) [] in
    elim (exact_match n py table.category_ids candidates) [
      | some exact ↦ some exact
      | none ↦
          first_or candidates (lookup (table.category_ids, n.casefold table.table_id) path_metadata)
    ]

-- the check of one item, with its id
unfoldable pub search_id : Fields → Result String
unfolding get
search_id item = elim (get "id" item) [
  | some (str id) ↦ elim (get "path" item) [ some (str path) ↦ ok id | _ ↦ err type_error ]
  | _ ↦ err type_error
]

-- `metadata_by_id`
unfoldable pub index_items :
    Names → List Fields → Dict String (List Fields) → Result (Dict String (List Fields))
unfolding search_id lookup insert
index_items n [] known = ok known
index_items n (item ∷ items) known = search_id item >>= λ id.
    index_items n items
      (insert (n.casefold id) (get_or (lookup (n.casefold id) known) [] ++ item ∷ []) known)

abbrev pub Overrides : Type 0
Overrides = Dict (List String) (List PxWebCategory)

-- the categories of a path, from the labels of the tree
unfoldable pub zip_categories : Names → List String → List String → List PxWebCategory
unfolding category_name
zip_categories n (id ∷ ids) (name ∷ names) =
    record { id = id; name = category_name n name id } ∷ zip_categories n ids names
zip_categories n [] names = []
zip_categories n (id ∷ ids) [] = []

-- `category_overrides.get(ids) or tuple(...)`
unfoldable pub categories_of : Names → Overrides → List String → List String → List PxWebCategory
unfolding lookup zip_categories
categories_of n overrides ids names = elim (get_or (lookup ids overrides) []) [
  | [] ↦ zip_categories n ids names
  | category ∷ categories ↦ category ∷ categories
]

-- `category_names[-len(ids):] if ids else ()`
abbrev pub last_names : List String → List String → List String
last_names names [] = []
last_names names (id ∷ ids) = drop (length names - length (id ∷ ids)) names

abbrev pub stripped_text : Builtins → String → Fields → Option String
unfolding get_present text_of strip
stripped_text py key o = elim (get_present key o) [
  | none ↦ none
  | some v ↦ some (strip (text_of py v))
]

-- `float(score) if isinstance(score, (int, float)) else None`; the float is kept as the number it is of
abbrev pub score_of : Option Value → Option Value
score_of (some (bool b)) = some (bool b)
score_of (some (num n)) = some (num n)
score_of (some (float n b s)) = some (float n b s)
score_of _ = none

-- the record of a table that has metadata
unfoldable pub web_record : Catalogue → Overrides → WebTable → Fields → Result PxWebTable
unfolding categories_of path_string table_api_url stripped get
web_record c overrides table metadata =
    let names = last_names table.category_names table.category_ids in
    raise_if (not (nat_beq (length names) (length table.category_ids))) value_error
    >> ok (record {
      id = table.table_id;
      path = path_string table.category_ids;
      title =
          stripped c.py "title" (if is_empty table.title then table.table_id else table.title)
            metadata;
      category_path = categories_of c.names overrides table.category_ids names;
      api_url = table_api_url c.names c.api_url table.category_ids table.table_id;
      web_url = some table.href;
      published = stripped_text c.py "published" metadata;
      updated = stripped_text c.py "updated" metadata;
      score = score_of (get "score" metadata);
    })

-- what is made of one table that is not seen yet
abbrev found_record : Catalogue → Overrides → WebTable → Option Fields → Result (List PxWebTable)
unfolding web_record
found_record c overrides table none = ok []
found_record c overrides table (some metadata) =
    web_record c overrides table metadata >>= λ made. ok (made ∷ [])

-- the loop over the tables of the tree, with the keys that are seen
unfoldable pub web_records :
    Catalogue
    → Overrides
    → Dict String (List Fields)
    → Metadata
    → List (List String × String)
    → List WebTable
    → Result (List PxWebTable)
unfolding found_record metadata_for_web_table
web_records c overrides metadata_by_id path_metadata seen [] = ok []
web_records c overrides metadata_by_id path_metadata seen (table ∷ tables) =
    let key : List String × String = (table.category_ids, c.names.casefold table.table_id) in
    let skipped = web_records c overrides metadata_by_id path_metadata seen tables in
    let rest = web_records c overrides metadata_by_id path_metadata (seen ++ key ∷ []) tables in
    if contains seen key
    then skipped
    else found_record c overrides table
        (metadata_for_web_table c.names c.py table metadata_by_id path_metadata)
      >>= λ here. rest >>= λ others. ok (here ++ others)

unfoldable pub tables_from_web :
    Catalogue → List WebTable → List Fields → Metadata → Overrides → Result (List PxWebTable)
unfolding index_items web_records sorted table_leb
tables_from_web c web_tables search_items path_metadata overrides =
    index_items c.names search_items [] >>= λ metadata_by_id.
    raise_if (no_items web_tables) value_error
    >> web_records c overrides metadata_by_id path_metadata [] web_tables
    >>= λ output. raise_if (no_items output) value_error >> ok (sorted (table_leb c.names) output)
