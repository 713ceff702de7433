-- ===== src/Providers/PxWebV2/Paths.antt =====
-- providers/adapters/pxweb_v2/parsing.py: the thematic paths of a table, in the shapes in which the
-- provider gives them.
use nordicintel_harvest.Prelude.{
  ℕ, suc, Bool, true, ◌||◌, String, Option, none, some, List, [], ◌∷◌, string_eq, contains, all,
  if◌then◌else◌, get_or, is_some,
}
use nordicintel_harvest.Prelude.Int.{pos}
use nordicintel_harvest.Prelude.Text.{strip, is_empty, decimal}
use nordicintel_harvest.Core.Json.{Value, null, str, arr, obj, Fields, end, field, get, items}
use nordicintel_harvest.Core.Values.{Builtins, text_of, get_present, non_empty}
use nordicintel_harvest.Schemas.Datasets.{PathItem, DatasetPath}
use nordicintel_harvest.Providers.Common.Extras.{or_none}

-- `str(item[key]).strip()`, if the item has the key and the text is not empty
unfoldable pub text_under : Builtins → Fields → String → Option String
unfolding get_present text_of strip
text_under py item key = elim (get_present key item) [
  | none ↦ none
  | some v ↦ non_empty (strip (text_of py v))
]

-- `next((... for key in keys if ...), default)`
unfoldable pub first_text : Builtins → List String → Fields → Option String → Option String
unfolding text_under
first_text py [] item default = default
first_text py (key ∷ keys) item default =
    let rest = first_text py keys item default in
    elim (text_under py item key) [ some s ↦ some s | none ↦ rest ]

abbrev pub id_keys : List String
id_keys = "id" ∷ "code" ∷ "key" ∷ "value" ∷ "name" ∷ "label" ∷ "title" ∷ []

abbrev pub label_keys : List String
label_keys = "label" ∷ "title" ∷ "name" ∷ "text" ∷ []

-- the items whose key is not listed
unfoldable pub without_keys : List String → Fields → Fields
without_keys listed end = end
without_keys listed (field k v o) =
    let rest = without_keys listed o in if contains listed k then rest else field k v rest

abbrev pub has_no_text : Option String → Bool
has_no_text none = true
has_no_text (some s) = is_empty s

unfoldable pub normalize_path_item : Builtins → Value → Option String → Option PathItem
unfolding first_text without_keys text_of strip
normalize_path_item py null fallback_id = none
normalize_path_item py (obj item) fallback_id =
    let item_id = first_text py id_keys item fallback_id in
    if has_no_text item_id
    then none
    else some (record {
      code = get_or item_id "";
      label = get_or (first_text py label_keys item item_id) "";
      extension = without_keys ("text" ∷ id_keys) item;
    })
normalize_path_item py v fallback_id =
    let item_id = strip (text_of py v) in
    if is_empty item_id
    then none
    else some (record { code = item_id; label = item_id; extension = end })

-- the items from an index on
unfoldable pub path_items : Builtins → ℕ → List Value → List PathItem
unfolding normalize_path_item decimal
path_items py index [] = []
path_items py index (item ∷ raw_items) =
    let rest = path_items py (suc index) raw_items in
    elim (normalize_path_item py item (some (decimal (pos index)))) [
      | none ↦ rest
      | some normalized ↦ normalized ∷ rest
    ]

-- A path with no items is no path.
unfoldable pub normalize_path_sequence : Builtins → List Value → Option DatasetPath
unfolding path_items
normalize_path_sequence py raw_items = elim (path_items py 0 raw_items) [
  | [] ↦ none
  | item ∷ rest ↦ some (record { path = item ∷ rest; extension = end })
]

-- `item["path"]`, where the item is an object and that is a list
unfoldable pub path_list : Value → Option (List Value)
unfolding get items
path_list (obj o) = elim (get "path" o) [ some (arr l) ↦ some (items l) | _ ↦ none ]
path_list _ = none

abbrev pub as_list : Value → Option (List Value)
unfolding items
as_list (arr l) = some (items l)
as_list _ = none

-- the items of one raw path in a list of paths: those of its `path`, or its own
unfoldable pub raw_items_of : Value → Option (List Value)
unfolding path_list
raw_items_of v = elim (path_list v) [ some l ↦ some l | none ↦ as_list v ]

unfoldable pub normalize_each : Builtins → List Value → List DatasetPath
unfolding raw_items_of normalize_path_sequence
normalize_each py [] = []
normalize_each py (v ∷ vs) =
    let rest = normalize_each py vs in
    elim (raw_items_of v) [
      | none ↦ rest
      | some raw_items ↦ elim (normalize_path_sequence py raw_items) [
        | none ↦ rest
        | some path ↦ path ∷ rest
      ]
    ]

abbrev pub single : Option DatasetPath → Option (List DatasetPath)
single none = none
single (some path) = some (path ∷ [])

-- the items of an object that maps ids to objects or labels
unfoldable pub items_of_fields : Fields → List Value
unfolding get without_keys
items_of_fields end = []
items_of_fields (field key (obj value) o) =
    obj (field "id" (get_or (get "id" value) (str key)) (without_keys ("id" ∷ []) value))
    ∷ items_of_fields o
items_of_fields (field key value o) =
    obj (field "id" (str key) (field "label" value end)) ∷ items_of_fields o

-- an object without a list of paths and without a path
unfoldable pub normalize_object : Builtins → Fields → Option (List DatasetPath)
unfolding items_of_fields normalize_path_sequence get
normalize_object py o =
    if is_some (get "id" o) || is_some (get "label" o)
    then single (normalize_path_sequence py (obj o ∷ []))
    else single (normalize_path_sequence py (items_of_fields o))

-- a list: of paths, if it has items and all of them are objects with a path, or all are lists
unfoldable pub normalize_list : Builtins → List Value → Option (List DatasetPath)
unfolding normalize_each normalize_path_sequence path_list
normalize_list py [] = single (normalize_path_sequence py [])
normalize_list py (v ∷ vs) =
    if all (λ item. is_some (path_list item)) (v ∷ vs)
      || all (λ item. is_some (as_list item)) (v ∷ vs)
    then or_none (normalize_each py (v ∷ vs))
    else single (normalize_path_sequence py (v ∷ vs))

unfoldable pub normalize_paths : Builtins → Option Value → Option (List DatasetPath)
unfolding normalize_each normalize_list normalize_object normalize_path_sequence get items
normalize_paths py none = none
normalize_paths py (some null) = none
normalize_paths py (some (obj o)) = elim (get "paths" o) [
  | some (arr l) ↦ or_none (normalize_each py (items l))
  | _ ↦ elim (get "path" o) [
    | some (arr l) ↦ single (normalize_path_sequence py (items l))
    | _ ↦ normalize_object py o
  ]
]
normalize_paths py (some (arr l)) = normalize_list py (items l)
normalize_paths py (some v) = single (normalize_path_sequence py (v ∷ []))
