-- ===== src/Providers/PxWebV1/Names.antt =====
-- providers/adapters/pxweb_v1/catalog.py: the entries of a catalogue, and the names and addresses that
-- are made of a path.
use nordicintel_harvest.Prelude.{
  String, Option, none, some, List, [], ◌∷◌, ◌++◌, map, if◌then◌else◌,
}
use nordicintel_harvest.Prelude.Text.{
  strip, is_empty, concat, join, words, rstrip_slash, split_slash, replace_nbsp,
}
use nordicintel_harvest.Core.Json.{Value}
use nordicintel_harvest.Schemas.Contracts.{Urls}

pub record PxWebCategory : Type 0 where
  pub id : String
  pub name : String

pub record PxWebTable : Type 0 where
  pub id : String
  pub path : String
  pub title : String
  pub category_path : List PxWebCategory
  pub api_url : String
  pub web_url : Option String
  pub published : Option String
  pub updated : Option String
  pub score : Option Value

-- The text functions of the library: the parts of a URL, `unquote`, `casefold`, and the `re.sub` that
-- takes the id of a category from the front of its name.
pub record Names : Type 0 where
  pub urls : Urls
  pub unquote : String → String
  pub casefold : String → String
  pub without_id : String → String → String

unfoldable pub clean_text : String → String
unfolding replace_nbsp words join
clean_text value = join " " (words (replace_nbsp value))

unfoldable pub strip_id_prefix : Names → String → String → String
unfolding strip
strip_id_prefix n name category_id = strip (n.without_id name category_id)

-- `_strip_id_prefix(name, id) or id`
unfoldable pub category_name : Names → String → String → String
unfolding strip_id_prefix
category_name n name category_id =
    let short = strip_id_prefix n name category_id in if is_empty short then category_id else short

unfoldable pub parse_parts : Names → List String → List String
unfolding strip
parse_parts n [] = []
parse_parts n (part ∷ parts) =
    let rest = parse_parts n parts in
    if is_empty (strip part) then rest else strip (n.unquote part) ∷ rest

unfoldable pub parse_path : Names → String → List String
unfolding parse_parts split_slash
parse_path n path = parse_parts n (split_slash path)

unfoldable pub path_string : List String → String
unfolding join concat
path_string [] = "/"
path_string (id ∷ path) = concat "/" (join "/" (id ∷ path))

unfoldable pub root_url : Names → String → String
unfolding rstrip_slash
root_url n url =
    let parsed = n.urls.urlsplit url in
    n.urls.urlunsplit (record parsed { path = rstrip_slash parsed.path; query = ""; fragment = "" })

-- `quote(part, safe="")`
abbrev pub quoted : Names → String → String
quoted n part = n.urls.quote part ""

unfoldable pub table_api_url : Names → String → List String → String → String
unfolding root_url join
table_api_url n api_url path table_id =
    join "/" (root_url n api_url ∷ map (quoted n) (path ++ table_id ∷ []))

unfoldable pub navigation_url : Names → String → List String → String
unfolding root_url join
navigation_url n api_url [] = root_url n api_url
navigation_url n api_url (id ∷ path) = join "/" (root_url n api_url ∷ map (quoted n) (id ∷ path))

abbrev pub last_part : List String → String
last_part [] = ""
last_part (part ∷ []) = part
last_part (part ∷ next ∷ parts) = last_part (next ∷ parts)

unfoldable pub table_web_url : Names → Option String → List String → String → Option String
unfolding root_url rstrip_slash split_slash join concat
table_web_url n none path table_id = none
table_web_url n (some web_url) path table_id =
    let root = root_url n web_url in
    let root_parts = n.urls.urlsplit root in
    let database_id = n.unquote (last_part (split_slash (rstrip_slash root_parts.path))) in
    let route = join "__" (map (quoted n) (database_id ∷ path)) in
    some (concat (join "/" (root ∷ route ∷ quoted n table_id ∷ [])) "/")
