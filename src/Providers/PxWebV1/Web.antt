-- ===== src/Providers/PxWebV1/Web.antt =====
-- providers/adapters/pxweb_v1/catalog.py: the tables of the web catalogue, and what the API says of those
-- that the flat catalogue lacks.
use nordicintel_harvest.Prelude.{
  ℕ, Bool, true, false, not, ◌&&◌, ◌||◌, String, Option, none, some, List, [], ◌∷◌, ◌++◌, map,
  string_eq, nat_eq, ◌==◌, contains, if◌then◌else◌, get_or, is_some, keep,
}
use nordicintel_harvest.Prelude.Dict.{Dict, lookup, insert}
use nordicintel_harvest.Prelude.Sets.{list_eq, pair_eq}
use nordicintel_harvest.Prelude.Sort.{sorted}
use nordicintel_harvest.Prelude.Text.{is_empty, concat, rstrip_slash, starts_with, text_leb}
use nordicintel_harvest.Core.Errors.{Result, ok, err, ◌>>=◌, ◌>>◌, raise_if, external_api_error}
use nordicintel_harvest.Core.Json.{Value, str, Fields, end, field, get, truthy}
use nordicintel_harvest.Core.Values.{Builtins, text_of}
use nordicintel_harvest.Providers.PxWebV1.Names.{Names, clean_text, path_string, navigation_url}
use nordicintel_harvest.Providers.PxWebV1.Html.{
  HtmlEvent, ExpansionForm, form_events, no_forms, WebTable, tree_events, no_tree,
}
use nordicintel_harvest.Providers.PxWebV1.Crawl.{
  Catalogue, Fetched, listed, refused, broken, fetch, is_text, is_unreachable, updated_of,
}

-- a response with a page
pub record WebPage : Type 0 where
  pub url : String
  pub text : String

-- what `manager.request` gives for a page
pub data PageReply : Type 0 where
  no_page : PageReply
  page : ℕ → Bool → WebPage → PageReply

-- The web catalogue: how a page is asked for (a form is posted, with the page it came from), the events
-- of a page, and `urljoin`.
pub record Website : Type 0 where
  pub get_page : String → Result PageReply
  pub post_form : String → Dict String String → String → Result PageReply
  pub events : String → List HtmlEvent
  pub urljoin : String → String → String

-- `_request`
unfoldable pub read_reply : Result PageReply → Result WebPage
read_reply (err e) = err e
read_reply (ok no_page) = err external_api_error
read_reply (ok (page status false p)) = err external_api_error
read_reply (ok (page status true p)) = ok p

unfoldable pub is_within_web_root : Names → String → String → Bool
unfolding rstrip_slash concat starts_with
is_within_web_root n url root_url =
    let candidate = n.urls.urlsplit url in
    let root = n.urls.urlsplit root_url in
    let root_path = concat (rstrip_slash (n.unquote root.path)) "/" in
    let candidate_path = n.unquote candidate.path in
    n.casefold candidate.scheme == n.casefold root.scheme
    && n.casefold candidate.netloc == n.casefold root.netloc
    && starts_with (n.casefold root_path) (n.casefold candidate_path)

unfoldable pub resolved_web_tables : Names → Website → List WebTable → String → List WebTable
unfolding is_within_web_root
resolved_web_tables n w [] root_url = []
resolved_web_tables n w (table ∷ tables) root_url =
    let rest = resolved_web_tables n w tables root_url in
    let href = w.urljoin root_url table.href in
    if is_within_web_root n href root_url then record table { href = href } ∷ rest else rest

-- the first form that has a button to expand the tree, with the name of the button
unfoldable pub expansion_form : List ExpansionForm → Option (ExpansionForm × String)
expansion_form [] = none
expansion_form (form ∷ forms) =
    let rest = expansion_form forms in
    elim form.submit_name [
      | none ↦ rest
      | some name ↦ if is_empty name then rest else some (form, name)
    ]

unfoldable pub parse_web_tables : Names → Website → String → Result (List WebTable)
unfolding tree_events
parse_web_tables n w html = tree_events n (w.events html) no_tree

-- the tables of the tree, expanded where it can be
unfoldable pub expand :
    Names
    → Website
    → WebPage
    → List WebTable
    → Option (ExpansionForm × String)
    → Result (List WebTable)
unfolding resolved_web_tables parse_web_tables read_reply insert
expand n w initial initial_tables none = ok (resolved_web_tables n w initial_tables initial.url)
expand n w initial initial_tables (some (form, submit_name)) =
    let fields = insert submit_name form.submit_value form.fields in
    let target = if is_empty form.action then initial.url else w.urljoin initial.url form.action in
    read_reply (w.post_form target fields initial.url) >>= λ expanded.
    parse_web_tables n w expanded.text >>= λ tables.
    ok (resolved_web_tables n w tables expanded.url)

unfoldable pub fetch_web_tables : Names → Website → String → Result (List WebTable)
unfolding expand parse_web_tables form_events expansion_form read_reply
fetch_web_tables n w web_url = read_reply (w.get_page web_url) >>= λ initial.
    parse_web_tables n w initial.text >>= λ initial_tables.
    expand n w initial initial_tables
      (expansion_form (form_events n (w.events initial.text) no_forms))

-- `str(item.get("id") or "").casefold()` for the items that have an id
unfoldable pub search_ids : Names → Builtins → List Fields → List String
unfolding get text_of
search_ids n py [] = []
search_ids n py (item ∷ items) =
    let rest = search_ids n py items in
    elim (get "id" item) [
      | none ↦ rest
      | some v ↦ if truthy v then n.casefold (text_of py v) ∷ rest else rest
    ]

abbrev pub Metadata : Type 0
Metadata = Dict (List String × String) Fields

-- `tables_by_path`: the tables that the flat catalogue lacks, by their path
unfoldable pub by_path :
    Names
    → List String
    → List WebTable
    → Dict (List String) (List WebTable)
    → Dict (List String) (List WebTable)
unfolding lookup insert
by_path n known [] tables_by_path = tables_by_path
by_path n known (table ∷ tables) tables_by_path =
    let others = get_or (lookup table.category_ids tables_by_path) [] in
    let added = insert table.category_ids (others ++ table ∷ []) tables_by_path in
    by_path n known tables
      (if contains known (n.casefold table.table_id) then tables_by_path else added)

-- `a <= b` on tuples of texts
unfoldable pub path_leb : List String → List String → Bool
unfolding text_leb
path_leb [] b = true
path_leb (x ∷ a) [] = false
path_leb (x ∷ a) (y ∷ b) = if x == y then path_leb a b else text_leb x y

-- `navigation_by_id`
unfoldable pub navigation_by_id : Names → List Fields → Dict String Fields → Dict String Fields
unfolding get insert
navigation_by_id n [] known = known
navigation_by_id n (entry ∷ entries) known =
    let next : Dict String Fields = elim (get "id" entry) [
      | some (str id) ↦
          if is_text (get "type" entry) "t" then insert (n.casefold id) entry known else known
      | _ ↦ known
    ] in
    navigation_by_id n entries next

abbrev web_title : WebTable → Option Value → String
unfolding clean_text
web_title table (some (str s)) = clean_text s
web_title table _ = if is_empty table.title then table.table_id else table.title

abbrev stamp_value : Option String → Value
stamp_value none = Value.null
stamp_value (some s) = str s

-- what is known of a table from the entry of its folder
unfoldable pub entry_metadata : Builtins → List String → WebTable → Fields → Fields
unfolding path_string updated_of web_title get
entry_metadata py path table entry =
    let updated = stamp_value (updated_of py entry) in
    field "id" (str table.table_id) (
      field "path" (str (path_string path)) (
        field "title" (str (web_title table (get "text" entry))) (
          field "published" updated (
            field "updated" updated (
              field "score" (Value.float (nordicintel_harvest.Prelude.Int.pos 1) true "1.0")
                end)))))

-- the loop over the tables of a path
unfoldable pub add_entries :
    Names → Builtins → List String → Dict String Fields → List WebTable → Metadata → Metadata
unfolding lookup insert entry_metadata
add_entries n py path known [] metadata = metadata
add_entries n py path known (table ∷ tables) metadata =
    let table_id = n.casefold table.table_id in
    let next : Metadata = elim (lookup table_id known) [
      | none ↦ metadata
      | some entry ↦ insert (path, table_id) (entry_metadata py path table entry) metadata
    ] in
    add_entries n py path known tables next

-- the answer for one path
unfoldable pub add_path :
    Catalogue → List String × List WebTable → Fetched → Metadata → Result Metadata
unfolding add_entries navigation_by_id
add_path c entry (broken e) metadata = err e
add_path c entry (refused status) metadata =
    raise_if (not (is_unreachable status)) external_api_error >> ok metadata
add_path c (path, tables) (listed entries) metadata =
    ok (add_entries c.names c.py path (navigation_by_id c.names entries []) tables metadata)

unfoldable pub add_paths :
    Catalogue → Dict (List String) (List WebTable) → Metadata → Result Metadata
unfolding add_path fetch navigation_url
add_paths c [] metadata = ok metadata
add_paths c (entry ∷ entries) metadata =
    add_path c entry (fetch (c.request (navigation_url c.names c.api_url entry.0))) metadata
    >>= add_paths c entries

unfoldable pub fetch_web_only_metadata : Catalogue → List WebTable → List Fields → Result Metadata
unfolding add_paths by_path search_ids sorted path_leb
fetch_web_only_metadata c web_tables search_items =
    let known = search_ids c.names c.py search_items in
    add_paths c (sorted (λ a b. path_leb a.0 b.0) (by_path c.names known web_tables [])) []
