-- ===== src/Providers/PxWebV1/Html.antt =====
-- providers/adapters/pxweb_v1/catalog.py: the two parsers of the pages of a web catalogue, as functions
-- of the events that `HTMLParser` calls their handlers for.
use nordicintel_harvest.Prelude.{
  ℕ, not, ◌&&◌, ◌-◌, String, Option, none, some, List, [], ◌∷◌, ◌++◌, string_eq, ◌==◌, contains,
  drop, length, ltb, if◌then◌else◌,
}
use nordicintel_harvest.Prelude.Dict.{Dict, lookup, insert}
use nordicintel_harvest.Prelude.Text.{is_empty, concat, join, words, split_slash, split_double}
use nordicintel_harvest.Core.Errors.{Result, ok, err, ◌>>=◌, value_error}
use nordicintel_harvest.Providers.PxWebV1.Names.{Names, clean_text}

pub data HtmlEvent : Type 0 where
  start_tag : String → List (String × Option String) → HtmlEvent
  end_tag : String → HtmlEvent
  text_data : String → HtmlEvent

-- `dict(attrs)`
unfoldable pub attributes :
    List (String × Option String) → Dict String (Option String) → Dict String (Option String)
unfolding insert
attributes [] values = values
attributes ((key, value) ∷ attrs) values = attributes attrs (insert key value values)

-- `values.get(key)`
abbrev pub attribute : String → Dict String (Option String) → Option String
unfolding lookup
attribute key values = elim (lookup key values) [ none ↦ none | some v ↦ v ]

-- `values.get(key) or default`
unfoldable pub attribute_or : String → String → Dict String (Option String) → String
unfolding attribute
attribute_or key default values = elim (attribute key values) [
  | none ↦ default
  | some s ↦ if is_empty s then default else s
]

pub record ExpansionForm : Type 0 where
  pub action : String
  pub fields : Dict String String
  pub submit_name : Option String
  pub submit_value : String

-- the forms that are closed, and the one that is open
pub record Forms : Type 0 where
  pub forms : List ExpansionForm
  pub open_form : Option ExpansionForm

-- an input of the open form
unfoldable pub add_input :
    Names → String → Dict String (Option String) → ExpansionForm → ExpansionForm
unfolding attribute_or insert words
add_input n name values form =
    let value = attribute_or "value" "" values in
    let hidden = n.casefold (attribute_or "type" "text" values) == "hidden" in
    let with_field =
      if hidden then record form { fields = insert name value form.fields } else form in
    if contains (words (attribute_or "class" "" values)) "tableofcontent_action"
    then record with_field { submit_name = some name; submit_value = value }
    else with_field

abbrev new_form : Dict String (Option String) → ExpansionForm
unfolding attribute_or
new_form values = record {
  action = attribute_or "action" "" values;
  fields = [];
  submit_name = none;
  submit_value = "";
}

abbrev input_form :
    Names → Dict String (Option String) → Option ExpansionForm → Option ExpansionForm
unfolding add_input attribute_or
input_form n values none = none
input_form n values (some form) =
    let name = attribute_or "name" "" values in
    if is_empty name then some form else some (add_input n name values form)

abbrev close_form : Forms → Forms
close_form f = elim f.open_form [
  | none ↦ f
  | some form ↦ record { forms = f.forms ++ form ∷ []; open_form = none }
]

-- the handlers of `_ExpansionFormParser`
unfoldable pub form_event : Names → HtmlEvent → Forms → Forms
unfolding attributes new_form input_form
form_event n (start_tag tag attrs) f =
    let values = attributes attrs [] in
    if tag == "form"
    then record f { open_form = some (new_form values) }
    else if tag == "input"
    then record f { open_form = input_form n values f.open_form }
    else f
form_event n (end_tag tag) f = if tag == "form" then close_form f else f
form_event n (text_data s) f = f

unfoldable pub form_events : Names → List HtmlEvent → Forms → List ExpansionForm
unfolding form_event
form_events n [] f = f.forms
form_events n (e ∷ es) f = form_events n es (form_event n e f)

pub record TreeNode : Type 0 where
  pub kind : String
  pub text : List String
  pub href : Option String

pub record WebTable : Type 0 where
  pub table_id : String
  pub category_ids : List String
  pub category_names : List String
  pub title : String
  pub href : String

-- the tables found, and the open nodes, the innermost first
pub record Tree : Type 0 where
  pub tables : List WebTable
  pub nodes : List (Option TreeNode)

-- the first of the kinds whose class is there
unfoldable pub kind_in : List String → List String → Option String
unfolding concat
kind_in [] classes = none
kind_in (candidate ∷ kinds) classes =
    let rest = kind_in kinds classes in
    if contains classes (concat "AspNet-TreeView-" candidate) then some candidate else rest

abbrev tree_kinds : List String
tree_kinds = "Root" ∷ "Parent" ∷ "Leaf" ∷ []

abbrev new_node : Option String → Option TreeNode
new_node none = none
new_node (some kind) = some (record { kind = kind; text = []; href = none })

abbrev with_href : Option String → List (Option TreeNode) → List (Option TreeNode)
with_href href (some node ∷ nodes) = some (record node { href = href }) ∷ nodes
with_href href nodes = nodes

abbrev with_text : String → List (Option TreeNode) → List (Option TreeNode)
with_text s (some node ∷ nodes) = some (record node { text = node.text ++ s ∷ [] }) ∷ nodes
with_text s nodes = nodes

-- the names of the open nodes that are roots or parents, the outermost first
unfoldable pub ancestor_names : List (Option TreeNode) → List String
unfolding clean_text join
ancestor_names [] = []
ancestor_names (none ∷ nodes) = ancestor_names nodes
ancestor_names (some node ∷ nodes) =
    let rest = ancestor_names nodes in
    if contains ("Root" ∷ "Parent" ∷ []) node.kind
    then rest ++ clean_text (join "" node.text) ∷ []
    else rest

-- `[unquote(part) for part in parts if part]`
unfoldable pub unquoted : Names → List String → List String
unquoted n [] = []
unquoted n (part ∷ parts) =
    let rest = unquoted n parts in if is_empty part then rest else n.unquote part ∷ rest

unfoldable pub filled_tokens : List String → List String
filled_tokens [] = []
filled_tokens (token ∷ tokens) =
    let rest = filled_tokens tokens in if is_empty token then rest else token ∷ rest

-- the tokens of all segments but the last, and the last
unfoldable pub tokens_of : String → List String → List String × String
unfolding filled_tokens split_double
tokens_of first [] = ([], first)
tokens_of first (segment ∷ segments) =
    let rest = tokens_of segment segments in (filled_tokens (split_double first) ++ rest.0, rest.1)

unfoldable pub ids_from_href : Names → String → ℕ → Result (String × List String)
unfolding unquoted tokens_of split_slash
ids_from_href n href category_count =
    let parts = n.urls.urlsplit href in
    elim (unquoted n (split_slash parts.path)) [
      | [] ↦ err value_error
      | first ∷ segments ↦
          let ids = tokens_of first segments in
          if ltb (length ids.0) category_count
          then err value_error
          else ok (ids.1, drop (length ids.0 - category_count) ids.0)
    ]

-- the table of a leaf that is closed, within the nodes that stay open
unfoldable pub leaf_table : Names → TreeNode → String → List (Option TreeNode) → Result WebTable
unfolding ancestor_names ids_from_href clean_text join
leaf_table n node href nodes =
    let names = ancestor_names nodes in
    ids_from_href n href (length names) >>= λ ids. ok (record {
      table_id = ids.0;
      category_ids = ids.1;
      category_names = names;
      title = clean_text (join "" node.text);
      href = href;
    })

-- the link of a leaf, if the node is one
abbrev leaf_link : TreeNode → Option String
leaf_link node = elim node.href [
  | none ↦ none
  | some href ↦ if node.kind == "Leaf" && not (is_empty href) then some href else none
]

abbrev close_leaf : Names → TreeNode → List (Option TreeNode) → Tree → Option String → Result Tree
unfolding leaf_table
close_leaf n node nodes t none = ok (record t { nodes = nodes })
close_leaf n node nodes t (some href) = leaf_table n node href nodes >>= λ table.
    ok (record { tables = t.tables ++ table ∷ []; nodes = nodes })

abbrev close_node : Names → Tree → List (Option TreeNode) → Result Tree
unfolding close_leaf
close_node n t [] = ok t
close_node n t (none ∷ nodes) = ok (record t { nodes = nodes })
close_node n t (some node ∷ nodes) = close_leaf n node nodes t (leaf_link node)

-- the handlers of `_CategoryTreeParser`
unfoldable pub tree_event : Names → HtmlEvent → Tree → Result Tree
unfolding attributes attribute attribute_or kind_in words close_node
tree_event n (start_tag tag attrs) t =
    let values = attributes attrs [] in
    if tag == "li"
    then ok (record t {
      nodes = new_node (kind_in tree_kinds (words (attribute_or "class" "" values))) ∷ t.nodes;
    })
    else if tag == "a"
    then ok (record t { nodes = with_href (attribute "href" values) t.nodes })
    else ok t
tree_event n (end_tag tag) t = if tag == "li" then close_node n t t.nodes else ok t
tree_event n (text_data s) t = ok (record t { nodes = with_text s t.nodes })

unfoldable pub tree_events : Names → List HtmlEvent → Tree → Result (List WebTable)
unfolding tree_event
tree_events n [] t = ok t.tables
tree_events n (e ∷ es) t = tree_event n e t >>= tree_events n es

abbrev pub no_tree : Tree
no_tree = record { tables = []; nodes = [] }

abbrev pub no_forms : Forms
no_forms = record { forms = []; open_form = none }
