-- ===== src/Providers/PxWebV1/Walked.antt =====
-- providers/adapters/pxweb_v1/catalog.py: the invariant of the walk through the folders.
use nordicintel_harvest.Prelude.{
  map_snoc, distinct_snoc, ◌≤◌, true, not, ◌||◌, ◌≡◌, refl, sym, ap, ◌∙◌, subst, String, Option,
  none, some, List, [], ◌∷◌, ◌++◌, map, arith, string_eq, contains, distinct, length, length-append,
  leb, if◌then◌else◌, Bool-cases, inl, inr, then_taken, else_taken, All, All-append,
}
use mathlib.Core.List.{append_assoc}
use nordicintel_harvest.Prelude.Sets.{list_eq, pair_eq}
use nordicintel_harvest.Schemas.Dimensions.{no_items}
use nordicintel_harvest.Core.Errors.{
  ok, runtime_error, external_api_error, >>=-eq-ok, raise_if-ok, ok-injective,
}
use nordicintel_harvest.Core.Json.{Fields, get}
use nordicintel_harvest.Providers.PxWebV1.Names.{
  PxWebTable, navigation_url, path_string, table_api_url, category_name,
}
use nordicintel_harvest.Providers.PxWebV1.Crawl.{
  Catalogue, Fetched, listed, refused, broken, max_navigation_folders, Folder, child_of, Crawl,
  is_text, entry_id_of, entry_name, updated_of, add_folder, table_of, add_table, add_entry,
  visit_id, visit_entry, visit_entries, is_unreachable, visit_folder, ask, turn,
}

abbrev pub paths_of : List Folder → List (List String)
paths_of = map (λ f. f.path)

-- the URL of a folder
abbrev pub folder_url : Catalogue → List String → String
folder_url c path = navigation_url c.names c.api_url path

-- the place and the id of a record, which is read without case
unfoldable pub record_key : Catalogue → PxWebTable → List String × String
record_key c r = (map (λ k. k.id) r.category_path, c.names.casefold r.id)

-- the path and the address of a record are those of its place
pub record IsPlaced (c : Catalogue) (r : PxWebTable) : Type 0 where
  pub at : r.path ≡ path_string (map (λ k. k.id) r.category_path)
  pub addressed : r.api_url ≡ table_api_url c.names c.api_url (map (λ k. k.id) r.category_path) r.id

abbrev pub IsNamed : Folder → Type 0
IsNamed f = map (λ k. k.id) f.categories ≡ f.path

-- When the walk has visited so many folders: their URLs have been requested, in order; the folders that
-- are known are these and those of the queue, no folder and no table is known twice, there is one
-- record for each table, and there are no more than so many folders.
pub record IsWalk (c : Catalogue) (visited : List (List String)) (s : Crawl) : Type 0 where
  pub sent : s.requested ≡ map (folder_url c) visited
  pub queued : s.seen_folders ≡ visited ++ paths_of s.pending
  pub folders : distinct s.seen_folders ≡ true
  pub named : All IsNamed s.pending
  pub tables : distinct s.seen_tables ≡ true
  pub recorded : map (record_key c) s.output ≡ s.seen_tables
  pub placed : All (IsPlaced c) s.output
  pub bounded : length s.seen_folders ≤ max_navigation_folders

paths_of-append : (xs ys : List Folder) → paths_of (xs ++ ys) ≡ paths_of xs ++ paths_of ys
paths_of-append [] ys = refl
paths_of-append (x ∷ xs) ys = ap (λ l. x.path ∷ l) (paths_of-append xs ys)

child_of-IsNamed :
    (c : Catalogue) (folder : Folder) (entry_id name : String)
    → IsNamed folder
    → IsNamed (child_of c folder entry_id name)
unfolding child_of
child_of-IsNamed c folder entry_id name h =
    map_snoc (λ k. k.id) folder.categories
      (record { id = entry_id; name = category_name c.names name entry_id })
    ∙ ap (λ l. l ++ entry_id ∷ []) h

add_folder-IsWalk :
    (c : Catalogue) (folder : Folder) (entry_id name : String) (visited : List (List String))
    (s t : Crawl)
    → IsNamed folder
    → IsWalk c visited s
    → add_folder c folder entry_id name s ≡ ok t
    → IsWalk c visited t
unfolding add_folder child_of
add_folder-IsWalk c folder entry_id name visited s t n w h =
    let child_path = folder.path ++ entry_id ∷ [] in
    let child = child_of c folder entry_id name in
    elim (Bool-cases (contains s.seen_folders child_path)) [
      | inl known ↦
          let same = then_taken (contains s.seen_folders child_path) (ok s) _ (ok t) known h in
          subst (IsWalk c visited) (ok-injective same) w
      | inr new ↦
          let pushed = else_taken (contains s.seen_folders child_path) (ok s) _ (ok t) new h in
          let (room, returned) =
            raise_if-ok (leb max_navigation_folders (length s.seen_folders)) runtime_error _
              pushed in
          subst (IsWalk c visited) (ok-injective returned) (record {
            sent = w.sent;
            queued =
                ap (λ l. l ++ child_path ∷ []) w.queued
                ∙ append_assoc visited (paths_of s.pending) (child_path ∷ [])
                ∙ ap (λ l. visited ++ l) (sym (paths_of-append s.pending (child ∷ [])));
            folders = distinct_snoc s.seen_folders child_path w.folders new;
            named =
                All-append IsNamed s.pending (child ∷ []) w.named
                  (child_of-IsNamed c folder entry_id name n, tt);
            tables = w.tables;
            recorded = w.recorded;
            placed = w.placed;
            bounded = let size = length-append s.seen_folders (child_path ∷ []) in ground arith;
          })
    ]

table_of-IsPlaced :
    (c : Catalogue) (folder : Folder) (entry_id name : String) (updated : Option String)
    → IsNamed folder
    → IsPlaced c (table_of c folder entry_id name updated)
unfolding table_of
table_of-IsPlaced c folder entry_id name updated n = record {
  at = ap path_string (sym n);
  addressed = ap (λ l. table_api_url c.names c.api_url l entry_id) (sym n);
}

table_of-record_key :
    (c : Catalogue) (folder : Folder) (entry_id name : String) (updated : Option String)
    → IsNamed folder
    → record_key c (table_of c folder entry_id name updated)
      ≡ (folder.path, c.names.casefold entry_id)
unfolding table_of record_key
table_of-record_key c folder entry_id name updated n = ap (λ l. (l, c.names.casefold entry_id)) n

add_table-IsWalk :
    (c : Catalogue) (folder : Folder) (entry_id name : String) (updated : Option String)
    (visited : List (List String)) (s : Crawl)
    → IsNamed folder
    → IsWalk c visited s
    → IsWalk c visited (add_table c folder entry_id name updated s)
unfolding add_table
add_table-IsWalk c folder entry_id name updated visited s n w =
    let key : List String × String = (folder.path, c.names.casefold entry_id) in
    let table = table_of c folder entry_id name updated in
    let added : Crawl = record s {
      seen_tables = s.seen_tables ++ key ∷ [];
      output = s.output ++ table ∷ [];
    } in
    elim (Bool-cases (contains s.seen_tables key)) [
      | inl known ↦ subst (λ b. IsWalk c visited (if b then s else added)) (sym known) w
      | inr new ↦
          subst (λ b. IsWalk c visited (if b then s else added)) (sym new)
            (record {
              sent = w.sent;
              queued = w.queued;
              folders = w.folders;
              named = w.named;
              tables = distinct_snoc s.seen_tables key w.tables new;
              recorded =
                  map_snoc (record_key c) s.output table
                  ∙ ap (λ l. l ++ record_key c table ∷ []) w.recorded
                  ∙ ap (λ k. s.seen_tables ++ k ∷ [])
                      (table_of-record_key c folder entry_id name updated n);
              placed =
                  All-append (IsPlaced c) s.output (table ∷ []) w.placed
                    (table_of-IsPlaced c folder entry_id name updated n, tt);
              bounded = w.bounded;
            })
    ]

add_entry-IsWalk :
    (c : Catalogue) (folder : Folder) (entry : Fields) (entry_id : String)
    (visited : List (List String)) (s t : Crawl)
    → IsNamed folder
    → IsWalk c visited s
    → add_entry c folder entry entry_id s ≡ ok t
    → IsWalk c visited t
unfolding add_entry
add_entry-IsWalk c folder entry entry_id visited s t n w h =
    let name = entry_name entry entry_id in
    let table = add_table c folder entry_id name (updated_of c.py entry) s in
    elim (Bool-cases (is_text (get "type" entry) "l")) [
      | inl is_folder ↦
          add_folder-IsWalk c folder entry_id name visited s t n w
            (then_taken (is_text (get "type" entry) "l") _ _ (ok t) is_folder h)
      | inr other ↦
          let rest = else_taken (is_text (get "type" entry) "l") _ _ (ok t) other h in
          elim (Bool-cases (is_text (get "type" entry) "t")) [
            | inl is_table ↦
                subst (IsWalk c visited)
                  (ok-injective (
                    then_taken (is_text (get "type" entry) "t") (ok table) (ok s) (ok t) is_table
                      rest))
                  (add_table-IsWalk c folder entry_id name (updated_of c.py entry) visited s n w)
            | inr nothing ↦
                subst (IsWalk c visited)
                  (ok-injective (
                    else_taken (is_text (get "type" entry) "t") (ok table) (ok s) (ok t) nothing
                      rest))
                  w
          ]
    ]

visit_id-IsWalk :
    (c : Catalogue) (folder : Folder) (entry : Fields) (o : Option String)
    (visited : List (List String)) (s t : Crawl)
    → IsNamed folder
    → IsWalk c visited s
    → visit_id c folder entry o s ≡ ok t
    → IsWalk c visited t
unfolding visit_id
visit_id-IsWalk c folder entry none visited s t n w h = subst (IsWalk c visited) (ok-injective h) w
visit_id-IsWalk c folder entry (some entry_id) visited s t n w h =
    add_entry-IsWalk c folder entry entry_id visited s t n w h

visit_entries-IsWalk :
    (c : Catalogue) (folder : Folder) (entries : List Fields) (visited : List (List String))
    (s t : Crawl)
    → IsNamed folder
    → IsWalk c visited s
    → visit_entries c folder entries s ≡ ok t
    → IsWalk c visited t
unfolding visit_entries visit_entry
visit_entries-IsWalk c folder [] visited s t n w h = subst (IsWalk c visited) (ok-injective h) w
visit_entries-IsWalk c folder (entry ∷ entries) visited s t n w h =
    let (next, seen, rest) = >>=-eq-ok (visit_entry c folder entry s) _ h in
    let first = visit_id-IsWalk c folder entry (entry_id_of entry) visited s next n w seen in
    visit_entries-IsWalk c folder entries visited next t n first rest

visit_folder-IsWalk :
    (c : Catalogue) (folder : Folder) (f : Fetched) (visited : List (List String)) (s t : Crawl)
    → IsNamed folder
    → IsWalk c visited s
    → visit_folder c folder f s ≡ ok t
    → IsWalk c visited t
unfolding visit_folder
visit_folder-IsWalk c folder (broken e) visited s t n w h = cc
visit_folder-IsWalk c folder (refused status) visited s t n w h =
    let (_, returned) =
      raise_if-ok (no_items folder.path || not (is_unreachable status)) external_api_error (ok s)
        h in
    subst (IsWalk c visited) (ok-injective returned) w
visit_folder-IsWalk c folder (listed entries) visited s t n w h =
    visit_entries-IsWalk c folder entries visited s t n w h

asked_next :
    (c : Catalogue) (folder : Folder) (pending : List Folder) (visited : List (List String))
    (s : Crawl)
    → IsWalk c visited s
    → s.pending ≡ folder ∷ pending
    → IsWalk c
        (visited ++ folder.path ∷ [])
        (ask c (folder_url c folder.path) (record s { pending = pending })).1
unfolding ask
asked_next c folder pending visited s w e = record {
  sent =
      ap (λ l. l ++ folder_url c folder.path ∷ []) w.sent
      ∙ sym (map_snoc (folder_url c) visited folder.path);
  queued =
      w.queued
      ∙ ap (λ l. visited ++ paths_of l) e
      ∙ sym (append_assoc visited (folder.path ∷ []) (paths_of pending));
  folders = w.folders;
  named = (subst (All IsNamed) e w.named).1;
  tables = w.tables;
  recorded = w.recorded;
  placed = w.placed;
  bounded = w.bounded;
}

-- A turn of the walk keeps the invariant, and visits one folder.
pub turn-IsWalk :
    (c : Catalogue) (folder : Folder) (pending : List Folder) (visited : List (List String))
    (s t : Crawl)
    → IsWalk c visited s
    → s.pending ≡ folder ∷ pending
    → turn c folder pending s ≡ ok t
    → IsWalk c (visited ++ folder.path ∷ []) t
unfolding turn
turn-IsWalk c folder pending visited s t w e h =
    let asked = ask c (folder_url c folder.path) (record s { pending = pending }) in
    visit_folder-IsWalk c folder asked.0 (visited ++ folder.path ∷ []) asked.1 t
      (subst (All IsNamed) e w.named).0 (asked_next c folder pending visited s w e) h
