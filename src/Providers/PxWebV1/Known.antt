-- ===== src/Providers/PxWebV1/Known.antt =====
-- providers/adapters/pxweb_v1/catalog.py: the walk misses no folder and no table of an answer.
use nordicintel_harvest.Prelude.{
  true, false, not, ◌||◌, ◌≡◌, refl, sym, ap, ◌∙◌, subst, String, Option, none, some, List, [], ◌∷◌,
  ◌++◌, arith, string_eq, ==-refl, contains, contains-append, length, leb, if◌then◌else◌,
  Bool-cases, inl, inr, Eq, then_taken, else_taken, All, All-append, All-map,
}
use nordicintel_harvest.Prelude.Sets.{list_eq, pair_eq}
use nordicintel_harvest.Schemas.Dimensions.{no_items}
use nordicintel_harvest.Core.Errors.{
  ok, runtime_error, external_api_error, >>=-eq-ok, raise_if-ok, ok-injective,
}
use nordicintel_harvest.Core.Json.{Value, null, bool, num, float, str, arr, obj, Fields, get}
use nordicintel_harvest.Providers.PxWebV1.Crawl.{
  Catalogue, Fetched, listed, refused, broken, fetch, max_navigation_folders, Folder, Crawl,
  is_text, entry_id_of, entry_name, updated_of, add_folder, table_of, add_table, add_entry,
  visit_id, visit_entry, visit_entries, is_unreachable, visit_folder, ask, turn,
}
use nordicintel_harvest.Providers.PxWebV1.Walked.{folder_url}

-- what is known stays known
record Grows (s t : Crawl) : Type 0 where
  folders : (x : List String) → contains s.seen_folders x ≡ true → contains t.seen_folders x ≡ true
  tables :
      (x : List String × String) → contains s.seen_tables x ≡ true → contains t.seen_tables x ≡ true

-- An entry of the answer for a folder is known: a folder by its path, a table by the path of the folder
-- and its id, read without case.
pub record IsKnown (c : Catalogue) (path : List String) (entry : Fields) (s : Crawl) : Type 0 where
  pub folder_known :
      (entry_id : String)
      → entry_id_of entry ≡ some entry_id
      → is_text (get "type" entry) "l" ≡ true
      → contains s.seen_folders (path ++ entry_id ∷ []) ≡ true
  pub table_known :
      (entry_id : String)
      → entry_id_of entry ≡ some entry_id
      → is_text (get "type" entry) "t" ≡ true
      → contains s.seen_tables (path, c.names.casefold entry_id) ≡ true

same_state : (s t : Crawl) → s ≡ t → Grows s t
same_state s t e = record {
  folders = λ x h. ap (λ u. contains u.seen_folders x) (sym e) ∙ h;
  tables = λ x h. ap (λ u. contains u.seen_tables x) (sym e) ∙ h;
}

kept_entry :
    (c : Catalogue) (path : List String) (entry : Fields) (s t : Crawl)
    → Grows s t
    → IsKnown c path entry s
    → IsKnown c path entry t
kept_entry c path entry s t g k = record {
  folder_known = λ id e l. g.folders (path ++ id ∷ []) (k.folder_known id e l);
  table_known = λ id e l. g.tables (path, c.names.casefold id) (k.table_known id e l);
}

module _ {A : Type 0} ⦃e : Eq A⦄ where
  at_last : (xs : List A) (x : A) → contains (xs ++ x ∷ []) x ≡ true
  at_last xs x = ground (arith, contains-append xs (x ∷ []) x, ==-refl x)

  before_last : (xs : List A) (x y : A) → contains xs y ≡ true → contains (xs ++ x ∷ []) y ≡ true
  before_last xs x y h = ground (arith, contains-append xs (x ∷ []) y)

-- a state after an entry: it knows what was known, and the entry
record Learns (c : Catalogue) (path : List String) (entry : Fields) (s t : Crawl) : Type 0 where
  grows : Grows s t
  known : IsKnown c path entry t

record HasFolder (path : List String) (s t : Crawl) : Type 0 where
  grows : Grows s t
  there : contains t.seen_folders path ≡ true

add_folder-HasFolder :
    (c : Catalogue) (folder : Folder) (entry_id name : String) (s t : Crawl)
    → add_folder c folder entry_id name s ≡ ok t
    → HasFolder (folder.path ++ entry_id ∷ []) s t
unfolding add_folder
add_folder-HasFolder c folder entry_id name s t h =
    let path = folder.path ++ entry_id ∷ [] in
    elim (Bool-cases (contains s.seen_folders path)) [
      | inl known ↦
          let same =
            ok-injective (then_taken (contains s.seen_folders path) (ok s) _ (ok t) known h) in
          let g = same_state s t same in record { grows = g; there = g.folders path known }
      | inr new ↦
          let pushed = else_taken (contains s.seen_folders path) (ok s) _ (ok t) new h in
          let (_, returned) =
            raise_if-ok (leb max_navigation_folders (length s.seen_folders)) runtime_error _
              pushed in
          subst (HasFolder path s) (ok-injective returned) (record {
            grows = record { folders = before_last s.seen_folders path; tables = λ x k. k };
            there = at_last s.seen_folders path;
          })
    ]

record HasTable (key : List String × String) (s t : Crawl) : Type 0 where
  grows : Grows s t
  there : contains t.seen_tables key ≡ true

add_table-HasTable :
    (c : Catalogue) (folder : Folder) (entry_id name : String) (updated : Option String) (s : Crawl)
    → HasTable
        (folder.path, c.names.casefold entry_id)
        s
        (add_table c folder entry_id name updated s)
unfolding add_table
add_table-HasTable c folder entry_id name updated s =
    let key : List String × String = (folder.path, c.names.casefold entry_id) in
    let added : Crawl = record s {
      seen_tables = s.seen_tables ++ key ∷ [];
      output = s.output ++ table_of c folder entry_id name updated ∷ [];
    } in
    elim (Bool-cases (contains s.seen_tables key)) [
      | inl known ↦
          subst (λ b. HasTable key s (if b then s else added)) (sym known)
            (record { grows = same_state s s refl; there = known })
      | inr new ↦
          subst (λ b. HasTable key s (if b then s else added)) (sym new)
            (record {
              grows = record { folders = λ x k. k; tables = before_last s.seen_tables key };
              there = at_last s.seen_tables key;
            })
    ]

no_clash : true ≡ false → ⊥
no_clash h = cc

kinds_apart : (o : Option Value) → is_text o "l" ≡ true → is_text o "t" ≡ true → ⊥
kinds_apart (some (str s)) l t =
    let one = (string_eq.beq_iff s "l").0 l in
    let letters : "l" ≡ "t" = sym one ∙ (string_eq.beq_iff s "t").0 t in
    no_clash (sym ((string_eq.beq_iff "l" "t").1 letters))
kinds_apart none l t = cc
kinds_apart (some null) l t = cc
kinds_apart (some (bool b)) l t = cc
kinds_apart (some (num n)) l t = cc
kinds_apart (some (float n b x)) l t = cc
kinds_apart (some (arr v)) l t = cc
kinds_apart (some (obj o)) l t = cc

same_id : (a b : String) → some a ≡ some b → a ≡ b
same_id a b h = cc

add_entry-Learns :
    (c : Catalogue) (folder : Folder) (entry : Fields) (entry_id : String) (s t : Crawl)
    → entry_id_of entry ≡ some entry_id
    → add_entry c folder entry entry_id s ≡ ok t
    → Learns c folder.path entry s t
unfolding add_entry
add_entry-Learns c folder entry entry_id s t named h =
    let name = entry_name entry entry_id in
    let kind = get "type" entry in
    let table = add_table c folder entry_id name (updated_of c.py entry) s in
    elim (Bool-cases (is_text kind "l")) [
      | inl is_folder ↦
          let f =
            add_folder-HasFolder c folder entry_id name s t
              (then_taken (is_text kind "l") _ _ (ok t) is_folder h) in
          record {
            grows = f.grows;
            known = record {
              folder_known = λ id e l.
                  subst (λ i. contains t.seen_folders (folder.path ++ i ∷ []) ≡ true)
                    (same_id entry_id id (sym named ∙ e)) f.there;
              table_known = λ id e l. absurd (kinds_apart kind is_folder l);
            };
          }
      | inr other ↦
          let rest = else_taken (is_text kind "l") _ _ (ok t) other h in
          elim (Bool-cases (is_text kind "t")) [
            | inl is_table ↦
                let same =
                  ok-injective
                    (then_taken (is_text kind "t") (ok table) (ok s) (ok t) is_table rest) in
                let f =
                  subst (HasTable (folder.path, c.names.casefold entry_id) s) same
                    (add_table-HasTable c folder entry_id name (updated_of c.py entry) s) in
                record {
                  grows = f.grows;
                  known = record {
                    folder_known = λ id e l. absurd (no_clash (sym l ∙ other));
                    table_known = λ id e l.
                        subst (λ i. contains t.seen_tables (folder.path, c.names.casefold i) ≡ true)
                          (same_id entry_id id (sym named ∙ e)) f.there;
                  };
                }
            | inr nothing ↦
                let same =
                  ok-injective
                    (else_taken (is_text kind "t") (ok table) (ok s) (ok t) nothing rest) in
                record {
                  grows = same_state s t same;
                  known = record {
                    folder_known = λ id e l. absurd (no_clash (sym l ∙ other));
                    table_known = λ id e l. absurd (no_clash (sym l ∙ nothing));
                  };
                }
          ]
    ]

visit_id-Learns :
    (c : Catalogue) (folder : Folder) (entry : Fields) (o : Option String) (s t : Crawl)
    → entry_id_of entry ≡ o
    → visit_id c folder entry o s ≡ ok t
    → Learns c folder.path entry s t
unfolding visit_id
visit_id-Learns c folder entry none s t named h = record {
  grows = same_state s t (ok-injective h);
  known = record {
    folder_known = λ id e l. let bad : none ≡ some id = sym named ∙ e in cc;
    table_known = λ id e l. let bad : none ≡ some id = sym named ∙ e in cc;
  };
}
visit_id-Learns c folder entry (some entry_id) s t named h =
    add_entry-Learns c folder entry entry_id s t named h

in_turn : (s t u : Crawl) → Grows s t → Grows t u → Grows s u
in_turn s t u g k = record {
  folders = λ x h. k.folders x (g.folders x h);
  tables = λ x h. k.tables x (g.tables x h);
}

-- a state after all the entries of a folder
record LearnsAll (c : Catalogue) (path : List String) (entries : List Fields) (s t : Crawl)
    : Type 0 where
  grows : Grows s t
  known : All (λ entry. IsKnown c path entry t) entries

visit_entries-LearnsAll :
    (c : Catalogue) (folder : Folder) (entries : List Fields) (s t : Crawl)
    → visit_entries c folder entries s ≡ ok t
    → LearnsAll c folder.path entries s t
unfolding visit_entries visit_entry
visit_entries-LearnsAll c folder [] s t h = record {
  grows = same_state s t (ok-injective h);
  known = tt;
}
visit_entries-LearnsAll c folder (entry ∷ entries) s t h =
    let (next, seen, rest) = >>=-eq-ok (visit_entry c folder entry s) _ h in
    let first = visit_id-Learns c folder entry (entry_id_of entry) s next refl seen in
    let more = visit_entries-LearnsAll c folder entries next t rest in
    record {
      grows = in_turn s next t first.grows more.grows;
      known = (kept_entry c folder.path entry next t more.grows first.known, more.known);
    }

-- The entries of the answer for a folder are known.
pub record IsOpened (c : Catalogue) (s : Crawl) (path : List String) : Type 0 where
  pub opened :
      (entries : List Fields)
      → fetch (c.request (folder_url c path)) ≡ listed entries
      → All (λ entry. IsKnown c path entry s) entries

record Opens (c : Catalogue) (folder : Folder) (f : Fetched) (s t : Crawl) : Type 0 where
  grows : Grows s t
  known :
      (entries : List Fields) → f ≡ listed entries → All (λ e. IsKnown c folder.path e t) entries

same_entries : (xs ys : List Fields) → listed xs ≡ listed ys → xs ≡ ys
same_entries xs ys h = cc

visit_folder-Opens :
    (c : Catalogue) (folder : Folder) (f : Fetched) (s t : Crawl)
    → visit_folder c folder f s ≡ ok t
    → Opens c folder f s t
unfolding visit_folder
visit_folder-Opens c folder (broken e) s t h = cc
visit_folder-Opens c folder (refused status) s t h =
    let (_, returned) =
      raise_if-ok (no_items folder.path || not (is_unreachable status)) external_api_error (ok s)
        h in
    record { grows = same_state s t (ok-injective returned); known = λ entries e. cc }
visit_folder-Opens c folder (listed found) s t h =
    let l = visit_entries-LearnsAll c folder found s t h in
    record {
      grows = l.grows;
      known = λ entries e.
          subst (All (λ u. IsKnown c folder.path u t)) (same_entries found entries e) l.known;
    }

kept_open :
    (c : Catalogue) (s t : Crawl)
    → Grows s t
    → (path : List String) → IsOpened c s path
    → IsOpened c t path
kept_open c s t g path o = record {
  opened = λ entries e.
      All-map (λ u. IsKnown c path u s) (λ u. IsKnown c path u t) entries
        (λ u k. kept_entry c path u s t g k) (o.opened entries e);
}

-- A turn of the walk opens one folder, and leaves open those that were.
pub turn-IsOpened :
    (c : Catalogue) (folder : Folder) (pending : List Folder) (visited : List (List String))
    (s t : Crawl)
    → All (IsOpened c s) visited
    → turn c folder pending s ≡ ok t
    → All (IsOpened c t) (visited ++ folder.path ∷ [])
unfolding turn ask
turn-IsOpened c folder pending visited s t all h =
    let asked : Crawl = record s {
      requested = s.requested ++ folder_url c folder.path ∷ [];
      pending = pending;
    } in
    let f = fetch (c.request (folder_url c folder.path)) in
    let o = visit_folder-Opens c folder f asked t h in
    let g : Grows s t = record { folders = o.grows.folders; tables = o.grows.tables } in
    All-append (IsOpened c t) visited (folder.path ∷ [])
      (All-map (IsOpened c s) (IsOpened c t) visited (kept_open c s t g) all)
      (record { opened = o.known }, tt)
