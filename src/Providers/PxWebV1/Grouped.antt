-- ===== src/Providers/PxWebV1/Grouped.antt =====
-- providers/adapters/pxweb_v1/adapter.py: the groups of the tables of a listing by their ids.
use nordicintel_harvest.Prelude.{
  Bool, true, ◌||◌, ◌≡◌, refl, sym, ap, ◌∙◌, subst, String, some, List, [], ◌∷◌, ◌++◌, map,
  string_eq, ◌==◌, contains, distinct, keep, if◌then◌else◌, get_or, arith, All, Bool-cases, inl,
  inr,
}
use nordicintel_harvest.Prelude.Dict.{
  Dict, keys, lookup, insert, lookup-insert, contains-keys-insert,
}
use mathlib.Core.List.{append-nil, append_assoc}
use nordicintel_harvest.Providers.PxWebV1.Names.{PxWebTable}
use nordicintel_harvest.Providers.PxWebV1.Discovery.{by_table_id}

-- the occurrences of one table, under its id
pub record IsGroup (g : String × List PxWebTable) : Type 0 where
  pub first : PxWebTable
  pub others : List PxWebTable
  pub grouped : g.1 ≡ first ∷ others
  pub same : first.id ≡ g.0

abbrev pub Groups : Type 0
Groups = Dict String (List PxWebTable)

grown :
    (j : String) (w : List PxWebTable) (t : PxWebTable) → IsGroup (j, w) → IsGroup (j, w ++ t ∷ [])
grown j w t g = record {
  first = g.first;
  others = g.others ++ t ∷ [];
  grouped = ap (λ l. l ++ t ∷ []) g.grouped;
  same = g.same;
}

insert-IsGroup :
    (t : PxWebTable) (d : Groups)
    → All IsGroup d
    → All IsGroup (insert t.id (get_or (lookup t.id d) [] ++ t ∷ []) d)
unfolding insert lookup
insert-IsGroup t [] h = (record { first = t; others = []; grouped = refl; same = refl }, tt)
insert-IsGroup t ((j, w) ∷ d) (g, h) =
    let grow : Bool → Type 0 = λ b.
      let l = get_or (if b then some w else lookup t.id d) [] ++ t ∷ [] in
      All IsGroup (if b then (j, l) ∷ d else (j, w) ∷ insert t.id l d) in
    elim (Bool-cases (j == t.id)) [
      | inl e ↦ subst grow (sym e) (grown j w t g, h)
      | inr e ↦ subst grow (sym e) (g, insert-IsGroup t d h)
    ]

pub by_table_id-IsGroup :
    (entries : List PxWebTable) (d : Groups) → All IsGroup d → All IsGroup (by_table_id entries d)
unfolding by_table_id
by_table_id-IsGroup [] d h = h
by_table_id-IsGroup (t ∷ entries) d h =
    by_table_id-IsGroup entries (insert t.id (get_or (lookup t.id d) [] ++ t ∷ []) d)
      (insert-IsGroup t d h)

distinct-keys-insert :
    (k : String) (v : List PxWebTable) (d : Groups)
    → distinct (keys d) ≡ true
    → distinct (keys (insert k v d)) ≡ true
unfolding insert
distinct-keys-insert k v [] h = refl
distinct-keys-insert k v ((j, w) ∷ d) h = ground (
  arith,
  string_eq.beq_iff k j,
  string_eq.beq_iff j k,
  contains-keys-insert k j v d,
  distinct-keys-insert k v d,
)

pub distinct-keys-by_table_id :
    (entries : List PxWebTable) (d : Groups)
    → distinct (keys d) ≡ true
    → distinct (keys (by_table_id entries d)) ≡ true
unfolding by_table_id
distinct-keys-by_table_id [] d h = h
distinct-keys-by_table_id (t ∷ entries) d h =
    let v = get_or (lookup t.id d) [] ++ t ∷ [] in
    distinct-keys-by_table_id entries (insert t.id v d) (distinct-keys-insert t.id v d h)

abbrev pub ids_of_tables : List PxWebTable → List String
ids_of_tables = map (λ t. t.id)

pub contains-keys-by_table_id :
    (entries : List PxWebTable) (d : Groups) (x : String)
    → contains (keys (by_table_id entries d)) x
      ≡ (contains (keys d) x || contains (ids_of_tables entries) x)
unfolding by_table_id
contains-keys-by_table_id [] d x = ground arith
contains-keys-by_table_id (t ∷ entries) d x =
    let v = get_or (lookup t.id d) [] ++ t ∷ [] in
    ground (
      arith,
      contains-keys-by_table_id entries (insert t.id v d) x,
      contains-keys-insert t.id x v d,
    )

-- the tables with an id, in their order
unfoldable pub occurrences_of : String → List PxWebTable → List PxWebTable
occurrences_of x entries = keep (λ t. t.id == x) entries

keep_first :
    (x : String) (t : PxWebTable) (entries before : List PxWebTable)
    → (if t.id == x then before ++ t ∷ [] else before) ++ keep (λ u. u.id == x) entries
      ≡ before ++ keep (λ u. u.id == x) (t ∷ entries)
keep_first x t entries before =
    let rest = keep (λ u. u.id == x) entries in
    let step : Bool → Type 0 = λ b.
      (if b then before ++ t ∷ [] else before) ++ rest ≡ before ++ (if b then t ∷ rest else rest) in
    elim (Bool-cases (t.id == x)) [
      | inl e ↦ subst step (sym e) (append_assoc before (t ∷ []) rest)
      | inr e ↦ subst step (sym e) refl
    ]

added_at :
    (t : PxWebTable) (d : Groups) (x : String)
    → get_or (if t.id == x then some (get_or (lookup t.id d) [] ++ t ∷ []) else lookup x d) []
      ≡ (if t.id == x then get_or (lookup x d) [] ++ t ∷ [] else get_or (lookup x d) [])
added_at t d x = elim (Bool-cases (t.id == x)) [
  | inl e ↦
      let same : t.id ≡ x = (string_eq.beq_iff t.id x).0 e in
      subst
        (λ b.
          get_or (if b then some (get_or (lookup t.id d) [] ++ t ∷ []) else lookup x d) []
          ≡ (if b then get_or (lookup x d) [] ++ t ∷ [] else get_or (lookup x d) []))
        (sym e) (ap (λ k. get_or (lookup k d) [] ++ t ∷ []) same)
  | inr e ↦
      subst
        (λ b.
          get_or (if b then some (get_or (lookup t.id d) [] ++ t ∷ []) else lookup x d) []
          ≡ (if b then get_or (lookup x d) [] ++ t ∷ [] else get_or (lookup x d) []))
        (sym e) refl
]

pub lookup-by_table_id :
    (entries : List PxWebTable) (d : Groups) (x : String)
    → get_or (lookup x (by_table_id entries d)) []
      ≡ get_or (lookup x d) [] ++ keep (λ t. t.id == x) entries
unfolding by_table_id
lookup-by_table_id [] d x = sym (append-nil (get_or (lookup x d) []))
lookup-by_table_id (t ∷ entries) d x =
    let v = get_or (lookup t.id d) [] ++ t ∷ [] in
    lookup-by_table_id entries (insert t.id v d) x
    ∙ ap (λ o. get_or o [] ++ keep (λ u. u.id == x) entries) (lookup-insert t.id x v d)
    ∙ ap (λ l. l ++ keep (λ u. u.id == x) entries) (added_at t d x)
    ∙ keep_first x t entries (get_or (lookup x d) [])
