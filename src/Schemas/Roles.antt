-- ===== src/Schemas/Roles.antt =====
-- The dimensions and roles of metadata that the validator of schemas/datasets.py accepts.
use nordicintel_harvest.Prelude.{
  ℕ, suc, Bool, true, false, ◌||◌, not, ◌≡◌, refl, sym, ap, ◌∙◌, String, Option, none, some, List,
  [], ◌∷◌, ◌++◌, arith, string_eq, Eq, contains, distinct, any, all, get_or, inl, inr,
  contains-append, Option-cases, subst,
}
use nordicintel_harvest.Prelude.Int.{ℤ, pos, int_eq}
use nordicintel_harvest.Prelude.Dict.{Dict, keys, lookup, insert, contains-keys-insert}
use nordicintel_harvest.Prelude.Text.{is_empty}
use nordicintel_harvest.Prelude.Sort.{sorted}
use nordicintel_harvest.Prelude.Sets.{list_beq, same_set, is_subset, contains-same_set}
use nordicintel_harvest.Core.Errors.{
  Result, ok, err, ◌>>=◌, ◌>>◌, raise_if, if_some, value_error, >>=-eq-ok, ok-injective, checked-ok,
  raise_if-clear, raise_if-ok,
}
use nordicintel_harvest.Schemas.Dimensions.{no_items, leb_ℤ, DatasetRole}
use nordicintel_harvest.Schemas.Datasets.{
  DatasetMetadata, positions_from, role_positions, assign, place_role, place_roles,
  validate_dimension_structure,
}
use nordicintel_harvest.Prelude.{◌&&◌, ap₂}
use nordicintel_harvest.Schemas.Ordinals.{clear, not-false}
use mathlib.Core.List.{append-nil, append_assoc}

module _ {ℓ κ} {K : Type ℓ} {V : Type κ} ⦃e : Eq K⦄ where
  keys-insert :
      (k : K) (v : V) (d : Dict K V) → lookup k d ≡ none → keys (insert k v d) ≡ keys d ++ k ∷ []
  unfolding lookup insert
  keys-insert k v [] h = refl
  keys-insert k v ((j, w) ∷ d) h = ground (arith, keys-insert k v d)

  contains-keys-none : (k : K) (d : Dict K V) → lookup k d ≡ none → contains (keys d) k ≡ false
  unfolding lookup
  contains-keys-none k [] h = refl
  contains-keys-none k ((j, w) ∷ d) h = ground (arith, contains-keys-none k d)

module _ {ℓ} {A : Type ℓ} ⦃e : Eq A⦄ where
  distinct-append :
      (xs : List A) (a : A)
      → distinct xs ≡ true
      → contains xs a ≡ false
      → distinct (xs ++ a ∷ []) ≡ true
  distinct-append [] a h k = refl
  distinct-append (x ∷ xs) a h k =
      ground
        (arith, distinct-append xs a, contains-append xs (a ∷ []) x, e.beq_iff a x, e.beq_iff x a)

err-ok : {after : Dict String String} → err value_error ≡ ok after → ⊥
err-ok h = cc

-- the branch on a dimension that an earlier role may hold
abbrev found : Option String → Result (Dict String String) → Result (Dict String String)
found o rest = elim o [ none ↦ rest | some previous ↦ err value_error ]

not-any : (xs : List String) (p : String → Bool) → any (λ x. not (p x)) xs ≡ false → all p xs ≡ true
not-any [] p h = refl
not-any (x ∷ xs) p h = ground (arith, not-any xs p)

assign_lem :
    (role_name : String) (ids : List String) (assigned after : Dict String String)
    → distinct (keys assigned) ≡ true
    → assign role_name ids assigned ≡ ok after
    → (keys after ≡ keys assigned ++ ids) × (distinct (keys after) ≡ true)
unfolding assign
assign_lem role_name [] assigned after d h =
    let same = ok-injective h in
    (
      ap keys (sym same) ∙ sym (append-nil (keys assigned)),
      subst (λ a. distinct (keys a) ≡ true) same d,
    )
assign_lem role_name (x ∷ xs) assigned after d h = elim (Option-cases (lookup x assigned)) [
  | inl new ↦
      let grown = keys-insert x role_name assigned new in
      let (rest, apart) =
        assign_lem role_name xs (insert x role_name assigned) after
          (rw grown (distinct-append (keys assigned) x d (contains-keys-none x assigned new)))
          (subst (λ o. found o (assign role_name xs (insert x role_name assigned)) ≡ ok after) new
            h) in
      (rest ∙ ap (λ k. k ++ xs) grown ∙ append_assoc (keys assigned) (x ∷ []) xs, apart)
  | inr (previous, old) ↦ absurd (
      err-ok
        (subst (λ o. found o (assign role_name xs (insert x role_name assigned)) ≡ ok after) old h))
]

place_role_lem :
    (positions : Dict String ℤ) (role_name : String) (ids : Option (List String))
    (assigned after : Dict String String)
    → distinct (keys assigned) ≡ true
    → place_role positions role_name ids assigned ≡ ok after
    → (keys after ≡ keys assigned ++ get_or ids [])
      × (distinct (keys after) ≡ true)
      × (is_subset (get_or ids []) (keys positions) ≡ true)
unfolding place_role
place_role_lem positions role_name none assigned after d h =
    let same = ok-injective h in
    (
      ap keys (sym same) ∙ sym (append-nil (keys assigned)),
      subst (λ a. distinct (keys a) ≡ true) same d,
      refl,
    )
place_role_lem positions role_name (some ids) assigned after d h =
    let unknown = any (λ x. not (contains (keys positions) x)) ids in
    let (places, m1, h1) =
      >>=-eq-ok (raise_if unknown value_error >> role_positions positions ids) _ h in
    let (known, m2) = raise_if-ok unknown value_error (role_positions positions ids) m1 in
    let out_of_order = not (list_beq places (sorted leb_ℤ places)) in
    let (ordered, h2) = raise_if-ok out_of_order value_error (assign role_name ids assigned) h1 in
    let (names, apart) = assign_lem role_name ids assigned after d h2 in
    (names, apart, not-any ids (contains (keys positions)) known)

contains-positions_from :
    (start : ℕ) (xs : List String) (d : Dict String ℤ) (x : String)
    → contains (keys (positions_from start xs d)) x ≡ (contains xs x || contains (keys d) x)
unfolding positions_from
contains-positions_from start [] d x = refl
contains-positions_from start (y ∷ xs) d x = ground (
  arith,
  contains-positions_from (suc start) xs (insert y (pos start) d) x,
  contains-keys-insert y x (pos start) d,
)

all-append : (p : String → Bool) (xs ys : List String) → all p (xs ++ ys) ≡ (all p xs && all p ys)
all-append p [] ys = refl
all-append p (x ∷ xs) ys = ground (arith, all-append p xs ys)

all-positions_from :
    (xs ids : List String)
    → is_subset xs (keys (positions_from 0 ids [])) ≡ true
    → is_subset xs ids ≡ true
all-positions_from [] ids h = refl
all-positions_from (x ∷ xs) ids h =
    ground (arith, all-positions_from xs ids, contains-positions_from 0 ids [] x)

place_roles_lem :
    (ids : List String) (role : DatasetRole) (after : Dict String String)
    → place_roles ids role ≡ ok after
    → (distinct (get_or role.time [] ++ get_or role.geo [] ++ get_or role.metric []) ≡ true)
      × (is_subset (get_or role.time [] ++ get_or role.geo [] ++ get_or role.metric []) ids ≡ true)
unfolding place_roles
place_roles_lem ids role after h =
    let positions = positions_from 0 ids [] in
    let (two, first, h2) = >>=-eq-ok _ (place_role positions "metric" role.metric) h in
    let (one, second, h1) = >>=-eq-ok _ (place_role positions "geo" role.geo) first in
    let (names_a, apart_a, known_a) =
      place_role_lem positions "time" role.time [] one refl second in
    let (names_b, apart_b, known_b) = place_role_lem positions "geo" role.geo one two apart_a h1 in
    let (names_c, apart_c, known_c) =
      place_role_lem positions "metric" role.metric two after apart_b h2 in
    let in_ids_a = all-positions_from (get_or role.time []) ids known_a in
    let in_ids_b = all-positions_from (get_or role.geo []) ids known_b in
    let in_ids_c = all-positions_from (get_or role.metric []) ids known_c in
    (
      subst (λ k. distinct k ≡ true)
          (names_c
            ∙ ap (λ k. k ++ get_or role.metric [])
                (names_b ∙ ap (λ k. k ++ get_or role.geo []) names_a))
          apart_c,
      all-append (contains ids) (get_or role.time [] ++ get_or role.geo []) (get_or role.metric [])
          ∙ ap₂ (λ a b. a && b)
              (all-append (contains ids) (get_or role.time []) (get_or role.geo [])
                ∙ ap₂ (λ a b. a && b) in_ids_a in_ids_b)
              in_ids_c,
    )

-- the dimensions that have a role, role by role
abbrev pub role_ids : Option DatasetRole → List String
role_ids none = []
role_ids (some role) = get_or role.time [] ++ get_or role.geo [] ++ get_or role.metric []

optional_roles :
    (ids : List String) (role : Option DatasetRole)
    → if_some role (λ r. place_roles ids r >>= λ assigned. ok tt) ≡ ok tt
    → (distinct (role_ids role) ≡ true) × (is_subset (role_ids role) ids ≡ true)
optional_roles ids none h = (refl, refl)
optional_roles ids (some role) h =
    let (after, placed, _) = >>=-eq-ok (place_roles ids role) (λ assigned. ok tt) h in
    place_roles_lem ids role after placed

-- Metadata that the validator accepts is unchanged. It has at least one dimension, no id is empty or
-- repeated, the dimension entries are those of the ids, and no dimension has two roles or the same
-- role twice; every dimension that has a role is one of the ids.
pub validate_dimension_structure_lem :
    (m n : DatasetMetadata)
    → validate_dimension_structure m ≡ ok n
    → (n ≡ m)
      × (no_items m.id ≡ false)
      × (any is_empty m.id ≡ false)
      × (distinct m.id ≡ true)
      × ((x : String) → contains (keys m.dimension) x ≡ contains m.id x)
      × (distinct (role_ids m.role) ≡ true)
      × (is_subset (role_ids m.role) m.id ≡ true)
unfolding validate_dimension_structure
validate_dimension_structure_lem m n h =
    let (h5, returned) = checked-ok _ (ok m) h in
    let (h4, roles) =
      checked-ok _ (if_some m.role (λ role. place_roles m.id role >>= λ assigned. ok tt)) h5 in
    let (h3, same) = clear _ (not (same_set (keys m.dimension) m.id)) h4 in
    let (h2, unique) = clear _ (not (distinct m.id)) h3 in
    let (h1, named) = clear _ (any is_empty m.id) h2 in
    let (apart, known) = optional_roles m.id m.role roles in
    (
      sym (ok-injective returned),
      raise_if-clear (no_items m.id) value_error h1,
      named,
      not-false (distinct m.id) unique,
      (λ x.
          contains-same_set (keys m.dimension) m.id x
            (not-false (same_set (keys m.dimension) m.id) same)),
      apart,
      known,
    )
