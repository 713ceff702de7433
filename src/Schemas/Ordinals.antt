-- ===== src/Schemas/Ordinals.antt =====
-- What the validator of schemas/dimensions.py lets through.
use nordicintel_harvest.Prelude.{
  ℕ, ◌<◌, Bool, true, false, not, ◌≡◌, refl, ◌∙◌, sym, ap, String, Option, none, some, List, [],
  ◌∷◌, arith, string_eq, ltb, if◌then◌else◌, contains, distinct, any, length, length-map, All,
  All-map, get_or, ◌==◌,
}
use nordicintel_harvest.Prelude.Int.{ℤ, int_eq, pos}
use nordicintel_harvest.Prelude.Dict.{Dict, keys, values}
use nordicintel_harvest.Prelude.Sort.{sorted, count-sorted}
use nordicintel_harvest.Prelude.Count.{count}
use nordicintel_harvest.Prelude.Sets.{
  list_beq, list_beq-eq, same_set, contains-same_set, is_subset, range, count-range,
}
use nordicintel_harvest.Core.Errors.{
  Result, ok, ◌>>◌, raise_if, for_each, if_some, value_error, raise_if-clear, checked-ok,
  for_each-ok, ok-injective,
}
use nordicintel_harvest.Schemas.Dimensions.{
  leb_ℤ, no_items, is_blank, require_non_empty_keys, DimensionCategory, validate_child,
  validate_children, require_known_keys, validate_index, validate_category,
}

pub not-false : (b : Bool) → not b ≡ false → b ≡ true
not-false b h = ground arith

-- an index whose ordinals are dense: each number below its size belongs to one entry
abbrev pub IsDense : Dict String ℤ → Type 0
IsDense index = (n : ℕ) → count (pos n) (values index) ≡ (if ltb n (length index) then 1 else 0)

abbrev pub HasKnownChildren : List String → String × List String → Type 0
HasKnownChildren ids (parent, children) =
    (contains ids parent ≡ true)
    × (distinct children ≡ true)
    × (is_subset children ids ≡ true)
    × (contains children parent ≡ false)

pub record IsValidIndex (c : DimensionCategory) : Type 0 where
  pub non_empty : 0 < length c.index
  pub dense : IsDense c.index
  pub labelled : (k : String) → contains (keys c.label) k ≡ contains (keys c.index) k
  pub named : any is_blank (keys c.index) ≡ false
  pub described : any is_blank (values c.label) ≡ false

dense_lem :
    (index : Dict String ℤ)
    → sorted leb_ℤ (values index) ≡ range 0 (length (values index))
    → IsDense index
dense_lem index h n =
    let size = length-map index (λ x. x.1) in
    sym (count-sorted leb_ℤ (pos n) (values index))
    ∙ ap (count (pos n)) h
    ∙ count-range n 0 (length (values index))
    ∙ ground (arith, size)

no_items-length {ℓ} : {A : Type ℓ} (xs : List A) → no_items xs ≡ false → 0 < length xs
no_items-length [] h = cc
no_items-length (x ∷ xs) h = omega arith

-- the last check of a chain, and those before it
pub clear :
    (m : Result (Unit {0})) (test : Bool)
    → (m >> raise_if test value_error) ≡ ok tt
    → (m ≡ ok tt) × (test ≡ false)
clear m test h =
    let (before, last) = checked-ok m (raise_if test value_error) h in
    (before, raise_if-clear test value_error last)

validate_index_lem : (c : DimensionCategory) → validate_index c ≡ ok tt → IsValidIndex c
unfolding validate_index require_non_empty_keys
validate_index_lem c h =
    let size = length (values c.index) in
    let ordered = list_beq (sorted leb_ℤ (values c.index)) (range 0 size) in
    let (h6, described) = clear _ (any is_blank (values c.label)) h in
    let (h5, is_ordered) = clear _ (not ordered) h6 in
    let (h4, unique) = clear _ (not (distinct (values c.index))) h5 in
    let (h3, same) = clear _ (not (same_set (keys c.index) (keys c.label))) h4 in
    let (h2, label_named) = clear _ (any is_blank (keys c.label)) h3 in
    let (h1, named) = clear _ (any is_blank (keys c.index)) h2 in
    record {
      non_empty = no_items-length c.index (raise_if-clear (no_items c.index) value_error h1);
      dense = dense_lem c.index (
          list_beq-eq (sorted leb_ℤ (values c.index)) (range 0 size)
            (not-false ordered is_ordered));
      labelled = λ k. sym (
          contains-same_set (keys c.index) (keys c.label) k
            (not-false (same_set (keys c.index) (keys c.label)) same));
      named = named;
      described = described;
    }

children_lem :
    (ids : List String) (parent : String) (children : List String)
    → All (λ child. validate_child ids parent child ≡ ok tt) children
    → (is_subset children ids ≡ true) × (contains children parent ≡ false)
unfolding validate_child
children_lem ids parent [] h = (refl, refl)
children_lem ids parent (x ∷ xs) h =
    let (known, other) = clear _ (x == parent) h.0 in
    let is_known =
      not-false (contains ids x) (raise_if-clear (not (contains ids x)) value_error known) in
    let (rest_known, rest_other) = children_lem ids parent xs h.1 in (ground arith, ground arith)

validate_children_lem :
    (ids : List String) (x : String × List String)
    → validate_children ids x ≡ ok tt
    → HasKnownChildren ids x
unfolding validate_children
validate_children_lem ids (parent, children) h =
    let (h2, loop) = checked-ok _ (for_each (validate_child ids parent) children) h in
    let (h1, unique) = clear _ (not (distinct children)) h2 in
    let known = raise_if-clear (not (contains ids parent)) value_error h1 in
    let (all_known, other) =
      children_lem ids parent children (for_each-ok (validate_child ids parent) children loop) in
    (not-false (contains ids parent) known, not-false (distinct children) unique, all_known, other)

known_children :
    (ids : List String) (child : Option (Dict String (List String)))
    → if_some child (for_each (validate_children ids)) ≡ ok tt
    → All (HasKnownChildren ids) (get_or child [])
known_children ids none h = tt
known_children ids (some child) h =
    All-map (λ x. validate_children ids x ≡ ok tt) (HasKnownChildren ids) child
      (validate_children_lem ids) (for_each-ok (validate_children ids) child h)

-- A category that the validator accepts is unchanged and not empty. Each ordinal below its size
-- belongs to exactly one id, and no other ordinal to any; the labels have the ids of the index.
-- Every child list names known ids, none twice, under a known parent that it does not name.
pub validate_category_lem :
    (c d : DimensionCategory)
    → validate_category c ≡ ok d
    → (d ≡ c) × IsValidIndex c × All (HasKnownChildren (keys c.index)) (get_or c.child [])
unfolding validate_category
validate_category_lem c d h =
    let (h5, returned) = checked-ok _ (ok c) h in
    let (h4, note) = checked-ok _ (if_some c.note (require_known_keys (keys c.index))) h5 in
    let (h3, unit) = checked-ok _ (if_some c.unit (require_known_keys (keys c.index))) h4 in
    let (h2, places) =
      checked-ok _ (if_some c.coordinates (require_known_keys (keys c.index))) h3 in
    let (index, child) =
      checked-ok _ (if_some c.child (for_each (validate_children (keys c.index)))) h2 in
    (
      sym (ok-injective returned),
      validate_index_lem c index,
      known_children (keys c.index) c.child child,
    )
