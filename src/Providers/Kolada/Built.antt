-- ===== src/Providers/Kolada/Built.antt =====
-- providers/adapters/kolada/parsing.py: a dimension that is built passes the validators of
-- schemas/dimensions.py.
use nordicintel_harvest.Prelude.{
  ℕ, zero, suc, ◌≡◌, refl, sym, ap, ap₂, ◌∙◌, Bool, true, false, not, ◌&&◌, String, none, List, [],
  ◌∷◌, map, arith, string_eq, distinct, any, all, length,
}
use nordicintel_harvest.Prelude.Int.{int_eq}
use nordicintel_harvest.Prelude.Dict.{Dict, keys, values}
use nordicintel_harvest.Prelude.Text.{text_leb, strip}
use nordicintel_harvest.Prelude.Sort.{sorted, place, sorted-ascending, all-sorted}
use nordicintel_harvest.Prelude.Sets.{list_beq, list_beq_refl, same_set, range}
use nordicintel_harvest.Core.Errors.{Result, ok, ◌>>=◌, ◌>>◌, raise_if, value_error}
use nordicintel_harvest.Core.Json.{end, field, bool}
use nordicintel_harvest.Schemas.Dimensions.{
  no_items, leb_ℤ, is_blank, require_non_empty_keys, DatasetDimension, validate_index,
  validate_category, validate_dimension,
}
use nordicintel_harvest.Schemas.Datasets.{positions_from}
use nordicintel_harvest.Providers.Kolada.Dimensions.{
  category_of, build_dimension, title_in, build_municipality_dimension,
}
use nordicintel_harvest.Providers.Kolada.Numbered.{
  enumerated, apart, positions-enumerated, keys-enumerated, values-enumerated, ascending-range,
  distinct-sorted, distinct-range, is_subset_self,
}

passes :
    (m : Result (Unit {0})) (test : Bool)
    → m ≡ ok tt
    → test ≡ false
    → (m >> raise_if test value_error) ≡ ok tt
passes m test h k = rw (h, k) refl

no_items-enumerated : (xs : List String) → no_items (enumerated 0 xs) ≡ no_items xs
unfolding enumerated
no_items-enumerated [] = refl
no_items-enumerated (x ∷ xs) = refl

apart-nil : (xs : List String) → apart xs [] ≡ true
unfolding apart
apart-nil [] = refl
apart-nil (x ∷ xs) = apart-nil xs

length-range : (start size : ℕ) → length (range start size) ≡ size
unfolding range
length-range start zero = refl
length-range start (suc size) = ap suc (length-range (suc start) size)

module _ (label : String → String) where
  keys-labels : (xs : List String) → keys (map (λ x. (x, label x)) xs) ≡ xs
  keys-labels [] = refl
  keys-labels (x ∷ xs) = ap (◌∷◌ x) (keys-labels xs)

  values-labels : (xs : List String) → values (map (λ x. (x, label x)) xs) ≡ map label xs
  values-labels [] = refl
  values-labels (x ∷ xs) = ap (◌∷◌ (label x)) (values-labels xs)

same_set_self : (xs : List String) → same_set xs xs ≡ true
same_set_self xs = let within = is_subset_self xs xs (λ a h. h) in ap₂ (λ a b. a && b) within within

dense-range :
    (size : ℕ) → list_beq (sorted leb_ℤ (range 0 size)) (range 0 (length (range 0 size))) ≡ true
dense-range size =
    ap₂ (λ a b. list_beq a (range 0 b))
      (sorted-ascending leb_ℤ (range 0 size) (ascending-range 0 size)) (length-range 0 size)
    ∙ list_beq_refl (range 0 size)

category_of-valid :
    (codes : List String) (label : String → String)
    → no_items codes ≡ false
    → any is_blank codes ≡ false
    → distinct codes ≡ true
    → any is_blank (map label codes) ≡ false
    → validate_category (category_of codes label) ≡ ok (category_of codes label)
unfolding validate_category validate_index require_non_empty_keys
category_of-valid codes label filled named unique described =
    let index = positions_from 0 codes [] in
    let labels : Dict String String = map (λ x. (x, label x)) codes in
    let places : index ≡ enumerated 0 codes =
      positions-enumerated 0 codes [] unique (apart-nil codes) in
    let ids = ap keys places ∙ keys-enumerated 0 codes in
    let ordinals = ap values places ∙ values-enumerated 0 codes in
    let size = length codes in
    ap (λ m. m >> ok tt >> ok tt >> ok tt >> ok tt >> ok (category_of codes label))
      (passes _ (any is_blank (values labels))
        (passes _ (not (list_beq (sorted leb_ℤ (values index)) (range 0 (length (values index)))))
          (passes _ (not (distinct (values index)))
            (passes _ (not (same_set (keys index) (keys labels)))
              (passes _ (any is_blank (keys labels))
                (passes _ (any is_blank (keys index))
                  (ap (λ b. raise_if b value_error)
                    (ap no_items places ∙ no_items-enumerated codes ∙ filled))
                  (ap (any is_blank) ids ∙ named))
                (ap (any is_blank) (keys-labels label codes) ∙ named))
              (ap₂ (λ a b. not (same_set a b)) ids (keys-labels label codes)
                ∙ ap not (same_set_self codes)))
            (ap (λ v. not (distinct v)) ordinals ∙ ap not (distinct-range 0 size)))
          (ap (λ v. not (list_beq (sorted leb_ℤ v) (range 0 (length v)))) ordinals
            ∙ ap not (dense-range size)))
        (ap (any is_blank) (values-labels label codes) ∙ described))

any-map :
    (p : String → Bool) (f : String → String) (xs : List String)
    → any p (map f xs) ≡ not (all (λ x. not (p (f x))) xs)
any-map p f [] = refl
any-map p f (x ∷ xs) = ground (arith, any-map p f xs)

any-all : (p : String → Bool) (xs : List String) → any p xs ≡ not (all (λ x. not (p x)) xs)
any-all p [] = refl
any-all p (x ∷ xs) = ground (arith, any-all p xs)

any-sorted : (p : String → Bool) (xs : List String) → any p (sorted text_leb xs) ≡ any p xs
any-sorted p xs =
    any-all p (sorted text_leb xs)
    ∙ ap not (all-sorted text_leb (λ x. not (p x)) xs)
    ∙ sym (any-all p xs)

any-map-sorted :
    (p : String → Bool) (f : String → String) (xs : List String)
    → any p (map f (sorted text_leb xs)) ≡ any p (map f xs)
any-map-sorted p f xs =
    any-map p f (sorted text_leb xs)
    ∙ ap not (all-sorted text_leb (λ x. not (p (f x))) xs)
    ∙ sym (any-map p f xs)

no_items-place : (x : String) (xs : List String) → no_items (place text_leb x xs) ≡ false
unfolding place
no_items-place x [] = refl
no_items-place x (y ∷ ys) = ground arith

no_items-sorted : (xs : List String) → no_items xs ≡ false → no_items (sorted text_leb xs) ≡ false
unfolding sorted
no_items-sorted [] h = cc
no_items-sorted (x ∷ xs) h = no_items-place x (sorted text_leb xs)

-- A set of areas that is not empty, of ids that are not blank and have titles that are not blank,
-- always gives a dimension that the validators accept: its codes are the ids in the order of their
-- texts, numbered from 0, and its labels the titles, or the ids that have none.
pub build_municipality_dimension_lem :
    (ids : List String) (titles : Dict String String)
    → no_items ids ≡ false
    → any is_blank ids ≡ false
    → distinct ids ≡ true
    → any is_blank (map (title_in titles) ids) ≡ false
    → (d : DatasetDimension) × (build_municipality_dimension ids titles ≡ ok d)
      × (keys d.category.index ≡ sorted text_leb ids)
      × (values d.category.index ≡ range 0 (length (sorted text_leb ids)))
      × (values d.category.label ≡ map (title_in titles) (sorted text_leb ids))
unfolding build_municipality_dimension build_dimension validate_dimension strip
build_municipality_dimension_lem ids titles filled named unique described =
    let codes = sorted text_leb ids in
    let label = title_in titles in
    let alone = distinct-sorted ids unique in
    let places : positions_from 0 codes [] ≡ enumerated 0 codes =
      positions-enumerated 0 codes [] alone (apart-nil codes) in
    let valid =
      category_of-valid codes label (no_items-sorted ids filled) (any-sorted is_blank ids ∙ named)
        alone (any-map-sorted is_blank label ids ∙ described) in
    (
      _,
      ap
          (λ c. c >>= λ category. validate_dimension (record {
            label = "Kommun";
            category = category;
            note = none;
            extension = field "elimination" (bool false) end;
            link = none;
          }))
          valid,
      ap keys places ∙ keys-enumerated 0 codes,
      ap values places ∙ values-enumerated 0 codes,
      values-labels label codes,
    )
