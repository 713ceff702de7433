-- ===== src/Providers/Kolada/Numbered.antt =====
-- providers/adapters/kolada/parsing.py: the numbering of the codes of a dimension.
use nordicintel_harvest.Prelude.{
  ℕ, zero, suc, ◌≤◌, ◌≡◌, refl, sym, ap, ◌∙◌, subst, Bool, true, false, not, String, List, [], ◌∷◌,
  ◌++◌, arith, string_eq, Eq, contains, distinct, all, ==-refl, length, contains-append,
}
use mathlib.Core.List.{append_assoc, append-nil}
use nordicintel_harvest.Prelude.Int.{ℤ, pos, negsuc, int_eq}
use nordicintel_harvest.Prelude.Dict.{Dict, keys, values, insert}
use nordicintel_harvest.Prelude.Text.{text_leb}
use nordicintel_harvest.Prelude.Count.{count}
use nordicintel_harvest.Prelude.Sort.{
  sorted, ascending, count-sorted, contains-count, distinct-count,
}
use nordicintel_harvest.Prelude.Sets.{is_subset, range, count-range}
use nordicintel_harvest.Schemas.Dimensions.{leb_ℤ}
use nordicintel_harvest.Schemas.Datasets.{positions_from}

-- each code with its place
unfoldable pub enumerated : ℕ → List String → Dict String ℤ
enumerated start [] = []
enumerated start (x ∷ xs) = (x, pos start) ∷ enumerated (suc start) xs

insert-new :
    (k : String) (v : ℤ) (d : Dict String ℤ)
    → contains (keys d) k ≡ false
    → insert k v d ≡ d ++ (k, v) ∷ []
unfolding insert
insert-new k v [] h = refl
insert-new k v ((j, w) ∷ d) h = ground (arith, insert-new k v d)

-- no value of the first list is in the second
unfoldable pub apart : List String → List String → Bool
apart xs ys = all (λ x. not (contains ys x)) xs

apart-append :
    (xs ys : List String) (y : String)
    → apart xs ys ≡ true
    → contains xs y ≡ false
    → apart xs (ys ++ y ∷ []) ≡ true
unfolding apart
apart-append [] ys y h k = refl
apart-append (x ∷ xs) ys y h k = ground (
  arith,
  contains-append ys (y ∷ []) x,
  apart-append xs ys y,
  string_eq.beq_iff x y,
  string_eq.beq_iff y x,
)

keys-append : (d e : Dict String ℤ) → keys (d ++ e) ≡ keys d ++ keys e
keys-append [] e = refl
keys-append ((k, v) ∷ d) e = ap (◌∷◌ k) (keys-append d e)

pub positions-enumerated :
    (start : ℕ) (xs : List String) (d : Dict String ℤ)
    → distinct xs ≡ true
    → apart xs (keys d) ≡ true
    → positions_from start xs d ≡ d ++ enumerated start xs
unfolding positions_from enumerated apart
positions-enumerated start [] d h k = sym (append-nil d)
positions-enumerated start (x ∷ xs) d h k =
    let new : contains (keys d) x ≡ false = ground arith in
    let others : apart xs (keys d) ≡ true = ground arith in
    let once : contains xs x ≡ false = ground arith in
    let unique : distinct xs ≡ true = ground arith in
    let entry = (x, pos start) ∷ [] in
    let still =
      subst (λ k. apart xs k ≡ true) (sym (keys-append d entry))
        (apart-append xs (keys d) x others once) in
    ap (positions_from (suc start) xs) (insert-new x (pos start) d new)
    ∙ positions-enumerated (suc start) xs (d ++ entry) unique still
    ∙ append_assoc d entry (enumerated (suc start) xs)

pub keys-enumerated : (start : ℕ) (xs : List String) → keys (enumerated start xs) ≡ xs
unfolding enumerated
keys-enumerated start [] = refl
keys-enumerated start (x ∷ xs) = ap (◌∷◌ x) (keys-enumerated (suc start) xs)

pub values-enumerated :
    (start : ℕ) (xs : List String) → values (enumerated start xs) ≡ range start (length xs)
unfolding enumerated range
values-enumerated start [] = refl
values-enumerated start (x ∷ xs) = ap (◌∷◌ (pos start)) (values-enumerated (suc start) xs)

pub ascending-range : (start size : ℕ) → ascending leb_ℤ (range start size) ≡ true
unfolding range
ascending-range start zero = refl
ascending-range start (suc zero) = refl
ascending-range start (suc (suc size)) = ground (arith, ascending-range (suc start) (suc size))

module _ {ℓ} {A : Type ℓ} ⦃e : Eq A⦄ where
  count-distinct : (xs : List A) → ((a : A) → count a xs ≤ 1) → distinct xs ≡ true
  unfolding count
  count-distinct [] h = refl
  count-distinct (x ∷ xs) h =
      let rest = count-distinct xs (λ a. omega (arith, h a)) in
      let once = h x in
      let present = contains-count (λ a b. true) x xs in let same = ==-refl x in ground arith

  pub is_subset_self :
      (xs ys : List A)
      → ((a : A) → contains xs a ≡ true → contains ys a ≡ true)
      → is_subset xs ys ≡ true
  is_subset_self [] ys h = refl
  is_subset_self (x ∷ xs) ys h =
      let same = ==-refl x in
      let here : contains ys x ≡ true = h x (ground arith) in
      let rest = is_subset_self xs ys (λ a k. h a (ground arith)) in ground arith

pub distinct-sorted : (xs : List String) → distinct xs ≡ true → distinct (sorted text_leb xs) ≡ true
distinct-sorted xs h =
    count-distinct (sorted text_leb xs)
      (λ a. omega (arith, count-sorted text_leb a xs, distinct-count text_leb a xs h))

count-negsuc : (n start size : ℕ) → count (negsuc n) (range start size) ≡ 0
unfolding count range
count-negsuc n start zero = refl
count-negsuc n start (suc size) = ground (arith, count-negsuc n (suc start) size)

at_most_once : (a : ℤ) (start size : ℕ) → count a (range start size) ≤ 1
at_most_once (pos n) start size = ground (arith, count-range n start size)
at_most_once (negsuc n) start size = omega (arith, count-negsuc n start size)

pub distinct-range : (start size : ℕ) → distinct (range start size) ≡ true
distinct-range start size = count-distinct (range start size) (λ a. at_most_once a start size)
