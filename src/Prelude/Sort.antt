-- ===== src/Prelude/Sort.antt =====
-- Python's `sorted`: stable, by a test `le` on the values.
use Prim.Native.Nat.{◌≤◌, ◌<◌}
use mathlib.Core.Path.{◌≡◌, refl, ◌∙◌, ap}
use mathlib.Core.Bool.{Bool, true, ◌&&◌}
use mathlib.Core.List.{List, [], ◌∷◌}
use native.Mathlib.Omega.{arith}
use nordicintel_harvest.Prelude.Tests.{if◌then◌else◌}
use nordicintel_harvest.Prelude.Lists.{all}
use nordicintel_harvest.Prelude.Equality.{Eq, contains, distinct}
use nordicintel_harvest.Prelude.Count.{count}

and_left : (a b : Bool) → (a && b) ≡ true → a ≡ true
and_left a b h = ground arith

and_right : (a b : Bool) → (a && b) ≡ true → b ≡ true
and_right a b h = ground arith

module _ {ℓ} {A : Type ℓ} (le : A → A → Bool) where
  unfoldable pub place : A → List A → List A
  place a [] = a ∷ []
  place a (x ∷ xs) = if le a x then a ∷ x ∷ xs else x ∷ place a xs

  unfoldable pub sorted : List A → List A
  unfolding place
  sorted [] = []
  sorted (x ∷ xs) = place x (sorted xs)

  -- each value is at most the next
  abbrev pub ascending : List A → Bool
  ascending [] = true
  ascending (x ∷ []) = true
  ascending (x ∷ y ∷ ys) = le x y && ascending (y ∷ ys)

module _ {ℓ} {A : Type ℓ} (le : A → A → Bool) where
  all-place : (p : A → Bool) (a : A) (xs : List A) → all p (place le a xs) ≡ (p a && all p xs)
  unfolding place
  all-place p a [] = refl
  all-place p a (x ∷ xs) = ground (arith, all-place p a xs)

  pub all-sorted : (p : A → Bool) (xs : List A) → all p (sorted le xs) ≡ all p xs
  unfolding sorted
  all-sorted p [] = refl
  all-sorted p (x ∷ xs) = all-place p x (sorted le xs) ∙ ap (λ b. p x && b) (all-sorted p xs)

  place-head : (x y : A) (ys : List A) → le x y ≡ true → place le x (y ∷ ys) ≡ x ∷ y ∷ ys
  unfolding place
  place-head x y ys h = rw h

  pub sorted-ascending : (xs : List A) → ascending le xs ≡ true → sorted le xs ≡ xs
  unfolding sorted place
  sorted-ascending [] h = refl
  sorted-ascending (x ∷ []) h = refl
  sorted-ascending (x ∷ y ∷ ys) h =
      rw (sorted-ascending (y ∷ ys) (and_right (le x y) (ascending le (y ∷ ys)) h))
        (place-head x y ys (and_left (le x y) (ascending le (y ∷ ys)) h))

module _ {ℓ} {A : Type ℓ} ⦃e : Eq A⦄ (le : A → A → Bool) where
  count-place : (a b : A) (xs : List A) → count b (place le a xs) ≡ count b (a ∷ xs)
  unfolding place count
  count-place a b [] = refl
  count-place a b (x ∷ xs) = ground (arith, count-place a b xs)

  pub count-sorted : (b : A) (xs : List A) → count b (sorted le xs) ≡ count b xs
  unfolding sorted count
  count-sorted b [] = refl
  count-sorted b (x ∷ xs) = omega (arith, count-place x b (sorted le xs), count-sorted b xs)

  pub contains-count : (a : A) (xs : List A) → contains xs a ≡ true → 0 < count a xs
  unfolding count
  contains-count a [] h = cc
  contains-count a (x ∷ xs) h = ground (arith, contains-count a xs)

  pub count-contains : (a : A) (xs : List A) → 0 < count a xs → contains xs a ≡ true
  unfolding count
  count-contains a [] h = elim h [ ]
  count-contains a (x ∷ xs) h = ground (arith, count-contains a xs)

  pub distinct-count : (a : A) (xs : List A) → distinct xs ≡ true → count a xs ≤ 1
  unfolding count
  distinct-count a [] h = omega arith
  distinct-count a (x ∷ xs) h =
      ground (arith, e.beq_iff x a, distinct-count a xs, contains-count a xs, count-contains a xs)
