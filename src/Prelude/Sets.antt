-- ===== src/Prelude/Sets.antt =====
-- Python's comparison of lists and of sets, and `range`.
use Prim.Native.Nat.{ℕ, zero, suc, ◌+◌}
use mathlib.Core.Path.{◌≡◌, refl, subst}
use mathlib.Core.Logic.{◌↔◌}
use mathlib.Core.Bool.{Bool, true, false, ◌&&◌}
use mathlib.Core.List.{List, [], ◌∷◌}
use native.Mathlib.Omega.{arith}
use nordicintel_harvest.Prelude.Tests.{ltb, leb, if◌then◌else◌}
use nordicintel_harvest.Prelude.Lists.{all}
use nordicintel_harvest.Prelude.Equality.{Eq, contains, ◌==◌}
use nordicintel_harvest.Prelude.Int.{ℤ, pos, int_eq}
use nordicintel_harvest.Prelude.Count.{count}

module _ {ℓ} {A : Type ℓ} ⦃e : Eq A⦄ where
  -- `xs == ys`
  abbrev pub list_beq : List A → List A → Bool
  list_beq [] [] = true
  list_beq [] (y ∷ ys) = false
  list_beq (x ∷ xs) [] = false
  list_beq (x ∷ xs) (y ∷ ys) = x == y && list_beq xs ys

  pub list_beq-eq : (xs ys : List A) → list_beq xs ys ≡ true → xs ≡ ys
  list_beq-eq [] [] h = refl
  list_beq-eq [] (y ∷ ys) h = cc
  list_beq-eq (x ∷ xs) [] h = cc
  list_beq-eq (x ∷ xs) (y ∷ ys) h = ground (arith, e.beq_iff x y, list_beq-eq xs ys)

  pub list_beq_refl : (xs : List A) → list_beq xs xs ≡ true
  list_beq_refl [] = refl
  list_beq_refl (x ∷ xs) = ground (arith, e.beq_iff x x, list_beq_refl xs)

  pub list_beq_iff : (xs ys : List A) → (list_beq xs ys ≡ true) ↔ (xs ≡ ys)
  list_beq_iff xs ys =
      (list_beq-eq xs ys, λ same. subst (λ zs. list_beq xs zs ≡ true) same (list_beq_refl xs))

  instance abbrev pub list_eq : Eq (List A)
  list_eq = record { beq = list_beq; beq_iff = list_beq_iff }

  -- `set(xs) <= set(ys)` and `set(xs) == set(ys)`
  abbrev pub is_subset : List A → List A → Bool
  is_subset xs ys = all (contains ys) xs

  abbrev pub same_set : List A → List A → Bool
  same_set xs ys = is_subset xs ys && is_subset ys xs

  pub contains-is_subset :
      (xs ys : List A) (a : A)
      → is_subset xs ys ≡ true
      → contains xs a ≡ true
      → contains ys a ≡ true
  contains-is_subset [] ys a h k = cc
  contains-is_subset (x ∷ xs) ys a h k = ground (arith, e.beq_iff x a, contains-is_subset xs ys a)

  pub contains-same_set :
      (xs ys : List A) (a : A) → same_set xs ys ≡ true → contains xs a ≡ contains ys a
  contains-same_set xs ys a h =
      ground (arith, contains-is_subset xs ys a, contains-is_subset ys xs a)

module _ {ℓ κ} {A : Type ℓ} {C : Type κ} ⦃e : Eq A⦄ ⦃f : Eq C⦄ where
  abbrev pub pair_beq : A × C → A × C → Bool
  pair_beq (a, c) (b, d) = a == b && c == d

  pub pair_beq_iff : (p q : A × C) → (pair_beq p q ≡ true) ↔ (p ≡ q)
  pair_beq_iff (a, c) (b, d) = ground (arith, e.beq_iff a b, f.beq_iff c d)

  instance abbrev pub pair_eq : Eq (A × C)
  pair_eq = record { beq = pair_beq; beq_iff = pair_beq_iff }

-- `range(start, start + size)`
unfoldable pub range : ℕ → ℕ → List ℤ
range start zero = []
range start (suc size) = pos start ∷ range (suc start) size

pub count-range :
    (n start size : ℕ)
    → count (pos n) (range start size) ≡ (if leb start n && ltb n (start + size) then 1 else 0)
unfolding count range
count-range n start zero = ground arith
count-range n start (suc size) = ground (arith, count-range n (suc start) size)
