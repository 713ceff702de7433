-- ===== src/Prelude/Count.antt =====
-- Sums of weights over a dict, and how they change when an entry is replaced.
use Prim.Native.Nat.{ℕ, ◌+◌}
use mathlib.Core.Path.{◌≡◌, refl}
use mathlib.Core.Option.{some}
use mathlib.Core.List.{List, [], ◌∷◌, ◌++◌}
use native.Mathlib.Omega.{arith}
use nordicintel_harvest.Prelude.Tests.{if◌then◌else◌}
use nordicintel_harvest.Prelude.Lists.{length}
use nordicintel_harvest.Prelude.Equality.{Eq, ◌==◌}
use nordicintel_harvest.Prelude.Dict.{Dict, lookup}

-- how often a value occurs
unfoldable pub count {ℓ} : {A : Type ℓ} ⦃e : Eq A⦄ → A → List A → ℕ
count a [] = 0
count a (x ∷ xs) = (if x == a then 1 else 0) + count a xs

pub count-append {ℓ} :
    {A : Type ℓ} ⦃e : Eq A⦄ (a : A) (xs ys : List A) → count a (xs ++ ys) ≡ count a xs + count a ys
unfolding count
count-append a [] ys = omega arith
count-append a (x ∷ xs) ys = omega (arith, count-append a xs ys)

module _ {ℓ κ} {K : Type ℓ} {V : Type κ} where
  unfoldable pub weigh : (K → V → ℕ) → Dict K V → ℕ
  weigh f [] = 0
  weigh f ((k, v) ∷ d) = f k v + weigh f d

  pub weigh-append : (f : K → V → ℕ) (d e : Dict K V) → weigh f (d ++ e) ≡ weigh f d + weigh f e
  unfolding weigh
  weigh-append f [] e = omega arith
  weigh-append f ((k, v) ∷ d) e = omega (arith, weigh-append f d e)

module _ {ℓ κ} {K : Type ℓ} {V : Type κ} ⦃q : Eq K⦄ where
  -- the first entry of the key gets the value; an unknown key changes nothing
  unfoldable pub update : K → V → Dict K V → Dict K V
  update k v [] = []
  update k v ((j, w) ∷ d) = if j == k then (j, v) ∷ d else (j, w) ∷ update k v d

  pub weigh-update :
      (f : K → V → ℕ) (k : K) (v old : V) (d : Dict K V)
      → lookup k d ≡ some old
      → weigh f (update k v d) + f k old ≡ weigh f d + f k v
  unfolding weigh update lookup
  weigh-update f k v old [] h = absurd (cc)
  weigh-update f k v old ((j, w) ∷ d) h = ground (arith, q.beq_iff j k, weigh-update f k v old d)

  pub length-update : (k : K) (v : V) (d : Dict K V) → length (update k v d) ≡ length d
  unfolding update
  length-update k v [] = refl
  length-update k v ((j, w) ∷ d) = ground (arith, length-update k v d)
