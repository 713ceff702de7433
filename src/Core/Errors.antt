-- ===== src/Core/Errors.antt =====
-- core/errors.py, and the built-in exceptions that the program raises or handles. A call that may
-- raise returns a `Result`; the texts of the messages are not modelled.
use nordicintel_harvest.Prelude.{
  ℕ, Bool, true, false, ◌≡◌, refl, ◌⊎◌, inl, inr, Option, none, some, List, [], ◌∷◌, All,
}

pub data Error : Type 0 where
  value_error type_error key_error runtime_error attribute_error assertion_error : Error
  external_api_error : Error
  client_error timeout_error : Error
  catalog_error : ℕ → Error
  other_error : Error

pub data Result {ℓ} (A : Type ℓ) : Type ℓ where
  err : Error → Result A
  ok : A → Result A

infixl 5 ◌>>=◌ ◌>>◌
-- what follows a call that may raise
abbrev pub ◌>>=◌ {ℓ κ} : {A : Type ℓ} {C : Type κ} → Result A → (A → Result C) → Result C
err raised >>= next = err raised
ok value >>= next = next value

-- the same after a call that returns nothing
abbrev pub ◌>>◌ {κ} : {C : Type κ} → Result (Unit {0}) → Result C → Result C
check >> next = check >>= λ done. next

-- `if test: raise e`
abbrev pub raise_if : Bool → Error → Result (Unit {0})
raise_if true e = err e
raise_if false e = ok tt

pub >>=-eq-ok {ℓ κ} :
    {A : Type ℓ} {C : Type κ} (call : Result A) (next : A → Result C) {c : C}
    → (call >>= next) ≡ ok c
    → (value : A) × (call ≡ ok value) × (next value ≡ ok c)
>>=-eq-ok (err raised) next returns = cc
>>=-eq-ok (ok value) next returns = (value, refl, returns)

pub ok-injective {ℓ} : {A : Type ℓ} {a b : A} → ok a ≡ ok b → a ≡ b
ok-injective h = cc

pub Result-cases {ℓ} :
    {A : Type ℓ} (r : Result A) → ((a : A) × (r ≡ ok a)) ⊎ ((e : Error) × (r ≡ err e))
Result-cases (ok a) = inl (a, refl)
Result-cases (err e) = inr (e, refl)

-- `for x in xs: f(x)`, for a body that only raises
abbrev pub for_each {ℓ} : {A : Type ℓ} → (A → Result (Unit {0})) → List A → Result (Unit {0})
for_each f [] = ok tt
for_each f (x ∷ xs) = f x >> for_each f xs

-- `if x is not None: f(x)`
abbrev pub if_some {ℓ} : {A : Type ℓ} → Option A → (A → Result (Unit {0})) → Result (Unit {0})
if_some none f = ok tt
if_some (some a) f = f a

pub raise_if-ok {ℓ} :
    {B : Type ℓ} (test : Bool) (e : Error) (m : Result B) {b : B}
    → (raise_if test e >> m) ≡ ok b
    → (test ≡ false) × (m ≡ ok b)
raise_if-ok true e m h = cc
raise_if-ok false e m h = (refl, h)

pub checked-ok {ℓ} :
    {B : Type ℓ} (c : Result (Unit {0})) (m : Result B) {b : B}
    → (c >> m) ≡ ok b
    → (c ≡ ok tt) × (m ≡ ok b)
checked-ok (ok tt) m h = (refl, h)
checked-ok (err e) m h = cc

pub for_each-ok {ℓ} :
    {A : Type ℓ} (f : A → Result (Unit {0})) (xs : List A)
    → for_each f xs ≡ ok tt
    → All (λ x. f x ≡ ok tt) xs
for_each-ok f [] h = tt
for_each-ok f (x ∷ xs) h =
    let (first, rest) = checked-ok (f x) (for_each f xs) h in (first, for_each-ok f xs rest)

pub raise_if-clear : (test : Bool) (e : Error) → raise_if test e ≡ ok tt → test ≡ false
raise_if-clear true e h = cc
raise_if-clear false e h = refl
