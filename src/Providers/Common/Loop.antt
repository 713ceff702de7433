-- ===== src/Providers/Common/Loop.antt =====
-- providers/adapters/common.py: what the loop of `structured_extras` keeps of a value.
use nordicintel_harvest.Prelude.{
  true, false, not, ◌≡◌, refl, String, Option, some, List, [], ◌∷◌, arith, string_eq, ◌==◌,
  contains, distinct, if◌then◌else◌, Bool-cases, inl, inr, sym, ap, ap₂, ◌∙◌, then_taken,
  else_taken, ◌⊎◌, subst,
}
use nordicintel_harvest.Core.Errors.{ok, value_error, raise_if-ok, ok-injective}
use nordicintel_harvest.Core.Json.{Value, Fields, end, field, get}
use nordicintel_harvest.Providers.Common.{Texts}
use nordicintel_harvest.Providers.Common.Extras.{
  is_null, put_field, known_fields, is_extra, conflicts, add_extras,
}

pub get-put_field :
    (k j : String) (v : Value) (o : Fields)
    → get j (put_field k v o) ≡ (if k == j then some v else get j o)
unfolding get put_field
get-put_field k j v end = refl
get-put_field k j v (field i w o) = ground (
  arith,
  string_eq.beq_iff k j,
  string_eq.beq_iff i k,
  string_eq.beq_iff i j,
  get-put_field k j v o,
)

-- a field of the contract is kept
pub get-known_fields :
    (fields : List String) (k : String) (v : Value) (o : Fields)
    → contains fields k ≡ true
    → is_null v ≡ false
    → get k o ≡ some v
    → get k (known_fields fields o) ≡ some v
unfolding get known_fields
get-known_fields fields k v end h n g = cc
get-known_fields fields k v (field j w o) h n g =
    ground (arith, string_eq.beq_iff j k, get-known_fields fields k v o)

unfoldable pub field_names : Fields → List String
field_names end = []
field_names (field k v o) = k ∷ field_names o

true-ne-false : true ≡ false → ⊥
true-ne-false h = cc

some-injective : (v w : Value) → some v ≡ some w → v ≡ w
some-injective v w h = cc

-- the first item, where it has the key
get-first :
    (k key : String) (v item : Value) (o : Fields)
    → get k (field key item o) ≡ some v
    → (key == k) ≡ true
    → (key ≡ k) × (item ≡ v)
unfolding get
get-first k key v item o g same = (
  (string_eq.beq_iff key k).0 same,
  some-injective item v (then_taken (key == k) (some item) (get k o) (some v) same g),
)

module _ (texts : Texts) (fields : List String) where
  -- the two ways that an item of the value is taken
  pub add_extras-cases :
      (key : String) (item : Value) (o extension after : Fields)
      → add_extras texts fields (field key item o) extension ≡ ok after
      → ((is_extra fields key item ≡ true)
          × (add_extras texts fields o (put_field key item extension) ≡ ok after))
        ⊎ ((is_extra fields key item ≡ false) × (add_extras texts fields o extension ≡ ok after))
  unfolding add_extras
  add_extras-cases key item o extension after h =
      let extended = add_extras texts fields o (put_field key item extension) in
      let clash = conflicts texts (get key extension) item in
      elim (Bool-cases (is_extra fields key item)) [
        | inl extra ↦
            let taken = then_taken (is_extra fields key item) _ _ (ok after) extra h in
            inl (extra, (raise_if-ok clash value_error extended taken).1)
        | inr known ↦ inr (known, else_taken (is_extra fields key item) _ _ (ok after) known h)
      ]

  -- a key that no item has keeps its value
  pub add_extras-other :
      (o extension after : Fields) (j : String)
      → add_extras texts fields o extension ≡ ok after
      → contains (field_names o) j ≡ false
      → get j after ≡ get j extension
  unfolding add_extras field_names
  add_extras-other end extension after j h n = ap (get j) (sym (ok-injective h))
  add_extras-other (field key item o) extension after j h n =
      elim (add_extras-cases key item o extension after h) [
        | inl (extra, rest) ↦
            let same =
              add_extras-other o (put_field key item extension) after j rest (ground arith) in
            let put = get-put_field key j item extension in ground arith
        | inr (known, rest) ↦ add_extras-other o extension after j rest (ground arith)
      ]

  -- an extra item is in the extension under its key
  pub get-add_extras :
      (o extension after : Fields) (k : String) (v : Value)
      → add_extras texts fields o extension ≡ ok after
      → distinct (field_names o) ≡ true
      → get k o ≡ some v
      → is_extra fields k v ≡ true
      → get k after ≡ some v
  unfolding add_extras field_names get
  get-add_extras end extension after k v h d g x = cc
  get-add_extras (field key item o) extension after k v h d g x =
      elim (add_extras-cases key item o extension after h) [
        | inl (extra, rest) ↦ elim (Bool-cases (key == k)) [
          | inl same ↦
              let (named, valued) = get-first k key v item o g same in
              let kept =
                add_extras-other o (put_field key item extension) after k rest
                  (subst (λ j. contains (field_names o) j ≡ false) named (ground arith)) in
              let put = get-put_field key k item extension in kept ∙ put ∙ ground arith
          | inr apart ↦
              get-add_extras o (put_field key item extension) after k v rest (ground arith)
                (else_taken (key == k) _ _ (some v) apart g) x
        ]
        | inr (known, rest) ↦ elim (Bool-cases (key == k)) [
          | inl same ↦
              let (named, valued) = get-first k key v item o g same in
              let is_one = ap₂ (is_extra fields) named valued in
              absurd (true-ne-false (sym x ∙ sym is_one ∙ known))
          | inr apart ↦
              get-add_extras o extension after k v rest (ground arith)
                (else_taken (key == k) _ _ (some v) apart g) x
        ]
      ]

-- what the extension has at a key that the value's own extension had: the same, or an item of the value
-- that is equal to it
abbrev pub IsOwn : Texts → Fields → Fields → String → Value → Type 0
IsOwn texts value extension k w =
    (get k extension ≡ some w)
    ⊎ ((item : Value) × (get k value ≡ some item)
        × (texts.eq w item ≡ true)
        × (get k extension ≡ some item))

no_conflict :
    (texts : Texts) (o : Option Value) (w item : Value)
    → o ≡ some w
    → conflicts texts o item ≡ false
    → texts.eq w item ≡ true
no_conflict texts o w item e h =
    let apart : not (texts.eq w item) ≡ false = ap (λ x. conflicts texts x item) (sym e) ∙ h in
    ground arith

module _ (texts : Texts) (fields : List String) where
  extra_agrees :
      (key : String) (item : Value) (o extension after : Fields)
      → is_extra fields key item ≡ true
      → add_extras texts fields (field key item o) extension ≡ ok after
      → conflicts texts (get key extension) item ≡ false
  unfolding add_extras
  extra_agrees key item o extension after extra h =
      let extended = add_extras texts fields o (put_field key item extension) in
      let clash = conflicts texts (get key extension) item in
      (raise_if-ok clash value_error extended
        (then_taken (is_extra fields key item) _ _ (ok after) extra h)).0

  later_item :
      (key k : String) (item w : Value) (o after : Fields)
      → (key == k) ≡ false
      → IsOwn texts o after k w
      → IsOwn texts (field key item o) after k w
  unfolding get
  later_item key k item w o after apart (inl same) = inl same
  later_item key k item w o after apart (inr (other, there, equal, kept)) =
      inr (other, ap (λ b. if b then some item else get k o) apart ∙ there, equal, kept)

  -- the loop keeps what the extension had
  pub add_extras_lem :
      (o extension after : Fields) (k : String) (w : Value)
      → add_extras texts fields o extension ≡ ok after
      → distinct (field_names o) ≡ true
      → get k extension ≡ some w
      → IsOwn texts o after k w
  unfolding add_extras field_names get
  add_extras_lem end extension after k w h d g = inl (ap (get k) (sym (ok-injective h)) ∙ g)
  add_extras_lem (field key item o) extension after k w h d g =
      let put = put_field key item extension in
      elim (add_extras-cases texts fields key item o extension after h) [
        | inl (extra, rest) ↦ elim (Bool-cases (key == k)) [
          | inl same ↦
              let named = (string_eq.beq_iff key k).0 same in
              let agrees = extra_agrees key item o extension after extra h in
              let equal =
                no_conflict texts (get key extension) w item (ap (λ j. get j extension) named ∙ g)
                  agrees in
              let kept =
                add_extras-other texts fields o put after k rest
                  (subst (λ j. contains (field_names o) j ≡ false) named (ground arith))
                ∙ get-put_field key k item extension
                ∙ ap (λ b. if b then some item else get k extension) same in
              inr (item, ap (λ b. if b then some item else get k o) same, equal, kept)
          | inr apart ↦ later_item key k item w o after apart (
              add_extras_lem o put after k w rest (ground arith) (
                get-put_field key k item extension
                ∙ ap (λ b. if b then some item else get k extension) apart
                ∙ g))
        ]
        | inr (known, rest) ↦ elim (Bool-cases (key == k)) [
          | inl same ↦
              let named = (string_eq.beq_iff key k).0 same in
              inl (
                add_extras-other texts fields o extension after k rest
                  (subst (λ j. contains (field_names o) j ≡ false) named (ground arith))
                ∙ g)
          | inr apart ↦
              later_item key k item w o after apart
                (add_extras_lem o extension after k w rest (ground arith) g)
        ]
      ]
