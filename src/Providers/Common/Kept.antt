-- ===== src/Providers/Common/Kept.antt =====
-- providers/adapters/common.py: what `structured_extras` keeps of a value.
use nordicintel_harvest.Prelude.{
  true, false, ◌≡◌, String, some, List, arith, string_eq, ◌==◌, contains, distinct, Bool-cases, inl,
  inr, sym, ap, ◌∙◌, ◌⊎◌, subst,
}
use nordicintel_harvest.Core.Errors.{ok, ◌>>=◌, >>=-eq-ok, ok-injective}
use nordicintel_harvest.Core.Json.{Value, obj, Fields, end, field, get}
use nordicintel_harvest.Providers.Common.{Texts}
use nordicintel_harvest.Providers.Common.Extras.{
  is_null, known_fields, is_extra, add_extras, extension_fields, with_extension, structured_extras,
}
use nordicintel_harvest.Providers.Common.Loop.{
  get-put_field, get-known_fields, field_names, IsOwn, get-add_extras, add_extras_lem,
}

extra_lem :
    (fields : List String) (k : String) (v : Value)
    → contains fields k ≡ false
    → is_null v ≡ false
    → ("extension" == k) ≡ false
    → is_extra fields k v ≡ true
extra_lem fields k v h n x =
    ground (arith, string_eq.beq_iff "extension" k, string_eq.beq_iff k "extension")

with_extension-known :
    (result extension : Fields) (k : String) (v : Value)
    → get k result ≡ some v
    → ("extension" == k) ≡ false
    → get k (with_extension result extension) ≡ some v
unfolding with_extension
with_extension-known result end k v h n = h
with_extension-known result (field j w o) k v h n =
    ground (arith, get-put_field "extension" k (obj (field j w o)) result)

with_extension-extension :
    (result extension : Fields) (k : String) (v : Value)
    → get k extension ≡ some v
    → get "extension" (with_extension result extension) ≡ some (obj extension)
unfolding with_extension get
with_extension-extension result end k v h = cc
with_extension-extension result (field j w o) k v h =
    get-put_field "extension" "extension" (obj (field j w o)) result

-- What is kept of a value. A field that is not null, other than "extension", is in the result if the
-- contract knows it, or else in the extension of the result. What the value's own extension has at a
-- key is in the extension of the result too, or there is an item of the value equal to it.
pub record IsKept (texts : Texts) (value : Fields) (fields : List String) (result : Fields)
    : Type 0 where
  pub items_kept :
      (k : String) (v : Value)
      → get k value ≡ some v
      → is_null v ≡ false
      → ("extension" == k) ≡ false
      → ((contains fields k ≡ true) × (get k result ≡ some v))
        ⊎ ((contains fields k ≡ false)
            × ((e : Fields) × (get "extension" result ≡ some (obj e)) × (get k e ≡ some v)))
  pub own_kept :
      (own : Fields) (k : String) (w : Value)
      → get "extension" value ≡ some (obj own)
      → get k own ≡ some w
      → (e : Fields) × (get "extension" result ≡ some (obj e)) × IsOwn texts value e k w

own_lem :
    (texts : Texts) (value : Fields) (fields : List String) (result : Fields)
    → structured_extras texts value fields ≡ ok result
    → distinct (field_names value) ≡ true
    → (own : Fields) (k : String) (w : Value) → get "extension" value ≡ some (obj own)
    → get k own ≡ some w
    → (e : Fields) × (get "extension" result ≡ some (obj e)) × IsOwn texts value e k w
unfolding structured_extras extension_fields
own_lem texts value fields result h d own k w there g =
    let (extension, made, returned) =
      >>=-eq-ok (extension_fields texts (get "extension" value) >>= add_extras texts fields value) _
        h in
    let (before, read, added) =
      >>=-eq-ok (extension_fields texts (get "extension" value)) (add_extras texts fields value)
        made in
    let is_own : own ≡ before = ok-injective (sym (ap (extension_fields texts) there) ∙ read) in
    let kept =
      add_extras_lem texts fields value before extension k w added d
        (subst (λ o. get k o ≡ some w) is_own g) in
    let known = known_fields fields value in
    let placed : (x : Value)
        → get k extension ≡ some x
        → get "extension" result ≡ some (obj extension) =
      λ x e.
        subst (λ r. get "extension" r ≡ some (obj extension)) (ok-injective returned)
          (with_extension-extension known extension k x e) in
    elim kept [
      | inl same ↦ (extension, placed w same, inl same)
      | inr (item, of, equal, same) ↦ (extension, placed item same, inr (item, of, equal, same))
    ]

items_lem :
    (texts : Texts) (value : Fields) (fields : List String) (result : Fields)
    → structured_extras texts value fields ≡ ok result
    → distinct (field_names value) ≡ true
    → (k : String) (v : Value) → get k value ≡ some v
    → is_null v ≡ false
    → ("extension" == k) ≡ false
    → ((contains fields k ≡ true) × (get k result ≡ some v))
      ⊎ ((contains fields k ≡ false)
          × ((e : Fields) × (get "extension" result ≡ some (obj e)) × (get k e ≡ some v)))
unfolding structured_extras
items_lem texts value fields result h d k v g n x =
    let (extension, made, returned) =
      >>=-eq-ok (extension_fields texts (get "extension" value) >>= add_extras texts fields value) _
        h in
    let (before, _, added) =
      >>=-eq-ok (extension_fields texts (get "extension" value)) (add_extras texts fields value)
        made in
    let same = ok-injective returned in
    let known = known_fields fields value in
    elim (Bool-cases (contains fields k)) [
      | inl listed ↦ inl (
        listed,
        subst (λ r. get k r ≡ some v) same
            (with_extension-known known extension k v (get-known_fields fields k v value listed n g)
              x),
      )
      | inr other ↦
          let there =
            get-add_extras texts fields value before extension k v added d g
              (extra_lem fields k v other n x) in
          inr (
            other,
            (
              extension,
              subst (λ r. get "extension" r ≡ some (obj extension)) same
                  (with_extension-extension known extension k v there),
              there,
            ),
          )
    ]

-- Where `structured_extras` returns for a value that has no key twice, it has lost nothing of it. A
-- field that is not null stands in the result, if the contract knows it, or in the extension of the
-- result. Each entry of the value's own extension, if that is an object, is in this extension too,
-- or in its place a field of the value that is equal to it.
pub structured_extras_lem :
    (texts : Texts) (value : Fields) (fields : List String) (result : Fields)
    → structured_extras texts value fields ≡ ok result
    → distinct (field_names value) ≡ true
    → IsKept texts value fields result
structured_extras_lem texts value fields result h d = record {
  items_kept = items_lem texts value fields result h d;
  own_kept = own_lem texts value fields result h d;
}
