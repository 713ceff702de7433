-- ===== src/Providers/Common/Extras.antt =====
-- providers/adapters/common.py: notes, truth values, and the fields that a contract does not know.
use nordicintel_harvest.Prelude.{
  Bool, true, false, not, ◌&&◌, String, Option, none, some, List, [], ◌∷◌, string_eq, ◌==◌,
  contains, if◌then◌else◌,
}
use nordicintel_harvest.Prelude.Text.{strip, is_empty}
use nordicintel_harvest.Core.Errors.{Result, ok, ◌>>=◌, ◌>>◌, raise_if, value_error}
use nordicintel_harvest.Core.Json.{
  Value, null, bool, num, str, arr, obj, Fields, end, field, get, items, truthy,
}
use nordicintel_harvest.Core.Values.{text_of}
use nordicintel_harvest.Providers.Common.{Texts}

-- `[str(item).strip() for item in value if str(item).strip()]`
unfoldable pub stripped_items : Texts → List Value → List String
unfolding text_of strip
stripped_items texts [] = []
stripped_items texts (v ∷ vs) =
    let rest = stripped_items texts vs in
    if is_empty (strip (text_of texts.py v)) then rest else strip (text_of texts.py v) ∷ rest

-- `notes or None`
abbrev pub or_none {ℓ} : {A : Type ℓ} → List A → Option (List A)
or_none [] = none
or_none (x ∷ xs) = some (x ∷ xs)

unfoldable pub normalize_note : Texts → Option Value → Option (List String)
unfolding stripped_items strip items
normalize_note texts (some (str s)) = if is_empty (strip s) then none else some (strip s ∷ [])
normalize_note texts (some (arr l)) = or_none (stripped_items texts (items l))
normalize_note texts _ = none

unfoldable pub coerce_bool : Texts → Option Value → Option Bool
unfolding strip
coerce_bool texts (some (bool b)) = some b
coerce_bool texts (some (num n)) = some (truthy (num n))
coerce_bool texts (some (str s)) =
    let normalized = texts.lower (strip s) in
    if contains ("true" ∷ "1" ∷ "yes" ∷ "y" ∷ []) normalized
    then some true
    else if contains ("false" ∷ "0" ∷ "no" ∷ "n" ∷ []) normalized
    then some false
    else none
coerce_bool texts _ = none

abbrev pub is_null : Value → Bool
is_null null = true
is_null _ = false

-- `d[key] = value`
unfoldable pub put_field : String → Value → Fields → Fields
put_field k v end = field k v end
put_field k v (field j w o) = if j == k then field j v o else field j w (put_field k v o)

-- `{k: v for k, v in value.items() if k in fields and v is not None}`
unfoldable pub known_fields : List String → Fields → Fields
known_fields fields end = end
known_fields fields (field k v o) =
    let rest = known_fields fields o in
    if contains fields k && not (is_null v) then field k v rest else rest

-- the test of the loop
abbrev pub is_extra : List String → String → Value → Bool
is_extra fields key item =
    not (contains fields key) && not (key == "extension") && not (is_null item)

-- `key in extension and extension[key] != item`
abbrev pub conflicts : Texts → Option Value → Value → Bool
conflicts texts none item = false
conflicts texts (some old) item = not (texts.eq old item)

-- the loop over the items of the value
unfoldable pub add_extras : Texts → List String → Fields → Fields → Result Fields
unfolding put_field get
add_extras texts fields end extension = ok extension
add_extras texts fields (field key item o) extension =
    let unchanged = add_extras texts fields o extension in
    let extended = add_extras texts fields o (put_field key item extension) in
    if is_extra fields key item
    then raise_if (conflicts texts (get key extension) item) value_error >> extended
    else unchanged

-- `dict(value.get("extension") or {})`
unfoldable pub extension_fields : Texts → Option Value → Result Fields
extension_fields texts none = ok end
extension_fields texts (some (obj o)) = ok o
extension_fields texts (some v) = if truthy v then texts.dict_of v else ok end

-- `if extension: result["extension"] = extension`
unfoldable pub with_extension : Fields → Fields → Fields
unfolding put_field
with_extension result end = result
with_extension result (field k v o) = put_field "extension" (obj (field k v o)) result

unfoldable pub structured_extras : Texts → Fields → List String → Result Fields
unfolding extension_fields add_extras known_fields with_extension get
structured_extras texts value fields =
    extension_fields texts (get "extension" value)
    >>= add_extras texts fields value
    >>= λ extension. ok (with_extension (known_fields fields value) extension)
