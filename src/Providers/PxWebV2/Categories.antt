-- ===== src/Providers/PxWebV2/Categories.antt =====
-- providers/adapters/pxweb_v2/parsing.py: the category and the extension of one dimension. The typed
-- reading of coordinates and units by pydantic is a parameter.
use nordicintel_harvest.Prelude.{
  false, String, Option, none, some, List, [], ◌∷◌, map, string_eq, contains, if◌then◌else◌, get_or,
  is_some,
}
use nordicintel_harvest.Prelude.Int.{ℤ}
use nordicintel_harvest.Prelude.Dict.{Dict, insert}
use nordicintel_harvest.Core.Errors.{
  Result, ok, err, ◌>>=◌, ◌>>◌, raise_if, value_error, attribute_error,
}
use nordicintel_harvest.Core.Json.{Value, bool, str, arr, obj, Fields, end, field, get, items}
use nordicintel_harvest.Core.Values.{Builtins, text_of, int_of}
use nordicintel_harvest.Schemas.Dimensions.{no_items, CategoryUnit, DimensionCategory}
use nordicintel_harvest.Schemas.Datasets.{positions_from}
use nordicintel_harvest.Providers.Common.{Texts}
use nordicintel_harvest.Providers.Common.Extras.{coerce_bool, structured_extras, put_field}

pub record Models : Type 0 where
  pub coordinates : Value → Result (Value × Value)
  pub unit : Fields → Result CategoryUnit

-- `v if isinstance(v, dict) else {}`
abbrev pub fields_of : Option Value → Fields
fields_of (some (obj o)) = o
fields_of _ = end

-- `{str(key): int(value) for key, value in raw_index.items()}`
unfoldable pub ordinals_of : Builtins → Fields → Dict String ℤ → Result (Dict String ℤ)
unfolding int_of insert
ordinals_of py end index = ok index
ordinals_of py (field key value o) index =
    int_of py value >>= λ ordinal. ordinals_of py o (insert key ordinal index)

unfoldable pub keys_of : Fields → List String
keys_of end = []
keys_of (field k v o) = k ∷ keys_of o

unfoldable pub index_map : Builtins → Fields → Result (Dict String ℤ)
unfolding ordinals_of keys_of positions_from text_of get items
index_map py category = elim (get "index" category) [
  | some (obj raw_index) ↦ ordinals_of py raw_index []
  | some (arr l) ↦ ok (positions_from 0 (map (text_of py) (items l)) [])
  | _ ↦ ok (positions_from 0 (keys_of (fields_of (get "label" category))) [])
]

-- `str(raw_labels.get(category_id, category_id))`
abbrev pub label_of : Builtins → Fields → String → String
label_of py raw_labels category_id =
    text_of py (get_or (get category_id raw_labels) (str category_id))

abbrev pub label_map : Builtins → Fields → Dict String ℤ → Dict String String
label_map py category index =
    map (λ x. (x.0, label_of py (fields_of (get "label" category)) x.0)) index

-- a list of texts, as pydantic takes it
unfoldable pub texts_of : List Value → Result (List String)
texts_of [] = ok []
texts_of (str s ∷ vs) = texts_of vs >>= λ ss. ok (s ∷ ss)
texts_of (v ∷ vs) = err value_error

unfoldable pub text_list : Value → Result (List String)
unfolding texts_of items
text_list (arr l) = texts_of (items l)
text_list v = err value_error

-- the typed values of a dict
unfoldable pub each_field {ℓ} : {A : Type ℓ} → (Value → Result A) → Fields → Result (Dict String A)
each_field read end = ok []
each_field read (field k v o) = read v >>= λ a. each_field read o >>= λ d. ok ((k, a) ∷ d)

-- a part of the category that is an object and not empty
unfoldable pub optional_part {ℓ} :
    {A : Type ℓ} → (Value → Result A) → Option Value → Result (Option (Dict String A))
unfolding each_field
optional_part read (some (obj (field k v o))) = each_field read (field k v o) >>= λ d. ok (some d)
optional_part read _ = ok none

abbrev pub unit_fields : List String
unit_fields = "label" ∷ "symbol" ∷ "position" ∷ "decimals" ∷ []

-- `structured_extras(v, ...)`, which calls `v.items()`
unfoldable pub unit_extras : Texts → Value → Result Fields
unfolding structured_extras
unit_extras texts (obj o) = structured_extras texts o unit_fields
unit_extras texts v = err attribute_error

unfoldable pub typed_units : Models → Dict String Fields → Result (Dict String CategoryUnit)
typed_units models [] = ok []
typed_units models ((k, o) ∷ d) =
    models.unit o >>= λ unit. typed_units models d >>= λ units. ok ((k, unit) ∷ units)

unfoldable pub typed_unit_part :
    Models → Option (Dict String Fields) → Result (Option (Dict String CategoryUnit))
unfolding typed_units
typed_unit_part models none = ok none
typed_unit_part models (some d) = typed_units models d >>= λ units. ok (some units)

-- `_build_category`, with the typed reading of what it returns
unfoldable pub build_category : Texts → Models → Fields → Result DimensionCategory
unfolding index_map optional_part text_list unit_extras typed_unit_part get
build_category texts models dim_data =
    let category = fields_of (get "category" dim_data) in
    index_map texts.py category >>= λ index.
    raise_if (no_items index) value_error
    >> optional_part (unit_extras texts) (get "unit" category)
    >>= λ raw_unit. optional_part text_list (get "child" category) >>= λ child.
        optional_part models.coordinates (get "coordinates" category) >>= λ coordinates.
        typed_unit_part models raw_unit >>= λ unit.
        optional_part text_list (get "note" category) >>= λ note. ok (record {
          index = index;
          label = label_map texts.py category index;
          child = child;
          coordinates = coordinates;
          unit = unit;
          note = note;
          extension = end;
        })

abbrev pub dimension_keys : List String
dimension_keys = "label" ∷ "category" ∷ "note" ∷ []

abbrev pub category_keys : List String
category_keys = "index" ∷ "label" ∷ "child" ∷ "coordinates" ∷ "unit" ∷ "note" ∷ []

-- the loop that copies the items whose key is not listed
unfoldable pub copy_unlisted : List String → Fields → Fields → Fields
unfolding put_field
copy_unlisted listed end extras = extras
copy_unlisted listed (field key value o) extras =
    copy_unlisted listed o (if contains listed key then extras else put_field key value extras)

-- `extras.get("elimination", dim_data.get("elimination"))`
abbrev pub raw_elimination : Fields → Fields → Option Value
raw_elimination extras dim_data = elim (get "elimination" extras) [
  | some v ↦ some v
  | none ↦ get "elimination" dim_data
]

abbrev pub with_category_extras : Fields → Fields → Fields
with_category_extras end extras = extras
with_category_extras (field k v o) extras = put_field "category" (obj (field k v o)) extras

unfoldable pub build_dimension_extension : Texts → Fields → Result Fields
unfolding copy_unlisted coerce_bool put_field get
build_dimension_extension texts dim_data =
    let category = fields_of (get "category" dim_data) in
    let extras = fields_of (get "extension" dim_data) in
    let elimination = get_or (coerce_bool texts (raw_elimination extras dim_data)) false in
    let listed = "label" ∷ "category" ∷ "note" ∷ "extension" ∷ "link" ∷ "elimination" ∷ [] in
    raise_if (is_some (get "extension" extras)) value_error
    >> ok (
        with_category_extras (copy_unlisted category_keys category end)
          (copy_unlisted listed dim_data (put_field "elimination" (bool elimination) extras)))
