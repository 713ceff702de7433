-- ===== src/Providers/PxWebV2/Dimensions.antt =====
-- providers/adapters/pxweb_v2/parsing.py: the dimensions of one metadata payload.
use nordicintel_harvest.Prelude.{
  not, ◌||◌, String, Option, none, some, List, [], ◌∷◌, map, string_eq, distinct, any,
  if◌then◌else◌,
}
use nordicintel_harvest.Prelude.Dict.{Dict}
use nordicintel_harvest.Prelude.Text.{strip, is_empty}
use nordicintel_harvest.Prelude.Sets.{same_set, is_subset}
use nordicintel_harvest.Core.Errors.{Result, ok, err, ◌>>=◌, ◌>>◌, raise_if, value_error}
use nordicintel_harvest.Core.Json.{Value, arr, obj, Fields, get, items, truthy}
use nordicintel_harvest.Core.Values.{Builtins, text_of}
use nordicintel_harvest.Schemas.Dimensions.{
  no_items, DatasetDimension, DatasetRole, validate_category, validate_dimension,
}
use nordicintel_harvest.Schemas.Roles.{role_ids}
use nordicintel_harvest.Providers.Common.{Texts}
use nordicintel_harvest.Providers.Common.Extras.{normalize_note}
use nordicintel_harvest.Providers.PxWebV2.Roles.{normalize_role}
use nordicintel_harvest.Providers.PxWebV2.Categories.{
  Models, keys_of, build_category, build_dimension_extension,
}

-- `str(o.get(k) or default)`
unfoldable pub text_or : Builtins → String → String → Fields → String
unfolding text_of get
text_or py key default o = elim (get key o) [
  | none ↦ default
  | some v ↦ if truthy v then text_of py v else default
]

abbrev pub as_fields : Option Value → Option Fields
as_fields (some (obj o)) = some o
as_fields _ = none

-- `DatasetDimension(...)`, with the validators of the category and of the dimension
unfoldable pub build_one : Texts → Models → String → Fields → Result DatasetDimension
unfolding text_or build_category build_dimension_extension validate_category validate_dimension
    normalize_note get
build_one texts models dimension_id dim_data = build_category texts models dim_data >>= λ category.
    build_dimension_extension texts dim_data >>= λ extension.
    validate_category category >>= λ valid. validate_dimension (record {
      label = text_or texts.py "label" dimension_id dim_data;
      category = valid;
      note = normalize_note texts (get "note" dim_data);
      extension = extension;
      link = as_fields (get "link" dim_data);
    })

-- the loop over the ids
unfoldable pub build_each :
    Texts → Models → Fields → List String → Result (Dict String DatasetDimension)
unfolding build_one get
build_each texts models raw_dimensions [] = ok []
build_each texts models raw_dimensions (dimension_id ∷ dimension_ids) =
    let rest = build_each texts models raw_dimensions dimension_ids in
    elim (as_fields (get dimension_id raw_dimensions)) [
      | none ↦ err value_error
      | some dim_data ↦ build_one texts models dimension_id dim_data >>= λ dimension.
          rest >>= λ dimensions. ok ((dimension_id, dimension) ∷ dimensions)
    ]

-- `[str(item).strip() for item in raw_dimension_ids]`
abbrev pub stripped_ids : Builtins → List Value → List String
stripped_ids py = map (λ item. strip (text_of py item))

pub record BuiltDimensions : Type 0 where
  pub id : List String
  pub role : Option DatasetRole
  pub dimension : Dict String DatasetDimension

-- the checks on the ids
unfoldable pub check_ids : Fields → List String → Result (Unit {0})
unfolding keys_of
check_ids raw_dimensions dimension_ids =
    raise_if (no_items dimension_ids || any is_empty dimension_ids) value_error
    >> raise_if (not (distinct dimension_ids)) value_error
    >> raise_if (not (same_set (keys_of raw_dimensions) dimension_ids)) value_error

unfoldable pub build_declared :
    Texts → Models → Fields → List String → Option Value → Result BuiltDimensions
unfolding check_ids normalize_role build_each
build_declared texts models raw_dimensions dimension_ids raw_role =
    check_ids raw_dimensions dimension_ids >> normalize_role texts.py raw_role >>= λ roles.
    raise_if (not (is_subset (role_ids roles) dimension_ids)) value_error
    >> build_each texts models raw_dimensions dimension_ids
    >>= λ dimensions. ok (record { id = dimension_ids; role = roles; dimension = dimensions })

unfoldable pub build_dimensions :
    Texts → Models → Option Value → Option Value → Option Value → Result BuiltDimensions
unfolding build_declared text_of strip items
build_dimensions texts models (some (obj raw_dimensions)) (some (arr raw_dimension_ids)) raw_role =
    build_declared texts models raw_dimensions (stripped_ids texts.py (items raw_dimension_ids))
      raw_role
build_dimensions texts models raw_dimensions raw_dimension_ids raw_role = err value_error
