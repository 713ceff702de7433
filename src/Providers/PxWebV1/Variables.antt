-- ===== src/Providers/PxWebV1/Variables.antt =====
-- providers/adapters/pxweb_v1/adapter.py: the dimensions that the variables of a metadata payload give.
use nordicintel_harvest.Prelude.{
  ℕ, suc, Bool, false, String, Option, none, some, List, [], ◌∷◌, ◌++◌, string_eq, contains,
  if◌then◌else◌, get_or,
}
use nordicintel_harvest.Prelude.Int.{pos}
use nordicintel_harvest.Prelude.Dict.{Dict, keys, insert}
use nordicintel_harvest.Prelude.Text.{strip, is_empty}
use nordicintel_harvest.Core.Errors.{Result, ok, err, ◌>>=◌, ◌>>◌, raise_if, value_error}
use nordicintel_harvest.Core.Json.{Value, null, bool, num, str, arr, obj, Fields, end, get, items}
use nordicintel_harvest.Core.Values.{Builtins, text_of, stripped}
use nordicintel_harvest.Schemas.Dimensions.{
  no_items, DatasetDimension, DatasetRole, validate_category, validate_dimension,
}
use nordicintel_harvest.Schemas.Datasets.{positions_from}
use nordicintel_harvest.Providers.Common.{Texts, Role, time, geo, metric, detect_role}
use nordicintel_harvest.Providers.Common.Extras.{coerce_bool, put_field}
use nordicintel_harvest.Providers.PxWebV2.Paths.{without_keys}

-- what the loop over the variables has collected; a role without ids has no bucket
pub record Variables : Type 0 where
  pub dimension_ids : List String
  pub dimensions : Dict String DatasetDimension
  pub role_buckets : DatasetRole
  pub time_labels : List String

abbrev pub no_variables : Variables
no_variables = record {
  dimension_ids = [];
  dimensions = [];
  role_buckets = record { time = none; geo = none; metric = none };
  time_labels = [];
}

abbrev pub listed_items : Option Value → Option (List Value)
listed_items (some (arr l)) = some (items l)
listed_items _ = none

-- `str(value_label) if value_label is not None else raw_code`
unfoldable pub label_or : Builtins → String → List Value → String
unfolding text_of
label_or py raw_code [] = raw_code
label_or py raw_code (null ∷ value_texts) = raw_code
label_or py raw_code (v ∷ value_texts) = text_of py v

abbrev pub next_texts : List Value → List Value
next_texts [] = []
next_texts (v ∷ value_texts) = value_texts

-- `category_labels`, over the values and their texts from the same place on; its keys are
-- `category_index`
unfoldable pub read_categories :
    Builtins → List Value → List Value → Dict String String → Result (Dict String String)
unfolding strip text_of label_or
read_categories py [] value_texts category_labels = ok category_labels
read_categories py (raw_value ∷ values) value_texts category_labels =
    let raw_code = strip (text_of py raw_value) in
    raise_if (is_empty raw_code) value_error
    >> raise_if (contains (keys category_labels) raw_code) value_error
    >> read_categories py values (next_texts value_texts)
        (category_labels ++ (raw_code, label_or py raw_code value_texts) ∷ [])

-- the texts that are not blank
unfoldable pub filled_texts : List Value → List String
unfolding strip
filled_texts [] = []
filled_texts (str s ∷ l) =
    let rest = filled_texts l in if is_empty (strip s) then rest else s ∷ rest
filled_texts (v ∷ l) = filled_texts l

abbrev or_values : List String → List String → List String
or_values [] others = others
or_values (label ∷ labels) others = label ∷ labels

-- `time_labels` after a variable
unfoldable pub labels_after : Option Role → List Value → List Value → List String → List String
unfolding filled_texts
labels_after (some time) values value_texts time_labels =
    or_values (filled_texts value_texts) (filled_texts values)
labels_after role values value_texts time_labels = time_labels

abbrev pub appended : Option (List String) → String → Option (List String)
appended none code = some (code ∷ [])
appended (some codes) code = some (codes ++ code ∷ [])

-- `role_buckets.setdefault(role, []).append(code)`
unfoldable pub add_role : Option Role → String → DatasetRole → DatasetRole
add_role none code r = r
add_role (some time) code r = record r { time = appended r.time code }
add_role (some geo) code r = record r { geo = appended r.geo code }
add_role (some metric) code r = record r { metric = appended r.metric code }

abbrev pub variable_fields : List String
variable_fields = "code" ∷ "text" ∷ "values" ∷ "valueTexts" ∷ "time" ∷ "elimination" ∷ []

unfoldable pub variable_extension : Texts → ℕ → Fields → Fields
unfolding without_keys put_field coerce_bool get
variable_extension texts position var =
    put_field "elimination" (bool (get_or (coerce_bool texts (get "elimination" var)) false))
      (put_field "position" (num (pos position)) (without_keys variable_fields var))

-- `coerce_bool(var.get("time")) is True`
unfoldable pub is_time : Texts → Fields → Bool
unfolding coerce_bool get
is_time texts var = get_or (coerce_bool texts (get "time" var)) false

-- `DatasetDimension(...)`, with the validators of the category and of the dimension
unfoldable pub variable_dimension : String → Dict String String → Fields → Result DatasetDimension
unfolding positions_from validate_category validate_dimension
variable_dimension label category_labels extension =
    validate_category (record {
      index = positions_from 0 (keys category_labels) [];
      label = category_labels;
      child = none;
      coordinates = none;
      unit = none;
      note = none;
      extension = end;
    })
    >>= λ category. validate_dimension (record {
      label = label;
      category = category;
      note = none;
      extension = extension;
      link = none;
    })

-- one variable, from its values on
unfoldable pub add_variable :
    Texts → ℕ → Fields → String → List Value → Variables → Result Variables
unfolding stripped detect_role read_categories labels_after add_role variable_extension is_time
    variable_dimension insert get
add_variable texts position var code values s =
    let label = stripped texts.py "text" code var in
    let value_texts = get_or (listed_items (get "valueTexts" var)) [] in
    let role = detect_role texts code label (is_time texts var) in
    read_categories texts.py values value_texts [] >>= λ category_labels.
    variable_dimension label category_labels (variable_extension texts position var)
    >>= λ dimension. ok (record {
      dimension_ids = s.dimension_ids ++ code ∷ [];
      dimensions = insert code dimension s.dimensions;
      role_buckets = add_role role code s.role_buckets;
      time_labels = labels_after role values value_texts s.time_labels;
    })

-- a variable that is an object: its code is new and not blank, and it has values
unfoldable pub read_object : Texts → ℕ → Fields → Variables → Result Variables
unfolding stripped get add_variable
read_object texts position var s =
    let code = stripped texts.py "code" "" var in
    let values = get_or (listed_items (get "values" var)) [] in
    raise_if (is_empty code) value_error
    >> raise_if (contains (keys s.dimensions) code) value_error
    >> raise_if (no_items values) value_error
    >> add_variable texts position var code values s

unfoldable pub read_variable : Texts → ℕ → Value → Variables → Result Variables
unfolding read_object
read_variable texts position (obj var) s = read_object texts position var s
read_variable texts position v s = err value_error

-- the loop over the variables
unfoldable pub read_variables : Texts → ℕ → List Value → Variables → Result Variables
unfolding read_variable
read_variables texts position [] s = ok s
read_variables texts position (var ∷ variables) s =
    read_variable texts position var s >>= read_variables texts (suc position) variables

-- the variables of a payload, of which there must be one
unfoldable pub payload_variables : Texts → Value → Result Variables
unfolding read_variables get
payload_variables texts (obj payload) = elim (listed_items (get "variables" payload)) [
  | none ↦ err value_error
  | some variables ↦
      raise_if (no_items variables) value_error >> read_variables texts 0 variables no_variables
]
payload_variables texts v = err value_error
