-- ===== src/Providers/PxWebV2/Tables.antt =====
-- providers/adapters/pxweb_v2/parsing.py: one table of the listing.
use nordicintel_harvest.Prelude.{
  Bool, String, Option, none, some, List, [], ◌∷◌, string_eq, contains, if◌then◌else◌,
}
use nordicintel_harvest.Prelude.Text.{strip, is_empty, concat, join, ends_with, rstrip_slash}
use nordicintel_harvest.Core.Errors.{Result, ok, ◌>>=◌}
use nordicintel_harvest.Core.Json.{Value, null, str, arr, Items, nil, cons, Fields, end, field, get}
use nordicintel_harvest.Core.Values.{Builtins, text_of, get_present, stripped}
use nordicintel_harvest.Schemas.Contracts.{Urls, encoded_url}
use nordicintel_harvest.Schemas.Datasets.{DatasetPath}
use nordicintel_harvest.Providers.Interface.{DateTime}
use nordicintel_harvest.Providers.Common.{Texts, parse_dt}
use nordicintel_harvest.Providers.Common.Extras.{normalize_note, coerce_bool}
use nordicintel_harvest.Providers.PxWebV2.Dimensions.{text_or}
use nordicintel_harvest.Providers.PxWebV2.Paths.{normalize_paths}

-- the fields of the object that describes a table
pub record DiscoveryTable : Type 0 where
  pub dataset_code : String
  pub label : String
  pub updated : Option DateTime
  pub time_unit : String
  pub first_period : String
  pub last_period : String
  pub description : Option String
  pub source : Option String
  pub note : Option (List String)
  pub subject_code : Option String
  pub paths : Option (List DatasetPath)
  pub discontinued : Option Bool
  pub metadata_url : String
  pub data_url : String
  pub web_url : Option String
  pub extension : Fields

abbrev pub valid_time_units : List String
valid_time_units = "Annual" ∷ "Quarterly" ∷ "Monthly" ∷ "Weekly" ∷ "Other" ∷ []

unfoldable pub time_unit_of : Option Value → String
time_unit_of (some (str s)) = if contains valid_time_units s then s else "Other"
time_unit_of _ = "Other"

-- `[str(v) for v in values if v is not None]`
unfoldable pub texts_present : Builtins → Items → Items
unfolding text_of
texts_present py nil = nil
texts_present py (cons null l) = texts_present py l
texts_present py (cons v l) = cons (str (text_of py v)) (texts_present py l)

unfoldable pub variable_names_of : Builtins → Option Value → Items
unfolding texts_present
variable_names_of py (some (arr l)) = texts_present py l
variable_names_of py _ = nil

unfoldable pub description_of : Builtins → Option Value → Option String
unfolding text_of strip
description_of py none = none
description_of py (some null) = none
description_of py (some (str s)) = if is_empty (strip s) then none else some s
description_of py (some v) = some (text_of py v)

-- `str(o.get(k)) if o.get(k) is not None else None`
unfoldable pub text_present : Builtins → String → Fields → Option String
unfolding text_of get_present
text_present py key o = elim (get_present key o) [ none ↦ none | some v ↦ some (text_of py v) ]

-- the page of a table; an empty base is no base
unfoldable pub web_url_of : Option String → String → String → Option String
unfolding ends_with rstrip_slash join
web_url_of none language code = none
web_url_of (some base_web_url) language code =
    let base = rstrip_slash base_web_url in
    if is_empty base_web_url
    then none
    else if ends_with "/statbank/table" base
    then some (join "/" (base ∷ code ∷ "" ∷ []))
    else some (join "/" (base ∷ language ∷ "table" ∷ code ∷ []))

-- `f"{base}/tables/{id}/{kind}?lang={language}"`
unfoldable pub table_url : String → String → String → String → String
unfolding join concat
table_url base code kind language =
    concat (join "/" (base ∷ "tables" ∷ code ∷ kind ∷ [])) (concat "?lang=" language)

abbrev pub or_null : Option Value → Value
or_null none = null
or_null (some v) = v

abbrev table_extension : Builtins → Fields → Fields
unfolding get variable_names_of
table_extension py table =
    field "links" (or_null (get "links" table))
      (field "variable_names" (arr (variable_names_of py (get "variableNames" table))) end)

unfoldable pub parse_pxweb2_discovery_table :
    Texts → Urls → String → Option String → String → Fields → Result (Option DiscoveryTable)
unfolding stripped time_unit_of variable_names_of description_of text_present web_url_of table_url
    text_or parse_dt normalize_note normalize_paths coerce_bool encoded_url rstrip_slash get
parse_pxweb2_discovery_table texts urls base_api_url base_web_url language table =
    let py = texts.py in
    let dataset_code = stripped py "id" "" table in
    let cleaned_api_url = rstrip_slash base_api_url in
    if is_empty dataset_code
    then ok none
    else parse_dt texts (get "updated" table) >>= λ updated. ok (
        some (record {
          dataset_code = dataset_code;
          label = text_or py "label" (text_or py "title" dataset_code table) table;
          updated = updated;
          time_unit = time_unit_of (get "timeUnit" table);
          first_period = text_or py "firstPeriod" "" table;
          last_period = text_or py "lastPeriod" "" table;
          description = description_of py (get "description" table);
          source = text_present py "source" table;
          note = normalize_note texts (get "note" table);
          subject_code = text_present py "subjectCode" table;
          paths = normalize_paths py (get "paths" table);
          discontinued = coerce_bool texts (get "discontinued" table);
          metadata_url =
              encoded_url urls (table_url cleaned_api_url dataset_code "metadata" language);
          data_url = table_url cleaned_api_url dataset_code "data" language;
          web_url = web_url_of base_web_url language dataset_code;
          extension = table_extension py table;
        }))
