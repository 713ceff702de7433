-- ===== src/Schemas/Documents.antt =====
-- schemas/datasets.py: the two documents of a resolved dataset, with the checks of their fields. The
-- matching of patterns and the JSON schemas are parameters.
use nordicintel_harvest.Prelude.{
  Bool, not, ◌&&◌, ◌||◌, ◌≡◌, sym, String, Option, List, [], ◌∷◌, string_eq, ◌==◌, contains,
  is_some,
}
use nordicintel_harvest.Core.Errors.{
  Result, ok, ◌>>=◌, ◌>>◌, raise_if, if_some, value_error, ok-injective, checked-ok,
}
use nordicintel_harvest.Core.Json.{Fields}
use nordicintel_harvest.Providers.Interface.{DateTime, Identity}
use nordicintel_harvest.Schemas.Datasets.{
  DatasetMetadata, DatasetSubject, require_description, validate_dimension_structure,
}

pub record DatasetInfo : Type 0 where
  pub identity : Identity
  pub label : String
  pub description : Option String
  pub updated : Option DateTime
  pub next_release : Option DateTime
  pub time_unit : Option String
  pub first_period : Option String
  pub last_period : Option String
  pub discontinued : Option Bool
  pub source_url : Option String
  pub doc_url : Option String
  pub extension : Fields

-- `DatasetDocuments`
pub record DatasetDocuments : Type 0 where
  pub dataset : DatasetInfo
  pub metadata : DatasetMetadata

-- What the models take from their library: whether a text matches a pattern, whether a naive
-- timestamp is taken as a date, and `validate_contract` for each of the two documents.
pub record Validation : Type 0 where
  pub matches : String → String → Bool
  pub is_date : DateTime → Bool
  pub dataset : DatasetInfo → Result (Unit {0})
  pub metadata : DatasetMetadata → Result (Unit {0})

abbrev pub code_pattern : String
code_pattern = "^[a-z][a-z0-9]*(?:_[a-z0-9]+)*$"

abbrev pub filled_pattern : String
filled_pattern = "\\S"

abbrev languages : List String
languages = "sv" ∷ "en" ∷ []

unfoldable pub validate_identity : Validation → Identity → Result (Unit {0})
validate_identity validation i =
    raise_if (not (validation.matches code_pattern i.provider_code)) value_error
    >> raise_if (not (validation.matches filled_pattern i.dataset_code)) value_error
    >> raise_if (not (contains languages i.language)) value_error

abbrev check_filled : Validation → Option String → Result (Unit {0})
check_filled validation o =
    if_some o (λ s. raise_if (not (validation.matches filled_pattern s)) value_error)

-- `DatasetSubject(...)`
unfoldable pub validate_subject : Validation → DatasetSubject → Result DatasetSubject
unfolding require_description
validate_subject validation subject =
    check_filled validation subject.code
    >> check_filled validation subject.label
    >> require_description subject

-- `date | AwareDatetime | None`
abbrev check_stamp : Validation → Option DateTime → Result (Unit {0})
check_stamp validation o =
    if_some o (λ d. raise_if (not (is_some d.offset || validation.is_date d)) value_error)

-- `DatasetInfo(...)`
unfoldable pub validate_info : Validation → DatasetInfo → Result DatasetInfo
unfolding validate_identity
validate_info validation d =
    validate_identity validation d.identity
    >> raise_if (not (validation.matches filled_pattern d.label)) value_error
    >> check_stamp validation d.updated
    >> check_stamp validation d.next_release
    >> check_filled validation d.time_unit
    >> check_filled validation d.first_period
    >> check_filled validation d.last_period
    >> validation.dataset d
    >> ok d

-- `DatasetMetadata(...)`, whose identity has been checked: its validators, in their order
unfoldable pub validate_metadata : Validation → DatasetMetadata → Result DatasetMetadata
unfolding validate_dimension_structure
validate_metadata validation m =
    validate_dimension_structure m >>= λ valid. validation.metadata valid >> ok valid

abbrev same_identity : Identity → Identity → Bool
same_identity a b =
    a.provider_code == b.provider_code
    && a.dataset_code == b.dataset_code
    && a.language == b.language

unfoldable pub validate_pair : DatasetDocuments → Result DatasetDocuments
validate_pair documents =
    raise_if (not (same_identity documents.dataset.identity documents.metadata.identity))
      value_error
    >> ok documents

-- a basic document that is taken is unchanged
pub validate_info-eq :
    (validation : Validation) (d e : DatasetInfo) → validate_info validation d ≡ ok e → e ≡ d
unfolding validate_info
validate_info-eq validation d e h = sym (ok-injective (checked-ok _ (ok d) h).1)
