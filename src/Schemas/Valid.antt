-- ===== src/Schemas/Valid.antt =====
-- schemas/datasets.py: metadata that the validators take is unchanged.
use nordicintel_harvest.Prelude.{◌≡◌, sym, ap, ◌∙◌}
use nordicintel_harvest.Core.Errors.{ok, >>=-eq-ok, ok-injective, checked-ok}
use nordicintel_harvest.Schemas.Datasets.{DatasetMetadata, validate_dimension_structure}
use nordicintel_harvest.Schemas.Documents.{Validation, validate_metadata}
use nordicintel_harvest.Schemas.Roles.{validate_dimension_structure_lem}

pub validate_metadata-ok :
    (validation : Validation) (m n : DatasetMetadata)
    → validate_metadata validation m ≡ ok n
    → (n ≡ m) × (validate_dimension_structure m ≡ ok m)
unfolding validate_metadata
validate_metadata-ok validation m n h =
    let (valid, made, checked) = >>=-eq-ok (validate_dimension_structure m) _ h in
    let same = (validate_dimension_structure_lem m valid made).0 in
    let (_, returned) = checked-ok (validation.metadata valid) (ok valid) checked in
    (sym (ok-injective returned) ∙ same, made ∙ ap ok same)
