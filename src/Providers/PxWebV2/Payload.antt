-- ===== src/Providers/PxWebV2/Payload.antt =====
-- providers/adapters/pxweb_v2/parsing.py: the metadata of one table.
use nordicintel_harvest.Prelude.{
  Bool, String, Option, none, some, List, string_eq, ◌==◌, if◌then◌else◌,
}
use nordicintel_harvest.Prelude.Text.{is_empty}
use nordicintel_harvest.Prelude.Dict.{Dict}
use nordicintel_harvest.Core.Errors.{Result, ok, ◌>>=◌}
use nordicintel_harvest.Core.Json.{Fields, end, field, get}
use nordicintel_harvest.Core.Values.{get_present}
use nordicintel_harvest.Schemas.Dimensions.{DatasetDimension, DatasetRole}
use nordicintel_harvest.Schemas.Datasets.{DatasetContact}
use nordicintel_harvest.Providers.Common.{Texts}
use nordicintel_harvest.Providers.Common.Extras.{normalize_note, coerce_bool, put_field}
use nordicintel_harvest.Providers.PxWebV2.Contacts.{normalize_contact}
use nordicintel_harvest.Providers.PxWebV2.Categories.{Models}
use nordicintel_harvest.Providers.PxWebV2.Dimensions.{as_fields, build_dimensions}
use nordicintel_harvest.Providers.PxWebV2.Tables.{text_present}

-- what is known of a table from the listing
pub record Defaults : Type 0 where
  pub note : Option (List String)
  pub subject_label : Option String
  pub official_statistics : Option Bool
  pub contact : Option (List DatasetContact)
  pub extension : Fields

pub record ParsedMetadata : Type 0 where
  pub id : List String
  pub role : Option DatasetRole
  pub dimension : Dict String DatasetDimension
  pub details : Defaults

-- `a or b`, for lists that are not empty and for texts
abbrev pub or_else {ℓ} : {A : Type ℓ} → Option A → Option A → Option A
or_else none b = b
or_else (some a) b = some a

abbrev pub text_or_else : Option String → Option String → Option String
text_or_else none b = b
text_or_else (some s) b = if is_empty s then b else some s

-- `extension.update({key: value for key, value in raw.items() if key != "contact"})`
unfoldable pub update_extension : Fields → Fields → Fields
unfolding put_field
update_extension extension end = extension
update_extension extension (field key value raw) =
    let next = if key == "contact" then extension else put_field key value extension in
    update_extension next raw

-- the official statistics of `px`, if it has them
unfoldable pub official_of : Texts → Fields → Option Bool → Option Bool
unfolding coerce_bool get_present
official_of texts px known = elim (get_present "official-statistics" px) [
  | none ↦ known
  | some v ↦ coerce_bool texts (some v)
]

-- the part about `px`
unfoldable pub with_px : Texts → Option Fields → Defaults → Defaults
unfolding text_present official_of
with_px texts none d = d
with_px texts (some px) d = record d {
  subject_label = text_or_else d.subject_label (text_present texts.py "subject-area" px);
  official_statistics = official_of texts px d.official_statistics;
}

unfoldable pub with_extension_of : Texts → Option Fields → Defaults → Result Defaults
unfolding update_extension with_px normalize_contact get
with_extension_of texts none d = ok d
with_extension_of texts (some raw_extension) d =
    let updated = record d { extension = update_extension d.extension raw_extension } in
    let described = with_px texts (as_fields (get "px" raw_extension)) updated in
    normalize_contact texts (get "contact" raw_extension) >>= λ contact.
    ok (record described { contact = or_else contact described.contact })

unfoldable pub parse_pxweb2_metadata_payload :
    Texts → Models → Defaults → Fields → Result ParsedMetadata
unfolding build_dimensions with_extension_of normalize_note get
parse_pxweb2_metadata_payload texts models d payload =
    build_dimensions texts models (get "dimension" payload) (get "id" payload) (get "role" payload)
    >>= λ b.
        with_extension_of texts (as_fields (get "extension" payload))
          (record d { note = or_else (normalize_note texts (get "note" payload)) d.note })
        >>= λ details.
            ok (record { id = b.id; role = b.role; dimension = b.dimension; details = details })
