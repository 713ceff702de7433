-- ===== src/Providers/PxWebV2/Contacts.antt =====
-- providers/adapters/pxweb_v2/parsing.py: the contacts of a table.
use nordicintel_harvest.Prelude.{String, Option, none, some, List, [], ◌∷◌, ◌++◌, if◌then◌else◌}
use nordicintel_harvest.Prelude.Text.{strip, is_empty}
use nordicintel_harvest.Core.Errors.{Result, ok, err, ◌>>=◌, value_error}
use nordicintel_harvest.Core.Json.{Value, null, str, arr, obj, Fields, end, get, items}
use nordicintel_harvest.Core.Values.{text_of}
use nordicintel_harvest.Schemas.Datasets.{DatasetContact}
use nordicintel_harvest.Providers.Common.{Texts}
use nordicintel_harvest.Providers.Common.Extras.{or_none, structured_extras}

-- a field of type `str | None`
unfoldable pub text_field : String → Fields → Result (Option String)
unfolding get
text_field key o = elim (get key o) [
  | none ↦ ok none
  | some null ↦ ok none
  | some (str s) ↦ ok (some s)
  | some v ↦ err value_error
]

-- the `extension` of a validated document
unfoldable pub object_field : String → Fields → Result Fields
unfolding get
object_field key o = elim (get key o) [
  | none ↦ ok end
  | some (obj v) ↦ ok v
  | some v ↦ err value_error
]

abbrev pub contact_fields : List String
contact_fields = "name" ∷ "organization" ∷ "mail" ∷ "phone" ∷ "raw" ∷ []

-- `DatasetContact.model_validate(structured_extras(item, ...))`
unfoldable pub contact_of : Texts → Fields → Result DatasetContact
unfolding structured_extras text_field object_field
contact_of texts item = structured_extras texts item contact_fields >>= λ o.
    text_field "raw" o >>= λ raw. text_field "mail" o >>= λ mail. text_field "name" o >>= λ name.
    text_field "phone" o >>= λ phone. text_field "organization" o >>= λ organization.
    object_field "extension" o >>= λ extension. ok (record {
      raw = raw;
      mail = mail;
      name = name;
      phone = phone;
      organization = organization;
      extension = extension;
    })

abbrev pub raw_contact : String → DatasetContact
raw_contact value = record {
  raw = some value;
  mail = none;
  name = none;
  phone = none;
  organization = none;
  extension = end;
}

-- the items that are objects
unfoldable pub structured_contacts : Texts → List Value → Result (List DatasetContact)
unfolding contact_of
structured_contacts texts [] = ok []
structured_contacts texts (obj item ∷ vs) = contact_of texts item >>= λ contact.
    structured_contacts texts vs >>= λ contacts. ok (contact ∷ contacts)
structured_contacts texts (v ∷ vs) = structured_contacts texts vs

-- the texts of the others
unfoldable pub text_contacts : Texts → List Value → List DatasetContact
unfolding text_of strip
text_contacts texts [] = []
text_contacts texts (obj item ∷ vs) = text_contacts texts vs
text_contacts texts (v ∷ vs) =
    let rest = text_contacts texts vs in
    let value = strip (text_of texts.py v) in
    if is_empty value then rest else raw_contact value ∷ rest

unfoldable pub contact_list : Texts → List Value → Result (Option (List DatasetContact))
unfolding structured_contacts text_contacts
contact_list texts raw_contacts = structured_contacts texts raw_contacts >>= λ contacts.
    ok (or_none (contacts ++ text_contacts texts raw_contacts))

abbrev pub text_contact : Texts → Value → Option (List DatasetContact)
unfolding text_of strip
text_contact texts v =
    let value = strip (text_of texts.py v) in
    if is_empty value then none else some (raw_contact value ∷ [])

-- what is left after the case of an object
unfoldable pub contacts_of : Texts → Value → Result (Option (List DatasetContact))
unfolding contact_list items
contacts_of texts (arr l) = contact_list texts (items l)
contacts_of texts v = ok (text_contact texts v)

unfoldable pub normalize_contact : Texts → Option Value → Result (Option (List DatasetContact))
unfolding contacts_of contact_list get
normalize_contact texts none = ok none
normalize_contact texts (some null) = ok none
normalize_contact texts (some (obj o)) = elim (get "contacts" o) [
  | none ↦ contact_list texts (obj o ∷ [])
  | some v ↦ contacts_of texts v
]
normalize_contact texts (some v) = contacts_of texts v
