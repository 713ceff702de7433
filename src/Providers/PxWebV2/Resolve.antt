-- ===== src/Providers/PxWebV2/Resolve.antt =====
-- providers/adapters/pxweb_v2/adapter.py: `resolve_dataset`.
use nordicintel_harvest.Prelude.{
  Bool, false, ◌&&◌, String, Option, none, some, List, [], ◌∷◌, string_eq, ◌==◌, if◌then◌else◌,
  get_or,
}
use nordicintel_harvest.Prelude.Text.{is_empty, concat}
use nordicintel_harvest.Core.Errors.{Error, Result, ok, err, ◌>>=◌, value_error, type_error}
use nordicintel_harvest.Core.Json.{
  Value, null, str, arr, obj, Fields, end, field, get, items, truthy,
}
use nordicintel_harvest.Core.Values.{non_empty}
use nordicintel_harvest.Schemas.Contracts.{encoded_url}
use nordicintel_harvest.Schemas.Datasets.{DatasetMetadata, DatasetSubject, Retrieval}
use nordicintel_harvest.Schemas.Documents.{
  DatasetInfo, DatasetDocuments, Validation, validate_info, validate_metadata, validate_subject,
  validate_pair,
}
use nordicintel_harvest.Providers.Interface.{identity}
use nordicintel_harvest.Providers.Candidates.{FullCandidate}
use nordicintel_harvest.Providers.PxWebV2.Categories.{Models}
use nordicintel_harvest.Providers.PxWebV2.Payload.{
  Defaults, ParsedMetadata, parse_pxweb2_metadata_payload,
}
use nordicintel_harvest.Providers.PxWebV2.Discovery.{Service, get_api_url}

-- The models that the documents go through, and the error of `urlsplit` on a value that is no text.
pub record Resolving : Type 0 where
  pub models : Models
  pub validation : Validation
  pub not_text : Value → Error

abbrev pub defaults_of : FullCandidate → Defaults
defaults_of c = record {
  note = c.note;
  subject_label = c.subject_label;
  official_statistics = c.official_statistics;
  contact = c.contact;
  extension = c.extension;
}

-- the dimensions, if the answer had them, and the details
pub record Read : Type 0 where
  pub structure : Option ParsedMetadata
  pub details : Defaults

abbrev parsed_read : ParsedMetadata → Read
parsed_read p = record { structure = some p; details = p.details }

abbrev pub unread : FullCandidate → Read
unread c = record { structure = none; details = defaults_of c }

-- what is made of the answer; an empty object is taken like none
unfoldable pub read_payload : Service → Resolving → FullCandidate → Value → Result Read
unfolding parse_pxweb2_metadata_payload
read_payload s r c (obj (field k v o)) =
    parse_pxweb2_metadata_payload s.texts r.models (defaults_of c) (field k v o) >>= λ p.
    ok (parsed_read p)
read_payload s r c v = ok (unread c)

abbrev pub metadata_params : Service → Fields
metadata_params s = field "lang" (str s.language) (field "outputFormat" (str "json-stat2") end)

-- the request for the metadata
unfoldable pub read_metadata : Service → Resolving → FullCandidate → Result Read
unfolding get_api_url read_payload
read_metadata s r c =
    if is_empty s.base_api_url
    then ok (unread c)
    else get_api_url s "metadata" c.candidate.dataset_code >>= λ url.
        s.get_json url (metadata_params s) >>= read_payload s r c

-- `x or None` on texts
abbrev pub or_nothing : Option String → Option String
or_nothing none = none
or_nothing (some s) = non_empty s

-- `url or f"{self._get_api_url(endpoint, id=code)}?lang={language}"`
unfoldable pub url_or : Service → Option String → String → String → Result String
unfolding get_api_url concat
url_or s url endpoint code = elim (or_nothing url) [
  | some u ↦ ok u
  | none ↦ get_api_url s endpoint code >>= λ u. ok (concat u (concat "?lang=" s.language))
]

abbrev is_text : Option Value → String → Bool
is_text (some (str s)) expected = s == expected
is_text _ expected = false

-- a link to the metadata in the language of the adapter
unfoldable pub is_metadata_link : String → Fields → Bool
unfolding get
is_metadata_link language link =
    is_text (get "rel" link) "metadata"
    && is_text (get "hreflang" link) language
    && truthy (get_or (get "href" link) null)

-- the first such link of the list
unfoldable pub metadata_link : String → List Value → Option Value
unfolding is_metadata_link get
metadata_link language [] = none
metadata_link language (obj link ∷ links) =
    let rest = metadata_link language links in
    if is_metadata_link language link then get "href" link else rest
metadata_link language (v ∷ links) = metadata_link language links

-- the loop over `extension.get("links") or []`; a text or an object has no links among its items
unfoldable pub link_of : String → Option Value → Result (Option Value)
unfolding metadata_link items
link_of language none = ok none
link_of language (some (arr l)) = ok (metadata_link language (items l))
link_of language (some (str s)) = ok none
link_of language (some (obj o)) = ok none
link_of language (some v) = if truthy v then err type_error else ok none

-- `encoded_url` of the link, or of the address that is known
unfoldable pub encoded_link : Service → Resolving → String → Option Value → Result String
unfolding encoded_url
encoded_link s r known none = ok (encoded_url s.urls known)
encoded_link s r known (some (str url)) = ok (encoded_url s.urls url)
encoded_link s r known (some v) = err (r.not_text v)

abbrev encoded : Service → Option String → Option String
unfolding encoded_url
encoded s o = elim (or_nothing o) [ none ↦ none | some url ↦ some (encoded_url s.urls url) ]

-- `DatasetInfo(...)`
unfoldable pub info_of : Service → FullCandidate → DatasetInfo
unfolding encoded
info_of s c = record {
  identity = identity c.candidate;
  label = get_or (or_nothing c.label) c.candidate.dataset_code;
  description = c.description;
  updated = c.candidate.updated;
  next_release = none;
  time_unit = c.time_unit;
  first_period = or_nothing c.first_period;
  last_period = or_nothing c.last_period;
  discontinued = c.discontinued;
  source_url = encoded s c.web_url;
  doc_url = encoded s c.doc_url;
  extension = end;
}

-- `DatasetSubject(**subject) if subject else None`
unfoldable pub subject_of :
    Resolving → Option String → Option String → Result (Option DatasetSubject)
unfolding validate_subject
subject_of r none none = ok none
subject_of r code label =
    validate_subject r.validation (record { code = code; label = label; extension = end })
    >>= λ subject. ok (some subject)

-- the arguments of `DatasetMetadata(...)` that may raise, in their order
pub record Arguments : Type 0 where
  pub subject : Option DatasetSubject
  pub metadata_url : String
  pub data_url : String

unfoldable pub arguments_of : Service → Resolving → FullCandidate → Read → Result Arguments
unfolding url_or link_of encoded_link encoded_url subject_of get
arguments_of s r c read = url_or s c.metadata_url "metadata" c.candidate.dataset_code >>= λ known.
    link_of s.language (get "links" read.details.extension) >>= λ link.
    subject_of r (or_nothing c.subject_code) (or_nothing read.details.subject_label) >>= λ subject.
    encoded_link s r known link >>= λ metadata_url.
    url_or s c.data_url "data" c.candidate.dataset_code >>= λ data_url. ok (record {
      subject = subject;
      metadata_url = metadata_url;
      data_url = encoded_url s.urls data_url;
    })

-- the arguments of `DatasetMetadata(...)`
abbrev pub detail : FullCandidate → Defaults → Arguments → ParsedMetadata → DatasetMetadata
detail c details arguments p = record {
  identity = identity c.candidate;
  id = p.id;
  dimension = p.dimension;
  role = p.role;
  subject = arguments.subject;
  paths = c.paths;
  official_statistics = details.official_statistics;
  source = c.source;
  note = details.note;
  contact = details.contact;
  metadata_url = some arguments.metadata_url;
  retrieval = some (Retrieval.pxweb_v2 arguments.data_url end);
  extension = details.extension;
}

-- `DatasetMetadata(...)`; without dimensions the model raises
unfoldable pub detail_of :
    Resolving
    → FullCandidate
    → Defaults
    → Arguments
    → Option ParsedMetadata
    → Result DatasetMetadata
unfolding validate_metadata
detail_of r c details arguments none = err value_error
detail_of r c details arguments (some p) =
    validate_metadata r.validation (detail c details arguments p)

unfoldable pub resolve_dataset : Service → Resolving → FullCandidate → Result DatasetDocuments
unfolding read_metadata validate_info info_of arguments_of detail_of validate_pair
resolve_dataset s r c = read_metadata s r c >>= λ read.
    validate_info r.validation (info_of s c) >>= λ dataset. arguments_of s r c read >>= λ arguments.
    detail_of r c read.details arguments read.structure >>= λ metadata.
    validate_pair (record { dataset = dataset; metadata = metadata })
