-- ===== src/Providers/PxWebV2/Resolved.antt =====
-- providers/adapters/pxweb_v2/adapter.py: what holds of the documents that `resolve_dataset` returns.
use nordicintel_harvest.Prelude.{
  true, false, ◌≡◌, inl, inr, sym, ap, ◌∙◌, String, Option, none, some, string_eq, distinct, any,
  contains, subst, Bool-cases, then_taken, else_taken,
}
use nordicintel_harvest.Prelude.Dict.{keys}
use nordicintel_harvest.Prelude.Text.{is_empty}
use nordicintel_harvest.Prelude.Sets.{is_subset}
use nordicintel_harvest.Core.Errors.{
  Error, Result, ok, err, ◌>>=◌, value_error, >>=-eq-ok, ok-injective, checked-ok,
}
use nordicintel_harvest.Core.Json.{Value, null, obj, end}
use nordicintel_harvest.Schemas.Dimensions.{no_items}
use nordicintel_harvest.Schemas.Datasets.{DatasetMetadata, validate_dimension_structure}
use nordicintel_harvest.Schemas.Documents.{
  DatasetDocuments, validate_info, validate_info-eq, validate_pair,
}
use nordicintel_harvest.Schemas.Roles.{role_ids, validate_dimension_structure_lem}
use nordicintel_harvest.Schemas.Valid.{validate_metadata-ok}
use nordicintel_harvest.Providers.Interface.{identity}
use nordicintel_harvest.Providers.Candidates.{FullCandidate}
use nordicintel_harvest.Providers.PxWebV2.Payload.{Defaults, ParsedMetadata}
use nordicintel_harvest.Providers.PxWebV2.Discovery.{Service, get_api_url}
use nordicintel_harvest.Providers.PxWebV2.Resolve.{
  Resolving, Read, read_payload, read_metadata, metadata_params, info_of, Arguments, arguments_of,
  detail, detail_of, resolve_dataset, unread,
}

-- metadata that was made of the candidate and has passed the validators
record IsDetail (c : FullCandidate) (m : DatasetMetadata) : Type 0 where
  named : m.identity ≡ identity c.candidate
  valid : validate_dimension_structure m ≡ ok m

detail_of-IsDetail :
    (r : Resolving) (c : FullCandidate) (details : Defaults) (arguments : Arguments)
    (o : Option ParsedMetadata) (m : DatasetMetadata)
    → detail_of r c details arguments o ≡ ok m
    → IsDetail c m
unfolding detail_of
detail_of-IsDetail r c details arguments none m h = cc
detail_of-IsDetail r c details arguments (some p) m h =
    let (same, valid) = validate_metadata-ok r.validation (detail c details arguments p) m h in
    record {
      named = ap (λ n. n.identity) same;
      valid = subst (λ n. validate_dimension_structure n ≡ ok n) (sym same) valid;
    }

-- The documents of a dataset that is resolved carry the identity of the candidate, both of them. The
-- basic document is the one that is made of the candidate. The metadata has a dimension, no id is
-- empty or repeated, its dimensions are those of the ids, and every dimension with a role is one of
-- them and has that role only, once.
pub resolve_dataset_lem :
    (s : Service) (r : Resolving) (c : FullCandidate) (documents : DatasetDocuments)
    → resolve_dataset s r c ≡ ok documents
    → (documents.dataset ≡ info_of s c)
      × (documents.metadata.identity ≡ identity c.candidate)
      × (no_items documents.metadata.id ≡ false)
      × (any is_empty documents.metadata.id ≡ false)
      × (distinct documents.metadata.id ≡ true)
      × ((x : String)
          → contains (keys documents.metadata.dimension) x ≡ contains documents.metadata.id x)
      × (distinct (role_ids documents.metadata.role) ≡ true)
      × (is_subset (role_ids documents.metadata.role) documents.metadata.id ≡ true)
unfolding resolve_dataset validate_pair
resolve_dataset_lem s r c documents h =
    let (read, _, next) = >>=-eq-ok (read_metadata s r c) _ h in
    let (dataset, info, more) = >>=-eq-ok (validate_info r.validation (info_of s c)) _ next in
    let (arguments, _, most) = >>=-eq-ok (arguments_of s r c read) _ more in
    let (metadata, made, paired) =
      >>=-eq-ok (detail_of r c read.details arguments read.structure) _ most in
    let pair : DatasetDocuments = record { dataset = dataset; metadata = metadata } in
    let (_, returned) = checked-ok _ (ok pair) paired in
    let result : pair ≡ documents = ok-injective returned in
    let d = detail_of-IsDetail r c read.details arguments read.structure metadata made in
    let same : metadata ≡ documents.metadata = ap (λ p. p.metadata) result in
    let (_, filled, named, unique, entries, apart, known) =
      validate_dimension_structure_lem documents.metadata documents.metadata
        (subst (λ m. validate_dimension_structure m ≡ ok m) same d.valid) in
    (
      ap (λ p. p.dataset) (sym result) ∙ validate_info-eq r.validation (info_of s c) dataset info,
      ap (λ m. m.identity) (sym same) ∙ d.named,
      filled,
      named,
      unique,
      entries,
      apart,
      known,
    )

-- An answer that has no metadata: the request raised, or there is nothing, or an empty object.
pub data IsUnanswered : Result Value → Type 0 where
  raised : {a : Result Value} → (e : Error) → a ≡ err e → IsUnanswered a
  nothing : {a : Result Value} → a ≡ ok null → IsUnanswered a
  empty : {a : Result Value} → a ≡ ok (obj end) → IsUnanswered a

no_structure :
    (s : Service) (r : Resolving) (c : FullCandidate) (answer : Result Value) (read : Read)
    → IsUnanswered answer
    → (answer >>= read_payload s r c) ≡ ok read
    → read.structure ≡ none
unfolding read_payload
no_structure s r c answer read (raised e same) h =
    let no : err e ≡ ok read = ap (λ a. a >>= read_payload s r c) (sym same) ∙ h in cc
no_structure s r c answer read (nothing same) h =
    ap (λ x. x.structure) (sym (ok-injective (ap (λ a. a >>= read_payload s r c) (sym same) ∙ h)))
no_structure s r c answer read (empty same) h =
    ap (λ x. x.structure) (sym (ok-injective (ap (λ a. a >>= read_payload s r c) (sym same) ∙ h)))

read_metadata-none :
    (s : Service) (r : Resolving) (c : FullCandidate) (url : String) (read : Read)
    → get_api_url s "metadata" c.candidate.dataset_code ≡ ok url
    → IsUnanswered (s.get_json url (metadata_params s))
    → read_metadata s r c ≡ ok read
    → read.structure ≡ none
unfolding read_metadata
read_metadata-none s r c url read at unanswered h =
    let asked =
      λ (a : Result String). a >>= λ u. s.get_json u (metadata_params s) >>= read_payload s r c in
    let call = asked (get_api_url s "metadata" c.candidate.dataset_code) in
    elim (Bool-cases (is_empty s.base_api_url)) [
      | inl no_address ↦
          let same =
            then_taken (is_empty s.base_api_url) (ok (unread c)) call (ok read) no_address h in
          ap (λ x. x.structure) (sym (ok-injective same))
      | inr addressed ↦
          let same =
            else_taken (is_empty s.base_api_url) (ok (unread c)) call (ok read) addressed h in
          no_structure s r c (s.get_json url (metadata_params s)) read unanswered
            (ap asked (sym at) ∙ same)
    ]

-- A dataset is never resolved from an answer that has no metadata: when the request for its metadata
-- raises, or its answer is nothing or an empty object, no documents are returned.
pub resolve_dataset_rejects :
    (s : Service) (r : Resolving) (c : FullCandidate) (url : String)
    → get_api_url s "metadata" c.candidate.dataset_code ≡ ok url
    → IsUnanswered (s.get_json url (metadata_params s))
    → (documents : DatasetDocuments) → ¬ (resolve_dataset s r c ≡ ok documents)
unfolding resolve_dataset detail_of
resolve_dataset_rejects s r c url at unanswered documents h =
    let (read, answered, next) = >>=-eq-ok (read_metadata s r c) _ h in
    let (dataset, _, more) = >>=-eq-ok (validate_info r.validation (info_of s c)) _ next in
    let (arguments, _, most) = >>=-eq-ok (arguments_of s r c read) _ more in
    let (metadata, made, _) =
      >>=-eq-ok (detail_of r c read.details arguments read.structure) _ most in
    let none_read = read_metadata-none s r c url read at unanswered answered in
    let no : err value_error ≡ ok metadata =
      ap (detail_of r c read.details arguments) (sym none_read) ∙ made in
    cc
