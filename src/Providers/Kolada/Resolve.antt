-- ===== src/Providers/Kolada/Resolve.antt =====
-- providers/adapters/kolada/adapter.py: `resolve_dataset`; and the methods of the unit client in
-- providers/adapters/kolada/client.py that pass a call on.
use nordicintel_harvest.Prelude.{
  ℕ, ◌+◌, Bool, true, false, not, ◌&&◌, String, Option, none, some, List, [], ◌∷◌, keep,
}
use nordicintel_harvest.Prelude.Int.{pos}
use nordicintel_harvest.Prelude.Text.{join}
use nordicintel_harvest.Core.Errors.{Result, ok, err, ◌>>=◌, ◌>>◌, raise_if, value_error}
use nordicintel_harvest.Core.Json.{end}
use nordicintel_harvest.Core.Values.{non_empty}
use nordicintel_harvest.Schemas.Datasets.{DatasetMetadata, DatasetSubject, Retrieval}
use nordicintel_harvest.Schemas.Documents.{
  DatasetInfo, DatasetDocuments, validate_info, validate_metadata, validate_pair, validate_subject,
}
use nordicintel_harvest.Providers.Interface.{Identity}
use nordicintel_harvest.Providers.Kolada.Parsing.{KpiInfo}
use nordicintel_harvest.Providers.Kolada.Dimensions.{ResolvedDimensions}
use nordicintel_harvest.Providers.Kolada.Client.{Api}
use nordicintel_harvest.Providers.Kolada.Indicators.{KoladaClient, list_kpis, get_kpi}
use nordicintel_harvest.Providers.Kolada.Probe.{
  OuClient, changed_kpi_ids, resolve_dataset_dimensions, resolve_ou_dimensions,
}
use nordicintel_harvest.Providers.Kolada.Metadata.{KpiMetadata, kpi_metadata}
use nordicintel_harvest.Providers.Kolada.Adapter.{KoladaAdapter, web_url, split_code}

-- The unit client shares the base client with the adapter, so its state holds that of both.
unfoldable pub with_base {ℓ} :
    {A : Type ℓ} → OuClient → Result (A × KoladaClient) → Result (A × OuClient)
with_base client (err e) = err e
with_base client (ok r) = ok (r.0, record client { base = r.1 })

unfoldable pub list_ou_kpis : Api → ℕ → OuClient → Result (List KpiInfo × OuClient)
unfolding list_kpis with_base
list_ou_kpis api rounds client = with_base client (list_kpis api rounds client.base) >>= λ r.
    ok (keep (λ kpi. kpi.has_ou_data) r.0, r.1)

unfoldable pub ou_get_kpi : Api → ℕ → String → OuClient → Result (Option KpiInfo × OuClient)
unfolding get_kpi with_base
ou_get_kpi api rounds kpi_id client = with_base client (get_kpi api rounds kpi_id client.base)

unfoldable pub ou_changed_kpi_ids :
    Api → ℕ → String → ℕ → OuClient → Result (List String × OuClient)
unfolding changed_kpi_ids with_base
ou_changed_kpi_ids api rounds from_date max_year client =
    with_base client (changed_kpi_ids api rounds "oudata" from_date max_year client.base)

-- `resolve_dataset_dimensions` of the client of the variant
unfoldable pub resolve_dimensions :
    KoladaAdapter → Bool → KpiInfo → ℕ → OuClient → Result (ResolvedDimensions × OuClient)
unfolding resolve_dataset_dimensions resolve_ou_dimensions with_base
resolve_dimensions a true kpi max_year client =
    resolve_ou_dimensions a.api a.rounds kpi max_year client
resolve_dimensions a false kpi max_year client =
    with_base client (resolve_dataset_dimensions a.api a.rounds kpi max_year client.base)

-- the indicator, if it is there and has the variant
unfoldable pub found_kpi : Bool → Option KpiInfo → Result KpiInfo
found_kpi is_ou none = err value_error
found_kpi is_ou (some kpi) = raise_if (is_ou && not kpi.has_ou_data) value_error >> ok kpi

abbrev pub filled : Option String → Option String
filled none = none
filled (some s) = non_empty s

-- `DatasetSubject(**subject) if subject else None`
unfoldable pub subject_of :
    KoladaAdapter → Option String → Option String → Result (Option DatasetSubject)
unfolding validate_subject
subject_of a none none = ok none
subject_of a code label =
    validate_subject a.validation (record { code = code; label = label; extension = end })
    >>= λ subject. ok (some subject)

abbrev pub info_of : Identity → KpiMetadata → ResolvedDimensions → DatasetInfo
info_of identity fields result = record {
  identity = identity;
  label = fields.label;
  description = fields.description;
  updated = none;
  next_release = none;
  time_unit = some "Annual";
  first_period = some result.first_period;
  last_period = some result.last_period;
  discontinued = some fields.discontinued;
  source_url = some web_url;
  doc_url = none;
  extension = end;
}

unfoldable pub detail_of :
    KoladaAdapter
    → Identity
    → KpiInfo
    → KpiMetadata
    → Option DatasetSubject
    → ResolvedDimensions
    → DatasetMetadata
unfolding join
detail_of a identity kpi fields subject result = record {
  identity = identity;
  id = result.id;
  dimension = result.dimension;
  role = some result.role;
  subject = subject;
  paths = fields.paths;
  official_statistics = none;
  source = some fields.source;
  note = none;
  contact = none;
  metadata_url = some (join "/" (a.base_api_url ∷ "kpi" ∷ kpi.kpi_id ∷ []));
  retrieval = some (Retrieval.kolada end);
  extension = fields.extension;
}

-- the documents of an indicator whose dimensions are known
unfoldable pub documents_of :
    KoladaAdapter → Identity → ℕ → KpiInfo → ResolvedDimensions → Result DatasetDocuments
unfolding kpi_metadata subject_of detail_of validate_info validate_metadata validate_pair
documents_of a identity year kpi result =
    let fields = kpi_metadata a.patterns kpi (pos year) in
    validate_info a.validation (info_of identity fields result) >>= λ dataset.
    subject_of a (filled fields.subject_code) (filled fields.subject_label) >>= λ subject.
    validate_metadata a.validation (detail_of a identity kpi fields subject result) >>= λ metadata.
    validate_pair (record { dataset = dataset; metadata = metadata })

-- `resolve_dataset`, in the year of the run
unfoldable pub resolve_dataset :
    KoladaAdapter → ℕ → Identity → OuClient → Result (DatasetDocuments × OuClient)
unfolding split_code ou_get_kpi found_kpi resolve_dimensions documents_of
resolve_dataset a year identity client =
    let code = split_code identity.dataset_code in
    ou_get_kpi a.api a.rounds code.0 client >>= λ g. found_kpi code.1 g.0 >>= λ kpi.
    resolve_dimensions a code.1 kpi (year + 3) g.1 >>= λ r.
    documents_of a identity year kpi r.0 >>= λ documents. ok (documents, r.1)
