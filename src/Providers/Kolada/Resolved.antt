-- ===== src/Providers/Kolada/Resolved.antt =====
-- providers/adapters/kolada/adapter.py: what holds of the documents that `resolve_dataset` returns.
use nordicintel_harvest.Prelude.{◌≡◌}
use nordicintel_harvest.Core.Errors.{ok}
use nordicintel_harvest.Schemas.Datasets.{validate_dimension_structure}
use nordicintel_harvest.Schemas.Documents.{DatasetDocuments}
use nordicintel_harvest.Providers.Interface.{Identity}
use nordicintel_harvest.Providers.Kolada.Parsing.{KpiInfo}
use nordicintel_harvest.Providers.Kolada.Adapter.{KoladaAdapter}

-- Documents of an indicator, under an identity: both carry it, the label is the title of the indicator
-- in the catalogue, and the metadata passes its validator.
pub record IsResolved (a : KoladaAdapter) (identity : Identity) (kpi : KpiInfo)
    (d : DatasetDocuments) : Type 0 where
  pub basic : d.dataset.identity ≡ identity
  pub detailed : d.metadata.identity ≡ identity
  pub titled : d.dataset.label ≡ kpi.title
  pub valid : validate_dimension_structure d.metadata ≡ ok d.metadata
