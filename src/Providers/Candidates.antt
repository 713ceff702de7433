-- ===== src/Providers/Candidates.antt =====
-- providers/interface.py: the fields of `DatasetCandidate` that an adapter fills in discovery and reads
-- when it resolves the dataset.
use nordicintel_harvest.Prelude.{Bool, String, Option, List}
use nordicintel_harvest.Core.Json.{Fields}
use nordicintel_harvest.Schemas.Datasets.{DatasetPath, DatasetContact}
use nordicintel_harvest.Providers.Interface.{DatasetCandidate}

pub record FullCandidate : Type 0 where
  pub candidate : DatasetCandidate
  pub label : Option String
  pub description : Option String
  pub source : Option String
  pub note : Option (List String)
  pub subject_code : Option String
  pub subject_label : Option String
  pub time_unit : Option String
  pub first_period : Option String
  pub last_period : Option String
  pub discontinued : Option Bool
  pub metadata_url : Option String
  pub data_url : Option String
  pub web_url : Option String
  pub doc_url : Option String
  pub paths : Option (List DatasetPath)
  pub official_statistics : Option Bool
  pub contact : Option (List DatasetContact)
  pub extension : Fields
