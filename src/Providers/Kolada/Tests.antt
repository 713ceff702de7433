-- ===== src/Providers/Kolada/Tests.antt =====
-- Runs of the Kolada adapter, and its theorems at concrete inputs.
use nordicintel_harvest.Prelude.{
  ℕ, Bool, true, false, not, ◌≡◌, refl, String, Option, none, some, List, [], ◌∷◌, string_eq, ◌==◌,
  arith, map, All, if◌then◌else◌,
}
use nordicintel_harvest.Prelude.Int.{ℤ, pos}
use nordicintel_harvest.Core.Errors.{Result, ok, err, value_error}
use nordicintel_harvest.Core.Json.{Value, num, bool, str, arr, obj, Items, nil, cons, end, field}
use nordicintel_harvest.Schemas.Documents.{DatasetDocuments}
use nordicintel_harvest.Providers.Interface.{DateTime, HarvestContext, Identity}
use nordicintel_harvest.Providers.Kolada.Parsing.{KpiInfo}
use nordicintel_harvest.Providers.Kolada.Indicators.{KoladaClient, fresh_client, list_kpis}
use nordicintel_harvest.Providers.Kolada.Probe.{OuClient}
use nordicintel_harvest.Providers.Kolada.Adapter.{
  KoladaAdapter, code_of, split_code, discover_datasets,
}
use nordicintel_harvest.Providers.Kolada.Selected.{split_code-code_of, IsExcused}
use nordicintel_harvest.Providers.Kolada.Listed.{
  yielded_codes, expected_codes, IsFetched, discover_datasets_lem, discover_datasets_complete,
}
use nordicintel_harvest.Providers.Kolada.Resolve.{resolve_dataset}

split_code-code_of_example : split_code (code_of "N00001" true) ≡ ("N00001", true)
split_code-code_of_example = split_code-code_of "N00001" true (λ h. refl)

abbrev values_page : Items → Result Value
values_page l = ok (obj (field "values" (arr l) end))

abbrev kpi_entry : Value
kpi_entry =
    obj (field "id" (str "N1") (field "title" (str "Pupils") (field "has_ou_data" (bool true) end)))

abbrev municipality_entry : Value
municipality_entry =
    obj (field "id" (str "0114") (field "title" (str "Vasby") (field "type" (str "K") end)))

abbrev observation_entry : Value
observation_entry = obj (
    field "kpi" (str "N1") (
      field "municipality" (str "0114") (
        field "period" (num (pos 1970))
          (field "values" (arr (cons (obj (field "value" (num (pos 5)) end)) nil)) end))))

-- a provider of one indicator, one municipality and one observation
abbrev provider : String → Result Value
provider url =
    if url == "https://k/kpi"
    then values_page (cons kpi_entry nil)
    else if url == "https://k/kpi_groups"
    then values_page nil
    else if url == "https://k/municipality"
    then values_page (cons municipality_entry nil)
    else values_page (cons observation_entry nil)

abbrev adapter : KoladaAdapter
adapter = record {
  provider_code = "kolada";
  language = "sv";
  base_api_url = "https://k";
  api = record {
    py = record { repr = λ v. ""; parse_int = λ s. err value_error };
    get_json = provider;
    urljoin = λ url link. link;
    base_api_url = "https://k";
  };
  rounds = 3;
  local = pos 0;
  year_of = λ d. 1970;
  from_date = λ d. "from_date=1970-01-01";
  patterns = record {
    source_ends = λ s. [];
    boundaries = λ s. [];
    is_abbreviation = λ s. false;
    discontinued_year = λ s. none;
    quote = λ s. s;
  };
  validation = record {
    matches = λ pattern s. true;
    is_date = λ d. false;
    dataset = λ d. ok tt;
    metadata = λ m. ok tt;
  };
}

abbrev at_day : ℕ → DateTime
at_day us = record { wall = pos us; offset = some (pos 0) }

-- the variant of units was fetched and has not changed
abbrev context : HarvestContext
context = record {
  datasets =
      (
        "N1_OU",
        record {
          source_updated_at = none;
          last_fetched_at = some (at_day 8640000000000);
          has_error = false;
        },
      )
      ∷ [];
  started_at = at_day 8640000000001;
  previous_complete_started_at = some (at_day 8640000000000);
  force = false;
}

abbrev forced : HarvestContext
forced = record context { force = true }

found_codes :
    yielded_codes (discover_datasets adapter context fresh_client).yielded ≡ "N1" ∷ "N1_OU" ∷ []
unfolding discover_datasets nordicintel_harvest.Prelude.Int.◌-ℤ◌
found_codes = refl

fetched :
    map (λ x. x.should_fetch) (discover_datasets adapter context fresh_client).yielded
    ≡ true ∷ false ∷ []
unfolding discover_datasets nordicintel_harvest.Prelude.Int.◌-ℤ◌
fetched = refl

discover_datasets_lem_example :
    All (IsExcused adapter context) (discover_datasets adapter context fresh_client).yielded
discover_datasets_lem_example = discover_datasets_lem adapter context fresh_client

discover_datasets_complete_example :
    (kpis : List KpiInfo) × (later : KoladaClient) × (list_kpis adapter.api adapter.rounds
        fresh_client
      ≡ ok (kpis, later))
    × (yielded_codes (discover_datasets adapter forced fresh_client).yielded ≡ expected_codes kpis)
    × (forced.force ≡ true → All IsFetched (discover_datasets adapter forced fresh_client).yielded)
unfolding discover_datasets nordicintel_harvest.Prelude.Int.◌-ℤ◌
discover_datasets_complete_example = discover_datasets_complete adapter forced fresh_client refl

abbrev asked : Identity
asked = record { provider_code = "kolada"; dataset_code = "N1"; language = "sv" }

abbrev no_client : OuClient
no_client = record { ous = none; base = fresh_client }

abbrev value_of {ℓ} : {A : Type ℓ} → A → Result A → A
value_of other (ok a) = a
value_of other (err e) = other

abbrev no_documents : DatasetDocuments
no_documents = record {
  dataset = record {
    identity = asked;
    label = "";
    description = none;
    updated = none;
    next_release = none;
    time_unit = none;
    first_period = none;
    last_period = none;
    discontinued = none;
    source_url = none;
    doc_url = none;
    extension = end;
  };
  metadata = record {
    identity = asked;
    id = [];
    dimension = [];
    role = none;
    subject = none;
    paths = none;
    official_statistics = none;
    source = none;
    note = none;
    contact = none;
    metadata_url = none;
    retrieval = none;
    extension = end;
  };
}

unfoldable resolved : DatasetDocuments × OuClient
unfolding resolve_dataset
resolved = value_of (no_documents, no_client) (resolve_dataset adapter 1970 asked no_client)

resolved_ids : resolved.0.metadata.id ≡ "municipality" ∷ "year" ∷ []
unfolding resolved resolve_dataset
resolved_ids = refl
