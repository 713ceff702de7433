-- ===== src/Providers/Kolada/Probe.antt =====
-- providers/adapters/kolada/client.py: the municipalities, the units and the observations, and the
-- dimensions that a probe of all years gives.
use nordicintel_harvest.Prelude.{
  ℕ, suc, ◌-◌, ◌||◌, String, Option, none, some, List, [], ◌∷◌, map, string_eq, add, Eq,
  if◌then◌else◌,
}
use nordicintel_harvest.Prelude.Int.{ℤ, int_eq}
use nordicintel_harvest.Prelude.Dict.{Dict, insert}
use nordicintel_harvest.Prelude.Text.{concat, join, decimal}
use nordicintel_harvest.Prelude.Sets.{range}
use nordicintel_harvest.Core.Errors.{Result, ok, err, ◌>>=◌, ◌>>◌, raise_if, value_error}
use nordicintel_harvest.Core.Json.{Fields, get}
use nordicintel_harvest.Schemas.Dimensions.{no_items}
use nordicintel_harvest.Providers.Kolada.Batches.{build_data_request_batches}
use nordicintel_harvest.Core.Values.{as_text}
use nordicintel_harvest.Providers.Kolada.Parsing.{is_blank_text, KpiInfo, MunicipalityInfo, OuInfo}
use nordicintel_harvest.Providers.Kolada.Catalogue.{
  parse_municipality, parse_ou, ids_of, candidate_municipality_ids, probe_year_range,
}
use nordicintel_harvest.Providers.Kolada.Presence.{extract_presence}
use nordicintel_harvest.Providers.Kolada.Dimensions.{
  ResolvedDimensions, build_dataset_dimensions, build_ou_dataset_dimensions,
}
use nordicintel_harvest.Providers.Kolada.Client.{Api, get_paginated}
use nordicintel_harvest.Providers.Kolada.Indicators.{KoladaClient}

-- `[parsed for item in raw if (parsed := parse(item)) is not None]`
unfoldable pub parsed_items {ℓ} : {A : Type ℓ} → (Fields → Option A) → List Fields → List A
parsed_items parse [] = []
parsed_items parse (item ∷ raw) =
    let rest = parsed_items parse raw in
    elim (parse item) [ none ↦ rest | some parsed ↦ parsed ∷ rest ]

unfoldable pub list_municipalities :
    Api → ℕ → KoladaClient → Result (List MunicipalityInfo × KoladaClient)
unfolding parsed_items parse_municipality get_paginated concat
list_municipalities api rounds client = elim client.municipalities [
  | some known ↦ ok (known, client)
  | none ↦ get_paginated api rounds (concat api.base_api_url "/municipality") >>= λ raw.
      let municipalities = parsed_items (parse_municipality api.py) raw in
      ok (municipalities, record client { municipalities = some municipalities })
]

abbrev pub comma_joined : List String → String
comma_joined = join ","

-- The URL of the changes. `from_date` is the query that `urlencode` makes of the date.
unfoldable pub changes_url : Api → String → String → List String × List ℤ → String
unfolding join concat decimal
changes_url api data_path from_date (municipality_batch, year_batch) = join "" (
    api.base_api_url
    ∷ "/"
    ∷ data_path
    ∷ "/municipality/"
    ∷ comma_joined municipality_batch
    ∷ "/year/"
    ∷ comma_joined (map decimal year_batch)
    ∷ "?"
    ∷ from_date
    ∷ [])

unfoldable pub add_changes : List Fields → List String → Result (List String)
unfolding add get
add_changes [] changed = ok changed
add_changes (entry ∷ entries) changed = elim (as_text (get "kpi" entry)) [
  | none ↦ err value_error
  | some kpi ↦ raise_if (is_blank_text kpi) value_error >> add_changes entries (add changed kpi)
]

unfoldable pub changes_of :
    Api → ℕ → String → String → List (List String × List ℤ) → List String → Result (List String)
unfolding changes_url add_changes get_paginated
changes_of api rounds data_path from_date [] changed = ok changed
changes_of api rounds data_path from_date (batch ∷ batches) changed =
    get_paginated api rounds (changes_url api data_path from_date batch) >>= λ entries.
    add_changes entries changed >>= changes_of api rounds data_path from_date batches

unfoldable pub changed_kpi_ids :
    Api → ℕ → String → String → ℕ → KoladaClient → Result (List String × KoladaClient)
unfolding list_municipalities changes_of build_data_request_batches range
changed_kpi_ids api rounds data_path from_date max_year client =
    list_municipalities api rounds client >>= λ r.
    raise_if (no_items (ids_of r.0)) value_error
    >> changes_of api rounds data_path from_date
        (build_data_request_batches (ids_of r.0) (range 2010 (suc max_year - 2010))) []
    >>= λ changed. ok (changed, r.1)

unfoldable pub data_url : Api → String → List String × List ℤ → String
unfolding join concat decimal
data_url api kpi_id (municipality_ids, years) = join "" (
    api.base_api_url
    ∷ "/data/kpi/"
    ∷ kpi_id
    ∷ "/municipality/"
    ∷ comma_joined municipality_ids
    ∷ "/year/"
    ∷ comma_joined (map decimal years)
    ∷ [])

unfoldable pub ou_data_url : Api → String → ℤ → String
unfolding join concat decimal
ou_data_url api kpi_id year =
    join "" (api.base_api_url ∷ "/oudata/kpi/" ∷ kpi_id ∷ "/year/" ∷ decimal year ∷ [])

-- `found |= more`
unfoldable pub union {ℓ} : {A : Type ℓ} ⦃e : Eq A⦄ → List A → List A → List A
unfolding add
union found [] = found
union found (x ∷ xs) = union (add found x) xs

-- the loop that fetches these URLs and joins what they show
unfoldable pub presence_of :
    Api → ℕ → String → List String → List ℤ × List String → Result (List ℤ × List String)
unfolding get_paginated extract_presence union
presence_of api rounds id_key [] found = ok found
presence_of api rounds id_key (url ∷ urls) (years_found, ids_found) =
    get_paginated api rounds url >>= extract_presence api.py id_key >>= λ batch.
    presence_of api rounds id_key urls (union years_found batch.0, union ids_found batch.1)

unfoldable pub fetch_year_and_municipality_presence :
    Api → ℕ → String → List String → List ℤ → Result (List ℤ × List String)
unfolding presence_of build_data_request_batches data_url
fetch_year_and_municipality_presence api rounds kpi_id municipality_ids years =
    if no_items municipality_ids || no_items years
    then ok ([], [])
    else presence_of api rounds "municipality"
        (map (data_url api kpi_id) (build_data_request_batches municipality_ids years)) ([], [])

unfoldable pub fetch_year_and_ou_presence :
    Api → ℕ → String → List ℤ → Result (List ℤ × List String)
unfolding presence_of ou_data_url
fetch_year_and_ou_presence api rounds kpi_id years =
    if no_items years
    then ok ([], [])
    else presence_of api rounds "ou" (map (ou_data_url api kpi_id) years) ([], [])

-- `{key(x): value(x) for x in xs}`
unfoldable pub dict_from {ℓ} :
    {A : Type ℓ} → (A → String × String) → List A → Dict String String → Dict String String
unfolding insert
dict_from entry [] known = known
dict_from entry (x ∷ xs) known = dict_from entry xs (insert (entry x).0 (entry x).1 known)

abbrev pub municipality_titles : List MunicipalityInfo → Dict String String
municipality_titles ms = dict_from (λ m. (m.municipality_id, m.title)) ms []

unfoldable pub resolve_dataset_dimensions :
    Api → ℕ → KpiInfo → ℕ → KoladaClient → Result (ResolvedDimensions × KoladaClient)
unfolding list_municipalities candidate_municipality_ids probe_year_range dict_from
    build_dataset_dimensions fetch_year_and_municipality_presence
resolve_dataset_dimensions api rounds kpi max_year client =
    list_municipalities api rounds client >>= λ r.
    candidate_municipality_ids kpi.municipality_type r.0 >>= λ candidates.
    fetch_year_and_municipality_presence api rounds kpi.kpi_id candidates
      (probe_year_range max_year)
    >>= λ found.
        build_dataset_dimensions kpi found.0 found.1 (municipality_titles r.0) >>= λ resolved.
        ok (resolved, r.1)

-- `KoladaOrganizationalUnitsClient`: its cache, and the client whose catalogue it uses
pub record OuClient : Type 0 where
  pub ous : Option (List OuInfo)
  pub base : KoladaClient

unfoldable pub list_ous : Api → ℕ → OuClient → Result (List OuInfo × OuClient)
unfolding parsed_items parse_ou get_paginated concat
list_ous api rounds client = elim client.ous [
  | some known ↦ ok (known, client)
  | none ↦ get_paginated api rounds (concat api.base_api_url "/ou") >>= λ raw.
      let ous = parsed_items (parse_ou api.py) raw in ok (ous, record client { ous = some ous })
]

unfoldable pub resolve_ou_dimensions :
    Api → ℕ → KpiInfo → ℕ → OuClient → Result (ResolvedDimensions × OuClient)
unfolding list_ous list_municipalities probe_year_range dict_from build_ou_dataset_dimensions
    fetch_year_and_ou_presence
resolve_ou_dimensions api rounds kpi max_year client = list_ous api rounds client >>= λ o.
    list_municipalities api rounds (o.1).base >>= λ m.
    fetch_year_and_ou_presence api rounds kpi.kpi_id (probe_year_range max_year) >>= λ found.
    build_ou_dataset_dimensions kpi found.0 found.1 (dict_from (λ u. (u.ou_id, u.title)) o.0 [])
      (dict_from (λ u. (u.ou_id, u.municipality_id)) o.0 []) (municipality_titles m.0)
    >>= λ resolved. ok (resolved, record o.1 { base = m.1 })
