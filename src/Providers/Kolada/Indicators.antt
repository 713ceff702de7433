-- ===== src/Providers/Kolada/Indicators.antt =====
-- providers/adapters/kolada/client.py: the indicators with the groups they belong to, and the caches
-- of a client. A lock keeps the calls of a cache apart, so that it is filled once.
use nordicintel_harvest.Prelude.{
  ℕ, Bool, not, ◌&&◌, String, Option, none, some, List, [], ◌∷◌, map, string_eq, ◌==◌, keep,
  if◌then◌else◌, get_or,
}
use nordicintel_harvest.Prelude.Int.{int_eq}
use nordicintel_harvest.Prelude.Dict.{Dict, values, lookup, insert}
use nordicintel_harvest.Prelude.Text.{concat, is_empty, text_leb}
use nordicintel_harvest.Prelude.Sort.{sorted}
use nordicintel_harvest.Prelude.Sets.{list_beq}
use nordicintel_harvest.Core.Errors.{Result, ok, ◌>>=◌, ◌>>◌, raise_if, value_error}
use nordicintel_harvest.Core.Json.{Fields}
use nordicintel_harvest.Core.Values.{stripped}
use nordicintel_harvest.Providers.Kolada.Parsing.{
  KpiGroup, KpiInfo, MunicipalityInfo, parse_kpi_group,
}
use nordicintel_harvest.Providers.Kolada.Catalogue.{parse_kpi}
use nordicintel_harvest.Providers.Kolada.Client.{Api, get_paginated}

-- `KoladaClient`: the caches, and `_kpis_by_id` with them
pub record KoladaClient : Type 0 where
  pub kpis : Option (List KpiInfo)
  pub kpis_by_id : Dict String KpiInfo
  pub municipalities : Option (List MunicipalityInfo)

abbrev pub fresh_client : KoladaClient
fresh_client = record { kpis = none; kpis_by_id = []; municipalities = none }

-- `previous != group`, negated
unfoldable pub same_group : KpiGroup → KpiGroup → Bool
same_group g h =
    g.group_id == h.group_id && g.title == h.title && list_beq g.member_ids h.member_ids

-- `groups[group.group_id] = group`, unless another group has the id
unfoldable pub put_group : KpiGroup → Dict String KpiGroup → Result (Dict String KpiGroup)
unfolding same_group lookup insert
put_group group groups = elim (lookup group.group_id groups) [
  | none ↦ ok (insert group.group_id group groups)
  | some previous ↦
      raise_if (not (same_group previous group)) value_error
      >> ok (insert group.group_id group groups)
]

unfoldable pub collect_groups : List Fields → Dict String KpiGroup → Result (Dict String KpiGroup)
unfolding put_group parse_kpi_group
collect_groups [] groups = ok groups
collect_groups (raw ∷ rest) groups =
    parse_kpi_group raw >>= λ group. put_group group groups >>= collect_groups rest

abbrev pub Index : Type 0
Index = Dict String (Dict String KpiGroup)

-- the loop over the members of one group; an unknown member is logged and left out
unfoldable pub index_members : KpiGroup → List String → Index → Index
unfolding lookup insert
index_members group [] indexed = indexed
index_members group (member_id ∷ member_ids) indexed =
    index_members group member_ids (elim (lookup member_id indexed) [
      | none ↦ indexed
      | some of_member ↦ insert member_id (insert group.group_id group of_member) indexed
    ])

unfoldable pub index_groups : List KpiGroup → Index → Index
unfolding index_members
index_groups [] indexed = indexed
index_groups (group ∷ groups) indexed =
    index_groups groups (index_members group group.member_ids indexed)

-- by `(g.title, g.group_id)`
unfoldable pub group_leb : KpiGroup → KpiGroup → Bool
unfolding text_leb
group_leb g h =
    if g.title == h.title then text_leb g.group_id h.group_id else text_leb g.title h.title

-- `replace(kpi, groups=...)`; every indicator has an entry in the index
unfoldable pub with_groups : Index → KpiInfo → KpiInfo
unfolding lookup group_leb sorted
with_groups indexed kpi = record kpi {
  groups = sorted group_leb (values (get_or (lookup kpi.kpi_id indexed) []));
}

unfoldable pub by_id : List KpiInfo → Dict String KpiInfo → Dict String KpiInfo
unfolding insert
by_id [] known = known
by_id (kpi ∷ kpis) known = by_id kpis (insert kpi.kpi_id kpi known)

unfoldable pub empty_index : List KpiInfo → Index → Index
unfolding insert
empty_index [] indexed = indexed
empty_index (kpi ∷ kpis) indexed = empty_index kpis (insert kpi.kpi_id [] indexed)

unfoldable pub list_kpis : Api → ℕ → KoladaClient → Result (List KpiInfo × KoladaClient)
unfolding get_paginated parse_kpi stripped collect_groups empty_index index_groups with_groups by_id
    concat
list_kpis api rounds client = elim client.kpis [
  | some known ↦ ok (known, client)
  | none ↦ get_paginated api rounds (concat api.base_api_url "/kpi") >>= λ raw.
      get_paginated api rounds (concat api.base_api_url "/kpi_groups") >>= λ raw_groups.
      collect_groups raw_groups [] >>= λ groups.
      let kpis =
        map (parse_kpi api.py) (keep (λ item. not (is_empty (stripped api.py "id" "" item))) raw) in
      let indexed = index_groups (values groups) (empty_index kpis []) in
      let enriched = map (with_groups indexed) kpis in
      ok (
        enriched,
        record {
          kpis = some enriched;
          kpis_by_id = by_id enriched [];
          municipalities = client.municipalities;
        },
      )
]

unfoldable pub get_kpi : Api → ℕ → String → KoladaClient → Result (Option KpiInfo × KoladaClient)
unfolding list_kpis lookup
get_kpi api rounds kpi_id client = elim client.kpis [
  | some known ↦ ok (lookup kpi_id client.kpis_by_id, client)
  | none ↦ list_kpis api rounds client >>= λ r. ok (lookup kpi_id r.1.kpis_by_id, r.1)
]
