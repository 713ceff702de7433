-- ===== src/Providers/PxWebV1/Discovery.antt =====
-- providers/adapters/pxweb_v1/adapter.py: the addresses of the databases, and the candidates that the
-- tables of a database give.
use nordicintel_harvest.Prelude.{
  ℕ, true, false, ◌||◌, String, Option, none, some, List, [], ◌∷◌, ◌++◌, map, string_eq, contains,
  if◌then◌else◌, get_or,
}
use nordicintel_harvest.Prelude.Dict.{Dict, lookup, insert}
use nordicintel_harvest.Prelude.Sets.{list_eq, pair_eq}
use nordicintel_harvest.Prelude.Text.{is_empty, join, rstrip_slash}
use nordicintel_harvest.Core.Errors.{
  Result, ok, err, ◌>>=◌, ◌>>◌, raise_if, for_each, value_error, other_error,
}
use nordicintel_harvest.Core.Json.{Value, str, end}
use nordicintel_harvest.Schemas.Dimensions.{is_blank, no_items}
use nordicintel_harvest.Schemas.Datasets.{PathItem, DatasetPath}
use nordicintel_harvest.Providers.Interface.{DateTime}
use nordicintel_harvest.Providers.Candidates.{FullCandidate}
use nordicintel_harvest.Providers.Common.{Texts, parse_dt}
use nordicintel_harvest.Providers.PxWebV1.Names.{Names, PxWebCategory, PxWebTable, quoted}
use nordicintel_harvest.Providers.PxWebV1.Crawl.{Catalogue, Reply}
use nordicintel_harvest.Providers.PxWebV1.Web.{Website}
use nordicintel_harvest.Providers.PxWebV1.Languages.{Unicode, list_pxweb_tables}

-- The adapter of one provider and language. An empty `base_web_url` is a missing one.
pub record PxWebV1Adapter : Type 0 where
  pub texts : Texts
  pub names : Names
  pub provider_code : String
  pub language : String
  pub db_ids : List String
  pub base_api_url : String
  pub base_web_url : String

-- `_encode_segment` of parsing.py
unfoldable pub encode_segment : Names → String → String
encode_segment n value = quoted n (n.unquote value)

abbrev not_empty_or : String → Option String → String
not_empty_or default none = default
not_empty_or default (some s) = if is_empty s then default else s

unfoldable pub get_root_url : PxWebV1Adapter → String → String → Option String → String
unfolding rstrip_slash join encode_segment
get_root_url a base_api_url db_id language = join "/" (
    rstrip_slash base_api_url
    ∷ not_empty_or a.language language
    ∷ encode_segment a.names db_id
    ∷ [])

unfoldable pub get_web_root_url : PxWebV1Adapter → String → Option String
unfolding rstrip_slash join encode_segment
get_web_root_url a db_id =
    if is_empty a.base_web_url
    then none
    else some (
        join "/"
          (rstrip_slash a.base_web_url ∷ a.language ∷ encode_segment a.names db_id ∷ "" ∷ []))

abbrev pub path_key : PxWebTable → List (String × String)
path_key t = map (λ c. (c.id, c.name)) t.category_path

abbrev path_item : PxWebCategory → PathItem
path_item c = record { code = c.id; label = c.name; extension = end }

-- `DatasetPath.model_validate`: an id or a name that is blank is refused
unfoldable pub path_of : PxWebTable → Result DatasetPath
path_of t =
    for_each (λ c. raise_if (is_blank c.id || is_blank c.name) value_error) t.category_path
    >> ok (record { path = map path_item t.category_path; extension = end })

-- the loop over the occurrences of a table, without the empty paths and those already seen
unfoldable pub occurrence_paths :
    List (List (String × String)) → List PxWebTable → Result (List DatasetPath)
unfolding path_of
occurrence_paths seen_paths [] = ok []
occurrence_paths seen_paths (occurrence ∷ occurrences) =
    let key = path_key occurrence in
    elim (no_items key || contains seen_paths key) [
      | true ↦ occurrence_paths seen_paths occurrences
      | false ↦ path_of occurrence >>= λ path.
          occurrence_paths (seen_paths ++ key ∷ []) occurrences >>= λ paths. ok (path ∷ paths)
    ]

-- `category_path[-1]`
unfoldable pub last_category : List PxWebCategory → Option PxWebCategory
last_category [] = none
last_category (c ∷ []) = some c
last_category (c ∷ d ∷ rest) = last_category (d ∷ rest)

abbrev text_or_null : Option String → Option Value
text_or_null none = none
text_or_null (some s) = some (str s)

-- `parse_dt(canonical.updated) or parse_dt(canonical.published)`
unfoldable pub updated_stamp : Texts → PxWebTable → Result (Option DateTime)
unfolding parse_dt
updated_stamp texts t = parse_dt texts (text_or_null t.updated) >>= λ updated. elim updated [
  | some d ↦ ok (some d)
  | none ↦ parse_dt texts (text_or_null t.published)
]

unfoldable pub occurrence_candidate :
    PxWebV1Adapter → PxWebTable → DateTime → List DatasetPath → FullCandidate
unfolding last_category
occurrence_candidate a canonical updated paths =
    let subject = last_category canonical.category_path in
    record {
      candidate = record {
        provider_code = a.provider_code;
        dataset_code = canonical.id;
        language = a.language;
        updated = some updated;
      };
      label = some (if is_empty canonical.title then canonical.id else canonical.title);
      description = none;
      source = none;
      note = none;
      subject_code = elim subject [ none ↦ none | some c ↦ some c.id ];
      subject_label = elim subject [ none ↦ none | some c ↦ some c.name ];
      time_unit = none;
      first_period = none;
      last_period = none;
      discontinued = none;
      metadata_url = some canonical.api_url;
      data_url = some canonical.api_url;
      web_url = canonical.web_url;
      doc_url = none;
      paths = if no_items paths then none else some paths;
      official_statistics = none;
      contact = none;
      extension = end;
    }

-- `_candidate_from_occurrences`: a table without a time stamp is skipped. There is always a first
-- occurrence; `occurrences[0]` of none would raise.
unfoldable pub candidate_from_occurrences :
    PxWebV1Adapter → List PxWebTable → Result (Option FullCandidate)
unfolding updated_stamp occurrence_paths occurrence_candidate
candidate_from_occurrences a [] = err other_error
candidate_from_occurrences a (canonical ∷ occurrences) =
    updated_stamp a.texts canonical >>= λ stamp. elim stamp [
      | none ↦ ok none
      | some updated ↦ occurrence_paths [] (canonical ∷ occurrences) >>= λ paths.
          ok (some (occurrence_candidate a canonical updated paths))
    ]

-- `by_table_id`
unfoldable pub by_table_id :
    List PxWebTable → Dict String (List PxWebTable) → Dict String (List PxWebTable)
unfolding lookup insert
by_table_id [] groups = groups
by_table_id (entry ∷ entries) groups =
    by_table_id entries (insert entry.id (get_or (lookup entry.id groups) [] ++ entry ∷ []) groups)

-- the loop over the groups: one that raises, or has no time stamp, gives no candidate
unfoldable pub group_candidates :
    PxWebV1Adapter → Dict String (List PxWebTable) → List FullCandidate
unfolding candidate_from_occurrences
group_candidates a [] = []
group_candidates a (group ∷ groups) =
    let rest = group_candidates a groups in
    elim (candidate_from_occurrences a group.1) [
      | err e ↦ rest
      | ok none ↦ rest
      | ok (some discovered) ↦ discovered ∷ rest
    ]

-- The catalogue, the web pages and the search that the listing asks.
pub record Databases : Type 0 where
  pub catalogue : Catalogue
  pub unicode : Unicode
  pub website : Website
  pub search : String → Result Reply

-- what a listing gives: one that raises gives no candidates
unfoldable pub discovered_from : PxWebV1Adapter → Result (List PxWebTable) → List FullCandidate
unfolding by_table_id group_candidates
discovered_from a (err e) = []
discovered_from a (ok entries) = group_candidates a (by_table_id entries [])

-- `_discover_datasets_by_db_id`, where the walk through the navigation may take so many rounds
unfoldable pub discover_datasets_by_db_id :
    PxWebV1Adapter → Databases → ℕ → String → Option (List FullCandidate)
unfolding discovered_from get_root_url get_web_root_url list_pxweb_tables
discover_datasets_by_db_id a d rounds db_id =
    let api_url = get_root_url a a.base_api_url db_id none in
    let c = record d.catalogue { api_url = api_url; web_url = get_web_root_url a db_id } in
    elim (list_pxweb_tables c d.unicode d.website (d.search api_url) rounds) [
      | none ↦ none
      | some entries ↦ some (discovered_from a entries)
    ]

unfoldable pub join_lists : List (List FullCandidate) → List FullCandidate
join_lists [] = []
join_lists (l ∷ ls) = l ++ join_lists ls

-- the loop over the databases
unfoldable pub discover_databases :
    PxWebV1Adapter → Databases → ℕ → List String → Option (List (List FullCandidate))
unfolding discover_datasets_by_db_id
discover_databases a d rounds [] = some []
discover_databases a d rounds (db_id ∷ db_ids) =
    let rest = discover_databases a d rounds db_ids in
    elim (discover_datasets_by_db_id a d rounds db_id) [
      | none ↦ none
      | some found ↦ elim rest [ none ↦ none | some others ↦ some (found ∷ others) ]
    ]

-- `_discover_candidates`
unfoldable pub discovered_candidates : PxWebV1Adapter → Databases → ℕ → Option (List FullCandidate)
unfolding discover_databases join_lists
discovered_candidates a d rounds =
    if is_empty a.base_api_url then some [] else elim (discover_databases a d rounds a.db_ids) [
      | none ↦ none
      | some found ↦ some (join_lists found)
    ]
