-- ===== src/Providers/Kolada/Metadata.antt =====
-- providers/adapters/kolada/parsing.py: the source of an indicator and its listing metadata. What the
-- regular expressions match is a parameter.
use nordicintel_harvest.Prelude.{
  ℕ, Bool, false, ◌&&◌, ◌||◌, String, Option, none, some, List, [], ◌∷◌, ◌++◌, map, string_eq, ◌==◌,
  if◌then◌else◌,
}
use nordicintel_harvest.Prelude.Int.{ℤ}
use nordicintel_harvest.Prelude.Text.{strip, is_empty, concat, drop_text, take_text, rstrip_dot}
use nordicintel_harvest.Core.Json.{
  Value, bool, num, str, arr, obj, Items, nil, cons, Fields, end, field,
}
use nordicintel_harvest.Schemas.Dimensions.{leb_ℤ}
use nordicintel_harvest.Schemas.Datasets.{PathItem, DatasetPath}
use nordicintel_harvest.Providers.Kolada.Parsing.{KpiGroup, KpiInfo, normalize_text}

-- a match of `[.!?](?=\s|$)`: where it starts and ends, and its text
pub record Boundary : Type 0 where
  pub start : ℕ
  pub finish : ℕ
  pub group : String

-- The matches of the patterns: the ends of those of `_SOURCE_RE`, the boundaries, whether
-- `_ABBREVIATION_RE` matches, and the year of `_DISCONTINUED_YEAR_RE`; and `quote(s, safe="")`.
pub record Patterns : Type 0 where
  pub source_ends : String → List ℕ
  pub boundaries : String → List Boundary
  pub is_abbreviation : String → Bool
  pub discontinued_year : String → Option ℤ
  pub quote : String → String

-- the loop over the boundaries: the source up to the first that ends the sentence
unfoldable pub cut_at : Patterns → String → List Boundary → String
unfolding take_text
cut_at p source [] = source
cut_at p source (b ∷ bs) =
    let rest = cut_at p source bs in
    if b.group == "." && p.is_abbreviation (take_text b.finish source)
    then rest
    else take_text b.start source

abbrev last_end : ℕ → List ℕ → ℕ
last_end n [] = n
last_end n (m ∷ ms) = last_end m ms

-- the source that one text names, if it names one
unfoldable pub source_in : Patterns → Option String → Option String
unfolding normalize_text cut_at drop_text strip rstrip_dot
source_in p none = none
source_in p (some raw) =
    let text = normalize_text raw in
    elim (p.source_ends text) [
      | [] ↦ none
      | first ∷ rest ↦
          let clause = strip (drop_text (last_end first rest) text) in
          let source = strip (rstrip_dot (strip (cut_at p clause (p.boundaries clause)))) in
          if is_empty raw || is_empty source then none else some source
    ]

unfoldable pub extract_kpi_source : Patterns → Option String → String → String × String
unfolding source_in
extract_kpi_source p description title = elim (source_in p description) [
  | some source ↦ (source, "description")
  | none ↦ elim (source_in p (some title)) [
    | some source ↦ (source, "title")
    | none ↦ ("Kolada", "fallback")
  ]
]

pub record KpiMetadata : Type 0 where
  pub label : String
  pub description : Option String
  pub source : String
  pub subject_code : Option String
  pub subject_label : Option String
  pub paths : Option (List DatasetPath)
  pub discontinued : Bool
  pub extension : Fields

abbrev plain_item : String → String → PathItem
plain_item code label = record { code = code; label = label; extension = end }

abbrev path_of : PathItem → PathItem → DatasetPath
path_of a b = record { path = a ∷ b ∷ []; extension = end }

-- the subject code, with the area it is made of
unfoldable pub subject_code_of : Patterns → Option String → Option String
unfolding concat
subject_code_of p none = none
subject_code_of p (some operating_area) =
    if is_empty operating_area
    then none
    else some (concat "kolada:operating_area:" (p.quote operating_area))

abbrev area_path : Option String → Option String → List DatasetPath
area_path (some subject_code) (some operating_area) =
    path_of (plain_item "kolada:operating_area" "Verksamhetsområde")
      (plain_item subject_code operating_area)
    ∷ []
area_path _ operating_area = []

abbrev group_path : KpiGroup → DatasetPath
group_path g =
    path_of (plain_item "kolada:kpi_group" "Nyckeltalsgrupp") (plain_item g.group_id g.title)

-- the paths, or none where there are none
unfoldable pub paths_of : Patterns → KpiInfo → Option (List DatasetPath)
unfolding subject_code_of
paths_of p kpi =
    elim (area_path (subject_code_of p kpi.operating_area) kpi.operating_area
      ++ map group_path kpi.groups) [ [] ↦ none | path ∷ paths ↦ some (path ∷ paths) ]

-- an item of `extra`, if its value is not `None`
abbrev with_value : String → Option Value → Fields → Fields
with_value key none o = o
with_value key (some v) o = field key v o

abbrev as_value : Option String → Option Value
as_value none = none
as_value (some s) = some (str s)

unfoldable pub groups_value : List KpiGroup → Items
groups_value [] = nil
groups_value (g ∷ gs) =
    cons (obj (field "id" (str g.group_id) (field "title" (str g.title) end))) (groups_value gs)

abbrev year_value : Option ℤ → Option Value
year_value none = none
year_value (some year) = some (num year)

-- `extra`, in the order of its names
unfoldable pub extra_of : KpiInfo → String → Option ℤ → Fields
unfolding groups_value
extra_of kpi source_origin discontinued_year =
    with_value "operating_area" (as_value kpi.operating_area) (
      with_value "perspective" (as_value kpi.perspective) (
        with_value "auspice" (as_value kpi.auspice) (
          field "municipality_type" (str kpi.municipality_type) (
            field "has_ou_data" (bool kpi.has_ou_data) (
              field "is_divided_by_gender" (bool kpi.is_divided_by_gender) (
                with_value "publ_period" kpi.publ_period (
                  with_value "publication_date" kpi.publication_date (
                    with_value "prel_publication_date" kpi.prel_publication_date (
                      with_value "raw_description" (as_value kpi.raw_description) (
                        field "source_origin" (str source_origin) (
                          field "kpi_groups" (arr (groups_value kpi.groups)) (
                            with_value "discontinued_year" (year_value discontinued_year)
                              end))))))))))))

abbrev is_over : Option ℤ → ℤ → Bool
is_over none year = false
is_over (some discontinued_year) year = leb_ℤ discontinued_year year

unfoldable pub kpi_metadata : Patterns → KpiInfo → ℤ → KpiMetadata
unfolding extract_kpi_source subject_code_of paths_of extra_of
kpi_metadata p kpi year =
    let source = extract_kpi_source p kpi.description kpi.title in
    let discontinued_year = p.discontinued_year kpi.title in
    record {
      label = kpi.title;
      description = kpi.description;
      source = source.0;
      subject_code = subject_code_of p kpi.operating_area;
      subject_label = kpi.operating_area;
      paths = paths_of p kpi;
      discontinued = is_over discontinued_year year;
      extension = field "kolada" (obj (extra_of kpi source.1 discontinued_year)) end;
    }
