-- ===== src/Providers/Kolada/Dimensions.antt =====
-- providers/adapters/kolada/parsing.py: the dimensions of a dataset, from the years and the areas or
-- units that carry a value.
use nordicintel_harvest.Prelude.{
  true, false, ◌||◌, String, none, some, List, [], ◌∷◌, ◌++◌, map, string_eq, get_or, if◌then◌else◌,
}
use nordicintel_harvest.Prelude.Int.{ℤ, pos}
use nordicintel_harvest.Prelude.Dict.{Dict, lookup}
use nordicintel_harvest.Prelude.Text.{decimal, text_leb}
use nordicintel_harvest.Prelude.Sort.{sorted}
use nordicintel_harvest.Core.Errors.{Result, ok, ◌>>=◌, ◌>>◌, raise_if, value_error}
use nordicintel_harvest.Core.Json.{bool, str, obj, Fields, end, field}
use nordicintel_harvest.Schemas.Dimensions.{
  no_items, leb_ℤ, DimensionCategory, DatasetDimension, DatasetRole, validate_category,
  validate_dimension, validate_role,
}
use nordicintel_harvest.Schemas.Datasets.{positions_from}
use nordicintel_harvest.Providers.Kolada.Parsing.{KpiInfo}

-- a category of the codes, in their order
abbrev pub category_of : List String → (String → String) → DimensionCategory
category_of codes label = record {
  index = positions_from 0 codes [];
  label = map (λ code. (code, label code)) codes;
  child = none;
  coordinates = none;
  unit = none;
  note = none;
  extension = end;
}

unfoldable pub build_dimension :
    String → Fields → List String → (String → String) → Result DatasetDimension
unfolding validate_category validate_dimension positions_from
build_dimension name extension codes label =
    validate_category (category_of codes label) >>= λ category.
    validate_dimension (record {
      label = name;
      category = category;
      note = none;
      extension = extension;
      link = none;
    })

unfoldable pub title_in : Dict String String → String → String
unfolding lookup
title_in titles code = get_or (lookup code titles) code

unfoldable pub build_municipality_dimension :
    List String → Dict String String → Result DatasetDimension
unfolding build_dimension title_in sorted text_leb
build_municipality_dimension municipality_ids titles =
    build_dimension "Kommun" (field "elimination" (bool false) end)
      (sorted text_leb municipality_ids) (title_in titles)

unfoldable pub build_ou_dimension :
    List String → Dict String String → Fields → Result DatasetDimension
unfolding build_dimension title_in sorted text_leb
build_ou_dimension ou_ids titles extension =
    build_dimension "Enhet"
      (field "elimination" (bool false) (field "category" (obj extension) end))
      (sorted text_leb ou_ids) (title_in titles)

unfoldable pub build_year_dimension : List ℤ → Result DatasetDimension
unfolding build_dimension sorted decimal
build_year_dimension years =
    build_dimension "År" (field "elimination" (bool false) end) (map decimal (sorted leb_ℤ years))
      (λ code. code)

abbrev pub gender_labels : Dict String String
gender_labels = ("K", "Kvinnor") ∷ ("M", "Män") ∷ ("T", "Totalt") ∷ []

abbrev pub gender_order : List String
gender_order = "K" ∷ "M" ∷ "T" ∷ []

unfoldable pub build_gender_dimension : Result DatasetDimension
unfolding build_dimension title_in
build_gender_dimension =
    build_dimension "Kön" (field "elimination" (bool true) end) gender_order
      (title_in gender_labels)

pub record ResolvedDimensions : Type 0 where
  pub first_period : String
  pub last_period : String
  pub id : List String
  pub role : DatasetRole
  pub dimension : Dict String DatasetDimension

-- `xs[0]` and `xs[-1]` of a list that is not empty; the default is never taken
abbrev pub first_of : List ℤ → ℤ
first_of [] = pos 0
first_of (y ∷ ys) = y

abbrev pub last_of : List ℤ → ℤ
last_of [] = pos 0
last_of (y ∷ []) = y
last_of (y ∷ z ∷ ys) = last_of (z ∷ ys)

-- the dimensions under their names, with the gender where the indicator is divided by it
unfoldable pub assemble :
    KpiInfo → List ℤ → String → DatasetDimension → DatasetDimension → Result ResolvedDimensions
unfolding build_gender_dimension sorted decimal validate_role
assemble kpi years name entities year =
    (if kpi.is_divided_by_gender
      then (build_gender_dimension >>= λ gender. ok (("gender", gender) ∷ []))
      else ok [])
    >>= λ gender.
        validate_role (record { time = some ("year" ∷ []); geo = some (name ∷ []); metric = none })
        >>= λ role. ok (record {
          first_period = decimal (first_of (sorted leb_ℤ years));
          last_period = decimal (last_of (sorted leb_ℤ years));
          id = (name ∷ "year" ∷ []) ++ map (λ d. d.0) gender;
          role = role;
          dimension = ((name, entities) ∷ ("year", year) ∷ []) ++ gender;
        })

unfoldable pub build_dataset_dimensions :
    KpiInfo → List ℤ → List String → Dict String String → Result ResolvedDimensions
unfolding build_municipality_dimension build_year_dimension assemble
build_dataset_dimensions kpi all_years all_municipality_ids municipality_titles =
    raise_if (no_items all_years || no_items all_municipality_ids) value_error
    >> build_municipality_dimension all_municipality_ids municipality_titles
    >>= λ municipality.
        build_year_dimension all_years >>= assemble kpi all_years "municipality" municipality

-- the extension of each unit: its municipality, and the title of that
unfoldable pub build_ou_municipality_extension :
    List String → Dict String String → Dict String String → Fields
unfolding title_in lookup
build_ou_municipality_extension [] ou_municipality_ids municipality_titles = end
build_ou_municipality_extension (ou_id ∷ ou_ids) ou_municipality_ids municipality_titles =
    let municipality_id = get_or (lookup ou_id ou_municipality_ids) "" in
    field ou_id
      (obj (
        field "municipality_id" (str municipality_id)
          (field "municipality_label" (str (title_in municipality_titles municipality_id)) end)))
      (build_ou_municipality_extension ou_ids ou_municipality_ids municipality_titles)

unfoldable pub build_ou_dataset_dimensions :
    KpiInfo
    → List ℤ
    → List String
    → Dict String String
    → Dict String String
    → Dict String String
    → Result ResolvedDimensions
unfolding build_ou_dimension build_ou_municipality_extension build_year_dimension assemble sorted
    text_leb
build_ou_dataset_dimensions kpi all_years all_ou_ids ou_titles ou_municipality_ids
      municipality_titles =
    raise_if (no_items all_years || no_items all_ou_ids) value_error
    >> build_ou_dimension all_ou_ids ou_titles (
        build_ou_municipality_extension (sorted text_leb all_ou_ids) ou_municipality_ids
          municipality_titles)
    >>= λ ou. build_year_dimension all_years >>= assemble kpi all_years "ou" ou
