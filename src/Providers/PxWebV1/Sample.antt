-- ===== src/Providers/PxWebV1/Sample.antt =====
-- providers/adapters/pxweb_v1/enrichment.py: the values that the sample request asks for.
use nordicintel_harvest.Prelude.{
  ℕ, ◌*◌, ◌/◌, String, none, some, List, [], ◌∷◌, ◌++◌, map, string_eq, take, length, leb,
  if◌then◌else◌,
}
use nordicintel_harvest.Prelude.Int.{ℤ}
use nordicintel_harvest.Prelude.Dict.{Dict, lookup}
use nordicintel_harvest.Prelude.Sort.{sorted}
use nordicintel_harvest.Schemas.Dimensions.{leb_ℤ, DatasetDimension}
use nordicintel_harvest.Core.Errors.{Result, ok, err, ◌>>=◌, key_error}

-- the values that are asked for in each dimension
abbrev pub Selection : Type 0
Selection = List (String × List String)

-- `sorted(index, key=index.__getitem__)[:2]`
unfoldable pub first_two : Dict String ℤ → List String
unfolding sorted
first_two index = take 2 (map (λ e. e.0) (sorted (λ a b. leb_ℤ a.1 b.1) index))

unfoldable pub selection_of : Dict String DatasetDimension → List String → Result Selection
unfolding first_two lookup
selection_of dimensions [] = ok []
selection_of dimensions (code ∷ ids) =
    let rest = selection_of dimensions ids in
    elim (lookup code dimensions) [
      | none ↦ err key_error
      | some d ↦ rest >>= λ others. ok ((code, first_two d.category.index) ∷ others)
    ]

-- `prod(map(len, selection.values()))`
unfoldable pub cells_in : Selection → ℕ
cells_in [] = 1
cells_in ((code, values) ∷ selection) = length values * cells_in selection

-- the loop, over the dimensions from the last to the first
unfoldable pub shrink : ℕ → Selection → ℕ → Selection
shrink cell_limit [] cells = []
shrink cell_limit ((code, values) ∷ earlier) cells =
    let rest = shrink cell_limit earlier (cells / length values) in
    if leb cells cell_limit then (code, values) ∷ earlier else (code, take 1 values) ∷ rest

-- `reversed`
unfoldable pub reversed : Selection → Selection
reversed [] = []
reversed (e ∷ selection) = reversed selection ++ e ∷ []

unfoldable pub sample_selection : ℕ → Selection → Selection
unfolding reversed shrink cells_in
sample_selection cell_limit selection =
    reversed (shrink cell_limit (reversed selection) (cells_in selection))
