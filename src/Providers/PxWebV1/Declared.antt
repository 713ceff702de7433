-- ===== src/Providers/PxWebV1/Declared.antt =====
-- providers/adapters/pxweb_v1/adapter.py: the dimensions of a payload whose variables are taken.
use nordicintel_harvest.Prelude.{true, ◌≡◌, List, map, string_eq, distinct}
use nordicintel_harvest.Prelude.Dict.{keys}
use nordicintel_harvest.Core.Json.{Value}
use nordicintel_harvest.Core.Values.{Builtins}
use nordicintel_harvest.Providers.PxWebV1.Variables.{Variables}
use nordicintel_harvest.Providers.PxWebV1.Read.{code_in, values_in}

-- What so many variables have given: their codes are the ids, in order and none twice, the dimensions
-- are under these, and the categories of each are the codes of the values of its variable.
pub record IsRead (py : Builtins) (variables : List Value) (s : Variables) : Type 0 where
  pub coded : s.dimension_ids ≡ map (code_in py) variables
  pub keyed : keys s.dimensions ≡ s.dimension_ids
  pub categorized : map (λ d. keys d.1.category.label) s.dimensions ≡ map (values_in py) variables
  pub once : distinct s.dimension_ids ≡ true
