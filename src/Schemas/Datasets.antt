-- ===== src/Schemas/Datasets.antt =====
-- schemas/datasets.py: the documents of a dataset and the validators of their shape. The JSON
-- schema check, `validate_contract`, is a parameter: the schema library is not part of the program.
use nordicintel_harvest.Prelude.{
  ℕ, suc, Bool, not, String, Option, none, some, List, [], ◌∷◌, string_eq, contains, distinct, any,
  is_some,
}
use nordicintel_harvest.Prelude.Int.{ℤ, int_eq, pos}
use nordicintel_harvest.Prelude.Dict.{Dict, keys, lookup, insert}
use nordicintel_harvest.Prelude.Text.{is_empty}
use nordicintel_harvest.Prelude.Sort.{sorted}
use nordicintel_harvest.Prelude.Sets.{list_beq, same_set}
use nordicintel_harvest.Core.Errors.{
  Result, ok, err, ◌>>=◌, ◌>>◌, raise_if, if_some, value_error, key_error,
}
use nordicintel_harvest.Core.Json.{Fields}
use nordicintel_harvest.Providers.Interface.{Identity}
use nordicintel_harvest.Schemas.Dimensions.{no_items, leb_ℤ, DatasetDimension, DatasetRole}

pub record PathItem : Type 0 where
  pub code : String
  pub label : String
  pub extension : Fields

pub record DatasetPath : Type 0 where
  pub path : List PathItem
  pub extension : Fields

pub record DatasetContact : Type 0 where
  pub raw : Option String
  pub mail : Option String
  pub name : Option String
  pub phone : Option String
  pub organization : Option String
  pub extension : Fields

pub record DatasetSubject : Type 0 where
  pub code : Option String
  pub label : Option String
  pub extension : Fields

unfoldable pub require_description : DatasetSubject → Result DatasetSubject
require_description s = elim s.code [
  | some code ↦ ok s
  | none ↦ raise_if (not (is_some s.label)) value_error >> ok s
]

pub data Retrieval : Type 0 where
  pxweb_v1 pxweb_v2 : String → Fields → Retrieval
  kolada : Fields → Retrieval

pub record DatasetMetadata : Type 0 where
  pub identity : Identity
  pub id : List String
  pub dimension : Dict String DatasetDimension
  pub role : Option DatasetRole
  pub subject : Option DatasetSubject
  pub paths : Option (List DatasetPath)
  pub official_statistics : Option Bool
  pub source : Option String
  pub note : Option (List String)
  pub contact : Option (List DatasetContact)
  pub metadata_url : Option String
  pub retrieval : Option Retrieval
  pub extension : Fields

-- `{dimension_id: index for index, dimension_id in enumerate(ids, start)}`; a repeated id keeps
-- its place and takes the later index
unfoldable pub positions_from : ℕ → List String → Dict String ℤ → Dict String ℤ
unfolding insert
positions_from start [] d = d
positions_from start (x ∷ xs) d = positions_from (suc start) xs (insert x (pos start) d)

-- `[positions[value] for value in values]`
unfoldable pub role_positions : Dict String ℤ → List String → Result (List ℤ)
unfolding lookup
role_positions positions [] = ok []
role_positions positions (x ∷ xs) =
    let rest = role_positions positions xs in
    elim (lookup x positions) [ none ↦ err key_error | some i ↦ rest >>= λ is. ok (i ∷ is) ]

-- the loop that enters each dimension of a role into `assigned`
unfoldable pub assign : String → List String → Dict String String → Result (Dict String String)
unfolding lookup insert
assign role_name [] assigned = ok assigned
assign role_name (x ∷ xs) assigned =
    let rest = assign role_name xs (insert x role_name assigned) in
    elim (lookup x assigned) [ none ↦ rest | some previous ↦ err value_error ]

-- one turn of the loop over the roles
unfoldable pub place_role :
    Dict String ℤ → String → Option (List String) → Dict String String → Result (Dict String String)
unfolding role_positions assign sorted
place_role positions role_name none assigned = ok assigned
place_role positions role_name (some ids) assigned =
    raise_if (any (λ x. not (contains (keys positions) x)) ids) value_error
    >> role_positions positions ids
    >>= λ found.
        raise_if (not (list_beq found (sorted leb_ℤ found))) value_error
        >> assign role_name ids assigned

unfoldable pub place_roles : List String → DatasetRole → Result (Dict String String)
unfolding place_role positions_from
place_roles ids role =
    let positions = positions_from 0 ids [] in
    place_role positions "time" role.time []
    >>= place_role positions "geo" role.geo
    >>= place_role positions "metric" role.metric

unfoldable pub validate_dimension_structure : DatasetMetadata → Result DatasetMetadata
unfolding place_roles
validate_dimension_structure m =
    raise_if (no_items m.id) value_error
    >> raise_if (any is_empty m.id) value_error
    >> raise_if (not (distinct m.id)) value_error
    >> raise_if (not (same_set (keys m.dimension) m.id)) value_error
    >> if_some m.role (λ role. place_roles m.id role >>= λ assigned. ok tt)
    >> ok m
