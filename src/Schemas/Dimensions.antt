-- ===== src/Schemas/Dimensions.antt =====
-- schemas/dimensions.py: the dimensions of a dataset, and what the validators refuse. The patterns
-- and bounds of the fields are part of the types.
use nordicintel_harvest.Prelude.{
  string_eq, ℕ, Bool, String, Option, List, ◌==◌, contains, distinct, any, length, not, [], ◌∷◌,
  true, false,
}
use nordicintel_harvest.Prelude.Int.{ℤ, int_eq, ltb_ℤ}
use nordicintel_harvest.Prelude.Dict.{Dict, keys, values}
use nordicintel_harvest.Prelude.Text.{strip, is_empty}
use nordicintel_harvest.Prelude.Sort.{sorted}
use nordicintel_harvest.Prelude.Sets.{list_beq, same_set, range}
use nordicintel_harvest.Core.Errors.{Result, ok, ◌>>◌, raise_if, for_each, if_some, value_error}
use nordicintel_harvest.Core.Json.{Value, Fields}

-- `not xs`
abbrev pub no_items {ℓ} : {A : Type ℓ} → List A → Bool
no_items [] = true
no_items (x ∷ xs) = false

-- `a <= b` on integers
abbrev pub leb_ℤ : ℤ → ℤ → Bool
leb_ℤ a b = not (ltb_ℤ b a)

abbrev pub is_blank : String → Bool
is_blank s = is_empty (strip s)

unfoldable pub require_non_empty_keys {ℓ} : {V : Type ℓ} → Dict String V → Result (Unit {0})
require_non_empty_keys mapping = raise_if (any is_blank (keys mapping)) value_error

pub data Position : Type 0 where
  at_start at_end : Position

pub record CategoryUnit : Type 0 where
  pub label : Option String
  pub symbol : Option String
  pub position : Option Position
  pub decimals : Option ℕ
  pub extension : Fields

pub record DimensionCategory : Type 0 where
  pub index : Dict String ℤ
  pub label : Dict String String
  pub child : Option (Dict String (List String))
  pub coordinates : Option (Dict String (Value × Value))
  pub unit : Option (Dict String CategoryUnit)
  pub note : Option (Dict String (List String))
  pub extension : Fields

-- the inner loop over the children of one parent
unfoldable pub validate_child : List String → String → String → Result (Unit {0})
validate_child valid_keys parent child =
    raise_if (not (contains valid_keys child)) value_error >> raise_if (child == parent) value_error

unfoldable pub validate_children : List String → String × List String → Result (Unit {0})
unfolding validate_child
validate_children valid_keys (parent, children) =
    raise_if (not (contains valid_keys parent)) value_error
    >> raise_if (not (distinct children)) value_error
    >> for_each (validate_child valid_keys parent) children

-- the loops over the keys of `coordinates`, `unit` and `note`
unfoldable pub require_known_keys {ℓ} :
    {V : Type ℓ} → List String → Dict String V → Result (Unit {0})
require_known_keys valid_keys mapping =
    for_each (λ key. raise_if (not (contains valid_keys key)) value_error) (keys mapping)

-- the checks on `index` and `label`
unfoldable pub validate_index : DimensionCategory → Result (Unit {0})
unfolding require_non_empty_keys sorted range
validate_index c =
    raise_if (no_items c.index) value_error
    >> require_non_empty_keys c.index
    >> require_non_empty_keys c.label
    >> raise_if (not (same_set (keys c.index) (keys c.label))) value_error
    >> raise_if (not (distinct (values c.index))) value_error
    >> raise_if (not (list_beq (sorted leb_ℤ (values c.index)) (range 0 (length (values c.index)))))
        value_error
    >> raise_if (any is_blank (values c.label)) value_error

unfoldable pub validate_category : DimensionCategory → Result DimensionCategory
unfolding validate_index validate_children require_known_keys
validate_category c =
    validate_index c
    >> if_some c.child (for_each (validate_children (keys c.index)))
    >> if_some c.coordinates (require_known_keys (keys c.index))
    >> if_some c.unit (require_known_keys (keys c.index))
    >> if_some c.note (require_known_keys (keys c.index))
    >> ok c

pub record DatasetDimension : Type 0 where
  pub label : String
  pub category : DimensionCategory
  pub note : Option (List String)
  pub extension : Fields
  pub link : Option Fields

unfoldable pub validate_dimension : DatasetDimension → Result DatasetDimension
validate_dimension d = raise_if (is_blank d.label) value_error >> ok d

pub record DatasetRole : Type 0 where
  pub time : Option (List String)
  pub geo : Option (List String)
  pub metric : Option (List String)

unfoldable pub validate_role : DatasetRole → Result DatasetRole
validate_role r =
    for_each
      (λ values_of_role. if_some values_of_role (λ ids. raise_if (not (distinct ids)) value_error))
      (r.time ∷ r.geo ∷ r.metric ∷ [])
    >> ok r
