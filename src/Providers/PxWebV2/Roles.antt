-- ===== src/Providers/PxWebV2/Roles.antt =====
-- providers/adapters/pxweb_v2/parsing.py: the roles of the dimensions, in the provider's order.
use nordicintel_harvest.Prelude.{
  Bool, false, not, String, Option, none, some, List, [], ◌∷◌, ◌++◌, string_eq, ◌==◌, if◌then◌else◌,
}
use nordicintel_harvest.Prelude.Dict.{Dict, lookup, insert}
use nordicintel_harvest.Prelude.Text.{strip, is_empty}
use nordicintel_harvest.Core.Errors.{Result, ok, ◌>>=◌, ◌>>◌, raise_if, value_error}
use nordicintel_harvest.Core.Json.{Value, arr, obj, Fields, get, items}
use nordicintel_harvest.Core.Values.{Builtins, text_of}
use nordicintel_harvest.Schemas.Dimensions.{no_items, DatasetRole, validate_role}
use nordicintel_harvest.Providers.Common.Extras.{or_none}

-- the ids that a role has so far, and the role that each known id has
abbrev pub Assigned : Type 0
Assigned = Dict String String

-- `existing is not None and existing != key`
abbrev pub is_taken : Option String → String → Bool
is_taken none key = false
is_taken (some existing) key = not (existing == key)

-- the loop over the values of one role
unfoldable pub assign_values :
    Builtins → String → List Value → Assigned → Result (List String × Assigned)
unfolding text_of strip lookup insert
assign_values py key [] assigned = ok ([], assigned)
assign_values py key (value ∷ values) assigned =
    let dimension_id = strip (text_of py value) in
    let skipped = assign_values py key values assigned in
    let taken = assign_values py key values (insert dimension_id key assigned) in
    if is_empty dimension_id
    then skipped
    else raise_if (is_taken (lookup dimension_id assigned) key) value_error >> taken >>= λ r.
        ok (dimension_id ∷ r.0, r.1)

-- the values of a bucket; one that is no list is left out
unfoldable pub bucket_values : Option Value → List Value
unfolding items
bucket_values (some (arr l)) = items l
bucket_values _ = []

-- one turn of the loop over the roles
unfoldable pub assign_bucket :
    Builtins → String → Fields → Assigned → Result (List String × Assigned)
unfolding assign_values bucket_values get
assign_bucket py key raw_role assigned =
    assign_values py key (bucket_values (get key raw_role)) assigned

-- `DatasetRole.model_validate(roles) if roles else None`; a role without ids is left out
unfoldable pub role_of : List String → List String → List String → Result (Option DatasetRole)
unfolding validate_role
role_of time geo metric =
    if no_items (time ++ geo ++ metric)
    then ok none
    else validate_role (record { time = or_none time; geo = or_none geo; metric = or_none metric })
      >>= λ role. ok (some role)

unfoldable pub normalize_role : Builtins → Option Value → Result (Option DatasetRole)
unfolding assign_bucket role_of
normalize_role py (some (obj raw_role)) = assign_bucket py "time" raw_role [] >>= λ t.
    assign_bucket py "geo" raw_role t.1 >>= λ g.
    assign_bucket py "metric" raw_role g.1 >>= λ m. role_of t.0 g.0 m.0
normalize_role py _ = ok none
