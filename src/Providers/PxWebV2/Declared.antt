-- ===== src/Providers/PxWebV2/Declared.antt =====
-- providers/adapters/pxweb_v2/parsing.py: what holds of the dimensions that `build_dimensions` returns.
use nordicintel_harvest.Prelude.{
  true, false, not, ◌||◌, ◌≡◌, sym, ap, ◌∙◌, String, Option, none, some, List, [], ◌∷◌, arith,
  string_eq, distinct, any,
}
use nordicintel_harvest.Prelude.Dict.{Dict, keys}
use nordicintel_harvest.Prelude.Text.{is_empty}
use nordicintel_harvest.Prelude.Sets.{same_set, is_subset}
use nordicintel_harvest.Core.Errors.{
  Result, ok, err, ◌>>=◌, ◌>>◌, raise_if, value_error, raise_if-ok, raise_if-clear, checked-ok,
  >>=-eq-ok, ok-injective,
}
use nordicintel_harvest.Core.Json.{Value, arr, obj, Fields, Items, get, items}
use nordicintel_harvest.Schemas.Dimensions.{no_items, DatasetDimension}
use nordicintel_harvest.Schemas.Ordinals.{clear, not-false}
use nordicintel_harvest.Schemas.Roles.{role_ids}
use nordicintel_harvest.Providers.Common.{Texts}
use nordicintel_harvest.Providers.PxWebV2.Roles.{normalize_role}
use nordicintel_harvest.Providers.PxWebV2.Categories.{Models, keys_of}
use nordicintel_harvest.Providers.PxWebV2.Dimensions.{
  as_fields, build_one, build_each, stripped_ids, BuiltDimensions, check_ids, build_declared,
  build_dimensions,
}
use nordicintel_harvest.Providers.PxWebV2.Built.{normalize_role_lem}

abbrev one_each :
    Texts
    → Models
    → String
    → Option Fields
    → Result (Dict String DatasetDimension)
    → Result (Dict String DatasetDimension)
one_each texts models x o rest = elim o [
  | none ↦ err value_error
  | some dim_data ↦ build_one texts models x dim_data >>= λ dimension.
      rest >>= λ dimensions. ok ((x, dimension) ∷ dimensions)
]

each_kept :
    (texts : Texts) (models : Models) (x : String) (ids : List String)
    (dimensions : Dict String DatasetDimension) (o : Option Fields)
    (rest : Result (Dict String DatasetDimension))
    → ((more : Dict String DatasetDimension) → rest ≡ ok more → keys more ≡ ids)
    → one_each texts models x o rest ≡ ok dimensions
    → keys dimensions ≡ x ∷ ids
each_kept texts models x ids dimensions none rest k h = cc
each_kept texts models x ids dimensions (some dim_data) rest k h =
    let (one, _, next) = >>=-eq-ok (build_one texts models x dim_data) _ h in
    let (more, rested, returned) = >>=-eq-ok rest _ next in
    ap keys (sym (ok-injective returned)) ∙ ap (λ l. x ∷ l) (k more rested)

-- the dimensions are those of the ids, in their order
build_each-keys :
    (texts : Texts) (models : Models) (raw_dimensions : Fields) (ids : List String)
    (dimensions : Dict String DatasetDimension)
    → build_each texts models raw_dimensions ids ≡ ok dimensions
    → keys dimensions ≡ ids
unfolding build_each
build_each-keys texts models raw_dimensions [] dimensions h = ap keys (sym (ok-injective h))
build_each-keys texts models raw_dimensions (x ∷ ids) dimensions h =
    each_kept texts models x ids dimensions (as_fields (get x raw_dimensions))
      (build_each texts models raw_dimensions ids) (build_each-keys texts models raw_dimensions ids)
      h

check_ids-ok :
    (raw_dimensions : Fields) (ids : List String)
    → check_ids raw_dimensions ids ≡ ok tt
    → (no_items ids ≡ false)
      × (any is_empty ids ≡ false)
      × (distinct ids ≡ true)
      × (same_set (keys_of raw_dimensions) ids ≡ true)
unfolding check_ids
check_ids-ok raw_dimensions ids h =
    let (h2, same) = clear _ (not (same_set (keys_of raw_dimensions) ids)) h in
    let (h1, unique) = clear _ (not (distinct ids)) h2 in
    let named = raise_if-clear (no_items ids || any is_empty ids) value_error h1 in
    (
      ground arith,
      ground arith,
      not-false (distinct ids) unique,
      not-false (same_set (keys_of raw_dimensions) ids) same,
    )

build_declared_lem :
    (texts : Texts) (models : Models) (raw_dimensions : Fields) (ids : List String)
    (raw_role : Option Value) (built : BuiltDimensions)
    → build_declared texts models raw_dimensions ids raw_role ≡ ok built
    → (built.id ≡ ids)
      × (no_items ids ≡ false)
      × (any is_empty ids ≡ false)
      × (distinct ids ≡ true)
      × (same_set (keys_of raw_dimensions) ids ≡ true)
      × (keys built.dimension ≡ ids)
      × (distinct (role_ids built.role) ≡ true)
      × (is_subset (role_ids built.role) ids ≡ true)
unfolding build_declared
build_declared_lem texts models raw_dimensions ids raw_role built h =
    let (roles, before, next) =
      >>=-eq-ok (check_ids raw_dimensions ids >> normalize_role texts.py raw_role) _ h in
    let (checked, role_made) =
      checked-ok (check_ids raw_dimensions ids) (normalize_role texts.py raw_role) before in
    let (filled, named, unique, same) = check_ids-ok raw_dimensions ids checked in
    let unknown = not (is_subset (role_ids roles) ids) in
    let each = build_each texts models raw_dimensions ids in
    let (dimensions, after, returned) = >>=-eq-ok (raise_if unknown value_error >> each) _ next in
    let (known, made) = raise_if-ok unknown value_error each after in
    let result = sym (ok-injective returned) in
    (
      ap (λ b. b.id) result,
      filled,
      named,
      unique,
      same,
      ap (λ b. keys b.dimension) result
          ∙ build_each-keys texts models raw_dimensions ids dimensions made,
      ap (λ b. distinct (role_ids b.role)) result
          ∙ normalize_role_lem texts.py raw_role roles role_made,
      ap (λ b. is_subset (role_ids b.role) ids) result
          ∙ not-false (is_subset (role_ids roles) ids) known,
    )

-- Dimensions that `build_dimensions` returns are built from an object of dimensions and a list of ids.
-- The ids are the stripped texts of that list; there is at least one, none is empty and none is there
-- twice, and they are the keys of the object. The dimensions returned are those of the ids, in their
-- order. Every id that has a role is one of the ids, and no id has two roles or one role twice.
pub build_dimensions_lem :
    (texts : Texts) (models : Models) (raw_dimensions : Fields) (raw_ids : Items)
    (raw_role : Option Value) (built : BuiltDimensions)
    → build_dimensions texts models (some (obj raw_dimensions)) (some (arr raw_ids)) raw_role
      ≡ ok built
    → (built.id ≡ stripped_ids texts.py (items raw_ids))
      × (no_items built.id ≡ false)
      × (any is_empty built.id ≡ false)
      × (distinct built.id ≡ true)
      × (same_set (keys_of raw_dimensions) built.id ≡ true)
      × (keys built.dimension ≡ built.id)
      × (distinct (role_ids built.role) ≡ true)
      × (is_subset (role_ids built.role) built.id ≡ true)
unfolding build_dimensions
build_dimensions_lem texts models raw_dimensions raw_ids raw_role built h =
    let ids = stripped_ids texts.py (items raw_ids) in
    let (same_ids, filled, named, unique, same, each, apart, known) =
      build_declared_lem texts models raw_dimensions ids raw_role built h in
    (
      same_ids,
      ap no_items same_ids ∙ filled,
      ap (any is_empty) same_ids ∙ named,
      ap distinct same_ids ∙ unique,
      ap (same_set (keys_of raw_dimensions)) same_ids ∙ same,
      each ∙ sym same_ids,
      apart,
      ap (is_subset (role_ids built.role)) same_ids ∙ known,
    )
