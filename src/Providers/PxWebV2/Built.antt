-- ===== src/Providers/PxWebV2/Built.antt =====
-- providers/adapters/pxweb_v2/parsing.py: what holds of the roles and dimensions of a payload that is
-- taken.
use nordicintel_harvest.Prelude.{
  true, false, not, ◌≡◌, refl, sym, ap, ap₂, ◌∙◌, subst, String, Option, none, some, List, [], ◌∷◌,
  ◌++◌, arith, string_eq, ◌==◌, ==-refl, contains, contains-append, distinct, if◌then◌else◌, get_or,
  Bool-cases, inl, inr, then_taken, else_taken, Eq,
}
use nordicintel_harvest.Prelude.Dict.{lookup, insert, lookup-insert}
use nordicintel_harvest.Prelude.Text.{strip, is_empty}
use nordicintel_harvest.Core.Errors.{
  ok, ◌>>◌, raise_if, value_error, raise_if-ok, raise_if-clear, checked-ok, >>=-eq-ok, ok-injective,
  if_some, for_each-ok,
}
use nordicintel_harvest.Core.Json.{Value, null, bool, num, float, str, arr, obj, Fields, get}
use nordicintel_harvest.Core.Values.{Builtins, text_of}
use nordicintel_harvest.Schemas.Dimensions.{no_items, DatasetRole, validate_role}
use nordicintel_harvest.Schemas.Ordinals.{not-false}
use nordicintel_harvest.Schemas.Roles.{role_ids}
use nordicintel_harvest.Providers.Common.Extras.{or_none}
use nordicintel_harvest.Providers.PxWebV2.Roles.{
  Assigned, is_taken, assign_values, bucket_values, assign_bucket, role_of, normalize_role,
}

-- the ids have the role, and no role that was assigned before is lost
record Keeps (key : String) (before : Assigned) (ids : List String) (after : Assigned)
    : Type 0 where
  assigned : (x : String) → contains ids x ≡ true → lookup x after ≡ some key
  kept : (x role : String) → lookup x before ≡ some role → lookup x after ≡ some role

-- an entry that is free or has the role already
free_lem :
    (x dimension_id key role : String) (before : Assigned)
    → is_taken (lookup dimension_id before) key ≡ false
    → lookup x before ≡ some role
    → lookup x (insert dimension_id key before) ≡ some role
free_lem x dimension_id key role before f h = ground (
  arith,
  lookup-insert dimension_id x key before,
  string_eq.beq_iff dimension_id x,
  string_eq.beq_iff role key,
)

false-ne-true : false ≡ true → ⊥
false-ne-true h = cc

cons-assigned :
    (dimension_id key : String) (before : Assigned) (ids : List String) (after : Assigned)
    → Keeps key (insert dimension_id key before) ids after
    → (x : String) → contains (dimension_id ∷ ids) x ≡ true
    → lookup x after ≡ some key
cons-assigned dimension_id key before ids after k x c = elim (Bool-cases (dimension_id == x)) [
  | inl same ↦ k.kept x key (
      lookup-insert dimension_id x key before
      ∙ ap (λ b. if b then some key else lookup x before) same)
  | inr apart ↦ k.assigned x (ground arith)
]

assign_values-Keeps :
    (py : Builtins) (key : String) (values : List Value) (before : Assigned) (ids : List String)
    (after : Assigned)
    → assign_values py key values before ≡ ok (ids, after)
    → Keeps key before ids after
unfolding assign_values
assign_values-Keeps py key [] before ids after h =
    subst (λ p. Keeps key before p.0 p.1) (ok-injective h)
      (record { assigned = λ x c. absurd (false-ne-true c); kept = λ x role l. l })
assign_values-Keeps py key (value ∷ values) before ids after h =
    let dimension_id = strip (text_of py value) in
    elim (Bool-cases (is_empty dimension_id)) [
      | inl empty ↦
          assign_values-Keeps py key values before ids after
            (then_taken (is_empty dimension_id) _ _ (ok (ids, after)) empty h)
      | inr filled ↦
          let next = insert dimension_id key before in
          let free = is_taken (lookup dimension_id before) key in
          let taken = else_taken (is_empty dimension_id) _ _ (ok (ids, after)) filled h in
          let (r, made, returned) =
            >>=-eq-ok (raise_if free value_error >> assign_values py key values next) _ taken in
          let (not_taken, rest) =
            raise_if-ok free value_error (assign_values py key values next) made in
          let k = assign_values-Keeps py key values next r.0 r.1 rest in
          subst (λ p. Keeps key before p.0 p.1) (ok-injective returned)
            (record {
              assigned = cons-assigned dimension_id key before r.0 r.1 k;
              kept =
                  λ x role l. k.kept x role (free_lem x dimension_id key role before not_taken l);
            })
    ]

assign_bucket-Keeps :
    (py : Builtins) (key : String) (raw_role : Fields) (before : Assigned) (ids : List String)
    (after : Assigned)
    → assign_bucket py key raw_role before ≡ ok (ids, after)
    → Keeps key before ids after
unfolding assign_bucket
assign_bucket-Keeps py key raw_role before ids after h =
    assign_values-Keeps py key (bucket_values (get key raw_role)) before ids after h

module _ {ℓ} {A : Type ℓ} ⦃e : Eq A⦄ where
  distinct-append :
      (xs ys : List A)
      → distinct xs ≡ true
      → distinct ys ≡ true
      → ((x : A) → contains xs x ≡ true → contains ys x ≡ false)
      → distinct (xs ++ ys) ≡ true
  distinct-append [] ys h k apart = k
  distinct-append (x ∷ xs) ys h k apart =
      let here = apart x (ground (arith, ==-refl x)) in
      let rest = distinct-append xs ys (ground arith) k (λ a c. apart a (ground arith)) in
      let all_of = contains-append xs ys x in ground arith

two_roles :
    (x key other : String) (after : Assigned)
    → lookup x after ≡ some key
    → lookup x after ≡ some other
    → key ≡ other
two_roles x key other after h k = let same : some key ≡ some other = sym h ∙ k in cc

-- no id of one role is in another
apart_lem :
    (key other : String) (ids others : List String) (after : Assigned)
    → (key == other) ≡ false
    → ((x : String) → contains ids x ≡ true → lookup x after ≡ some key)
    → ((x : String) → contains others x ≡ true → lookup x after ≡ some other)
    → (x : String) → contains ids x ≡ true
    → contains others x ≡ false
apart_lem key other ids others after ne a b x c = elim (Bool-cases (contains others x)) [
  | inl also ↦
      let same = two_roles x key other after (a x c) (b x also) in
      absurd (false-ne-true (sym ne ∙ (string_eq.beq_iff key other).1 same))
  | inr apart ↦ apart
]

or_none-distinct :
    (ids : List String) (r : DatasetRole)
    → if_some (or_none ids) (λ l. raise_if (not (distinct l)) value_error) ≡ ok tt
    → distinct ids ≡ true
or_none-distinct [] r h = refl
or_none-distinct (x ∷ xs) r h =
    not-false (distinct (x ∷ xs)) (raise_if-clear (not (distinct (x ∷ xs))) value_error h)

get_or-or_none : (ids : List String) → get_or (or_none ids) [] ≡ ids
get_or-or_none [] = refl
get_or-or_none (x ∷ xs) = refl

none_taken :
    (t g m : List String)
    → no_items (t ++ g ++ m) ≡ true
    → ([] ≡ t ++ g ++ m) × (distinct t ≡ true) × (distinct g ≡ true) × (distinct m ≡ true)
none_taken [] [] [] h = (refl, refl, refl, refl)
none_taken [] [] (x ∷ m) h = cc
none_taken [] (x ∷ g) m h = cc
none_taken (x ∷ t) g m h = cc

-- the ids of the role that is made of three lists
role_of-ids :
    (t g m : List String) (role : Option DatasetRole)
    → role_of t g m ≡ ok role
    → (role_ids role ≡ t ++ g ++ m)
      × (distinct t ≡ true)
      × (distinct g ≡ true)
      × (distinct m ≡ true)
unfolding role_of validate_role
role_of-ids t g m role h = elim (Bool-cases (no_items (t ++ g ++ m))) [
  | inl none_of ↦
      let returned = then_taken (no_items (t ++ g ++ m)) (ok none) _ (ok role) none_of h in
      let (nothing, unique_t, unique_g, unique_m) = none_taken t g m none_of in
      (ap role_ids (sym (ok-injective returned)) ∙ nothing, unique_t, unique_g, unique_m)
  | inr some_of ↦
      let made = else_taken (no_items (t ++ g ++ m)) _ _ (ok role) some_of h in
      let given : DatasetRole = record { time = or_none t; geo = or_none g; metric = or_none m } in
      let (r, valid, returned) = >>=-eq-ok (validate_role given) (λ r. ok (some r)) made in
      let (unique, same) = checked-ok _ (ok given) valid in
      let (of_time, (of_geo, (of_metric, _))) =
        for_each-ok (λ o. if_some o (λ l. raise_if (not (distinct l)) value_error))
          (or_none t ∷ or_none g ∷ or_none m ∷ []) unique in
      (
        ap role_ids (sym (ok-injective returned) ∙ ap some (sym (ok-injective same)))
            ∙ ap₂ (λ a b. a ++ b) (ap₂ (λ a b. a ++ b) (get_or-or_none t) (get_or-or_none g))
                (get_or-or_none m),
        or_none-distinct t given of_time,
        or_none-distinct g given of_geo,
        or_none-distinct m given of_metric,
      )
]

-- no id of a role that is taken is in another, and none is there twice
pub normalize_role_lem :
    (py : Builtins) (raw_role : Option Value) (role : Option DatasetRole)
    → normalize_role py raw_role ≡ ok role
    → distinct (role_ids role) ≡ true
unfolding normalize_role
normalize_role_lem py (some (obj raw_role)) role h =
    let (t, of_time, more) = >>=-eq-ok (assign_bucket py "time" raw_role []) _ h in
    let (g, of_geo, most) = >>=-eq-ok (assign_bucket py "geo" raw_role t.1) _ more in
    let (m, of_metric, made) = >>=-eq-ok (assign_bucket py "metric" raw_role g.1) _ most in
    let (names, unique_t, unique_g, unique_m) = role_of-ids t.0 g.0 m.0 role made in
    let kt = assign_bucket-Keeps py "time" raw_role [] t.0 t.1 of_time in
    let kg = assign_bucket-Keeps py "geo" raw_role t.1 g.0 g.1 of_geo in
    let km = assign_bucket-Keeps py "metric" raw_role g.1 m.0 m.1 of_metric in
    let time_of : (x : String) → contains t.0 x ≡ true → lookup x m.1 ≡ some "time" =
      λ x c. km.kept x "time" (kg.kept x "time" (kt.assigned x c)) in
    let geo_of : (x : String) → contains g.0 x ≡ true → lookup x m.1 ≡ some "geo" =
      λ x c. km.kept x "geo" (kg.assigned x c) in
    let apart_tg =
      distinct-append t.0 g.0 unique_t unique_g
        (apart_lem "time" "geo" t.0 g.0 m.1 refl time_of geo_of) in
    subst (λ l. distinct l ≡ true) (sym names)
      (distinct-append (t.0 ++ g.0) m.0 apart_tg unique_m (λ x c.
        elim (Bool-cases (contains t.0 x)) [
          | inl of_t ↦ apart_lem "time" "metric" t.0 m.0 m.1 refl time_of km.assigned x of_t
          | inr not_t ↦
              apart_lem "geo" "metric" g.0 m.0 m.1 refl geo_of km.assigned x
                (let both = contains-append t.0 g.0 x in ground arith)
        ]))
normalize_role_lem py none role h = ap (λ r. distinct (role_ids r)) (sym (ok-injective h))
normalize_role_lem py (some null) role h = ap (λ r. distinct (role_ids r)) (sym (ok-injective h))
normalize_role_lem py (some (bool b)) role h =
    ap (λ r. distinct (role_ids r)) (sym (ok-injective h))
normalize_role_lem py (some (num b)) role h = ap (λ r. distinct (role_ids r)) (sym (ok-injective h))
normalize_role_lem py (some (float b c d)) role h =
    ap (λ r. distinct (role_ids r)) (sym (ok-injective h))
normalize_role_lem py (some (str b)) role h = ap (λ r. distinct (role_ids r)) (sym (ok-injective h))
normalize_role_lem py (some (arr b)) role h = ap (λ r. distinct (role_ids r)) (sym (ok-injective h))
