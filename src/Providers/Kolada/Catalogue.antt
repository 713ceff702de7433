-- ===== src/Providers/Kolada/Catalogue.antt =====
-- providers/adapters/kolada/parsing.py: the entries of the catalogue, and the areas and years that
-- are asked for.
use mathlib.Core.Option.{map as map_option}
use nordicintel_harvest.Prelude.{
  ℕ, suc, ◌+◌, ◌-◌, Bool, true, not, ◌&&◌, ◌||◌, ◌≡◌, refl, String, Option, none, some, List, [],
  ◌∷◌, ◌++◌, map, arith, string_eq, ◌⊎◌, inl, inr, subst, sym, ap, ◌∙◌, ◌==◌, any, keep, contains,
  contains-append, if◌then◌else◌,
}
use nordicintel_harvest.Prelude.Int.{ℤ}
use nordicintel_harvest.Prelude.Text.{is_empty}
use nordicintel_harvest.Prelude.Sets.{range}
use nordicintel_harvest.Core.Errors.{
  Result, ok, ◌>>◌, raise_if, value_error, ok-injective, raise_if-ok,
}
use nordicintel_harvest.Core.Json.{Fields}
use nordicintel_harvest.Core.Values.{Builtins, text_of, get_present, stripped, non_empty, flag}
use nordicintel_harvest.Providers.Kolada.Parsing.{KpiInfo, MunicipalityInfo, OuInfo, normalize_text}

-- `str(o[k]) if o.get(k) is not None else None`
unfoldable pub optional_text : Builtins → String → Fields → Option String
unfolding get_present text_of
optional_text py k o = elim (get_present k o) [ none ↦ none | some v ↦ some (text_of py v) ]

-- the raw description where it differs from the normalised one
unfoldable pub changed_text : Option String → Option String
unfolding normalize_text
changed_text none = none
changed_text (some raw) = if raw == normalize_text raw then none else some raw

unfoldable pub parse_kpi : Builtins → Fields → KpiInfo
unfolding optional_text changed_text stripped flag get_present normalize_text
parse_kpi py raw = record {
  kpi_id = stripped py "id" "" raw;
  title = stripped py "title" "" raw;
  description = map_option normalize_text (optional_text py "description" raw);
  is_divided_by_gender = flag "is_divided_by_gender" raw;
  municipality_type =
      let kind = stripped py "municipality_type" "A" raw in if is_empty kind then "A" else kind;
  publication_date = get_present "publication_date" raw;
  prel_publication_date = get_present "prel_publication_date" raw;
  publ_period = get_present "publ_period" raw;
  has_ou_data = flag "has_ou_data" raw;
  operating_area = non_empty (stripped py "operating_area" "" raw);
  perspective = non_empty (stripped py "perspective" "" raw);
  auspice = non_empty (stripped py "auspice" "" raw);
  raw_description = changed_text (optional_text py "description" raw);
  groups = [];
}

unfoldable pub parse_municipality : Builtins → Fields → Option MunicipalityInfo
unfolding stripped
parse_municipality py raw =
    let municipality_id = stripped py "id" "" raw in
    if is_empty municipality_id
    then none
    else some (record {
      municipality_id = municipality_id;
      title = stripped py "title" municipality_id raw;
      kind = stripped py "type" "" raw;
    })

unfoldable pub parse_ou : Builtins → Fields → Option OuInfo
unfolding stripped
parse_ou py raw =
    let ou_id = stripped py "id" "" raw in
    let municipality_id = stripped py "municipality" "" raw in
    if is_empty ou_id || is_empty municipality_id
    then none
    else some (record {
      ou_id = ou_id;
      title = stripped py "title" ou_id raw;
      municipality_id = municipality_id;
    })

abbrev pub riket_id : String
riket_id = "0000"

abbrev pub ids_of : List MunicipalityInfo → List String
ids_of = map (λ m. m.municipality_id)

-- the ids of type K, with Riket behind them where it is catalogued but of another type
unfoldable pub kommun_ids : List MunicipalityInfo → List String
kommun_ids municipalities =
    let ids = ids_of (keep (λ m. m.kind == "K") municipalities) in
    if not (contains ids riket_id) && any (λ m. m.municipality_id == riket_id) municipalities
    then ids ++ riket_id ∷ []
    else ids

unfoldable pub candidate_municipality_ids : String → List MunicipalityInfo → Result (List String)
unfolding kommun_ids
candidate_municipality_ids municipality_type municipalities =
    raise_if (not (contains ("K" ∷ "L" ∷ "A" ∷ []) municipality_type)) value_error
    >> ok (
        if municipality_type == "A"
        then ids_of municipalities
        else if municipality_type == "L"
        then ids_of (keep (λ m. m.kind == "L") municipalities)
        else kommun_ids municipalities)

abbrev pub earliest_possible_year : ℕ
earliest_possible_year = 1970

abbrev pub max_future_years : ℕ
max_future_years = 3

-- `max_probe_year`, given the year of today
unfoldable pub max_probe_year : ℕ → ℕ
max_probe_year this_year = this_year + max_future_years

-- `list(range(EARLIEST_POSSIBLE_YEAR, max_year + 1))`
unfoldable pub probe_year_range : ℕ → List ℤ
unfolding range
probe_year_range max_year = range earliest_possible_year (suc max_year - earliest_possible_year)

-- whether an area of the catalogue reports an indicator of the type
abbrev pub reports : String → MunicipalityInfo → Bool
reports municipality_type m =
    municipality_type == "A"
    || m.kind == municipality_type
    || municipality_type == "K" && m.municipality_id == riket_id

contains-ids :
    (kind x : String) (ms : List MunicipalityInfo)
    → contains (ids_of (keep (λ m. m.kind == kind) ms)) x
      ≡ any (λ m. m.municipality_id == x && m.kind == kind) ms
contains-ids kind x [] = refl
contains-ids kind x (m ∷ ms) = ground (arith, contains-ids kind x ms)

contains-ids_of :
    (x : String) (ms : List MunicipalityInfo)
    → contains (ids_of ms) x ≡ any (λ m. m.municipality_id == x) ms
contains-ids_of x [] = refl
contains-ids_of x (m ∷ ms) = ground (arith, contains-ids_of x ms)

any-reports-K :
    (x : String) (ms : List MunicipalityInfo)
    → any (λ m. m.municipality_id == x && reports "K" m) ms ≡ (
        any (λ m. m.municipality_id == x && m.kind == "K") ms
        || riket_id == x && any (λ m. m.municipality_id == riket_id) ms)
any-reports-K x [] = ground arith
any-reports-K x (m ∷ ms) = ground (
  arith,
  any-reports-K x ms,
  string_eq.beq_iff m.municipality_id x,
  string_eq.beq_iff m.municipality_id riket_id,
  string_eq.beq_iff riket_id x,
)

any-reports-L :
    (x : String) (ms : List MunicipalityInfo)
    → any (λ m. m.municipality_id == x && reports "L" m) ms
      ≡ any (λ m. m.municipality_id == x && m.kind == "L") ms
any-reports-L x [] = refl
any-reports-L x (m ∷ ms) = ground (arith, any-reports-L x ms)

any-reports-A :
    (x : String) (ms : List MunicipalityInfo)
    → any (λ m. m.municipality_id == x && reports "A" m) ms ≡ any (λ m. m.municipality_id == x) ms
any-reports-A x [] = refl
any-reports-A x (m ∷ ms) = ground (arith, any-reports-A x ms)

any-K :
    (x : String) (ms : List MunicipalityInfo)
    → any (λ m. m.municipality_id == x && m.kind == "K") ms ≡ true
    → any (λ m. m.municipality_id == x) ms ≡ true
any-K x [] h = cc
any-K x (m ∷ ms) h = ground (arith, any-K x ms)

contains-kommun_ids :
    (x : String) (ms : List MunicipalityInfo)
    → contains (kommun_ids ms) x ≡ any (λ m. m.municipality_id == x && reports "K" m) ms
unfolding kommun_ids
contains-kommun_ids x ms =
    let ids = ids_of (keep (λ m. m.kind == "K") ms) in
    let reported = any-reports-K x ms in
    let listed = contains-ids "K" x ms in
    let extended = contains-append ids (riket_id ∷ []) x in
    let catalogued = any-K riket_id ms in
    let riket_listed = contains-ids "K" riket_id ms in
    let is_riket = string_eq.beq_iff riket_id x in ground arith

-- what the three branches are to give
Chosen : String → String → List MunicipalityInfo → Type 0
Chosen x kind ms =
    contains
      (if kind == "A"
        then ids_of ms
        else if kind == "L"
        then ids_of (keep (λ m. m.kind == "L") ms)
        else kommun_ids ms)
      x
    ≡ any (λ m. m.municipality_id == x && reports kind m) ms

type-cases :
    (kind : String)
    → contains ("K" ∷ "L" ∷ "A" ∷ []) kind ≡ true
    → ("K" ≡ kind) ⊎ ("L" ≡ kind) ⊎ ("A" ≡ kind)
type-cases kind h =
    ground
      (arith, string_eq.beq_iff "K" kind, string_eq.beq_iff "L" kind, string_eq.beq_iff "A" kind)

contains-type :
    (kind x : String) (ms : List MunicipalityInfo)
    → contains ("K" ∷ "L" ∷ "A" ∷ []) kind ≡ true
    → Chosen x kind ms
unfolding Chosen
contains-type kind x ms h = elim (type-cases kind h) [
  | inl k ↦ subst (λ t. Chosen x t ms) k (contains-kommun_ids x ms)
  | inr (inl l) ↦ subst (λ t. Chosen x t ms) l (contains-ids "L" x ms ∙ sym (any-reports-L x ms))
  | inr (inr a) ↦ subst (λ t. Chosen x t ms) a (contains-ids_of x ms ∙ sym (any-reports-A x ms))
]

-- Where the type of an indicator is known, the ids that are asked for are those of the catalogued
-- areas that report it: all areas for A, the areas of the type for L and K, and Riket for K too.
pub candidate_municipality_ids_lem :
    (kind : String) (ms : List MunicipalityInfo) (ids : List String)
    → candidate_municipality_ids kind ms ≡ ok ids
    → (x : String) → contains ids x ≡ any (λ m. m.municipality_id == x && reports kind m) ms
unfolding candidate_municipality_ids Chosen
candidate_municipality_ids_lem kind ms ids h x =
    let (known, returned) =
      raise_if-ok (not (contains ("K" ∷ "L" ∷ "A" ∷ []) kind)) value_error _ h in
    ap (λ k. contains k x) (sym (ok-injective returned)) ∙ contains-type kind x ms (ground arith)
