-- ===== src/Providers/PxWebV1/Sampled.antt =====
-- providers/adapters/pxweb_v1/enrichment.py: the sample request stays within the cell limit.
use nordicintel_harvest.Prelude.{
  ℕ, ◌≤◌, ◌*◌, ◌/◌, ◌≡◌, refl, sym, ap, ap₂, ◌∙◌, subst, String, Option, none, some, List, [], ◌∷◌,
  ◌++◌, map, arith, string_eq, take, length, length-take, min, leb, All, if◌then◌else◌, Bool-cases,
  inl, inr, ◌⊎◌,
}
use native.Mathlib.Nat.{mul_comm, mul_assoc}
use mathlib.Core.List.{append-nil, append_assoc}
use nordicintel_harvest.Prelude.Int.{ℤ}
use nordicintel_harvest.Prelude.Dict.{Dict, lookup}
use nordicintel_harvest.Prelude.Sort.{sorted}
use nordicintel_harvest.Schemas.Dimensions.{leb_ℤ, DatasetDimension}
use nordicintel_harvest.Core.Errors.{Result, ok, err, ◌>>=◌, key_error, >>=-eq-ok, ok-injective}
use nordicintel_harvest.Providers.PxWebV1.Sample.{
  Selection, first_two, selection_of, cells_in, shrink, reversed, sample_selection,
}

-- one value or two
IsShort : String × List String → Type 0
IsShort e = (length e.1 ≡ 1) ⊎ (length e.1 ≡ 2)

one_or_two : (n : ℕ) → 1 ≤ n → n ≤ 2 → (n ≡ 1) ⊎ (n ≡ 2)
one_or_two n a b = ground arith

cells_in-append : (xs ys : Selection) → cells_in (xs ++ ys) ≡ cells_in xs * cells_in ys
unfolding cells_in
cells_in-append [] ys = omega arith
cells_in-append ((code, values) ∷ xs) ys =
    ap (λ n. length values * n) (cells_in-append xs ys)
    ∙ sym (mul_assoc (length values) (cells_in xs) (cells_in ys))

div_back : (k n : ℕ) → (k ≡ 1) ⊎ (k ≡ 2) → (k * n) / k ≡ n
div_back k n (inl e) = subst (λ m. (m * n) / m ≡ n) (sym e) (omega arith)
div_back k n (inr e) = subst (λ m. (m * n) / m ≡ n) (sym e) (omega arith)

take-length :
    (values : List String) → (length values ≡ 1) ⊎ (length values ≡ 2) → length (take 1 values) ≡ 1
take-length values (inl e) = length-take 1 values ∙ ap (min 1) e
take-length values (inr e) = length-take 1 values ∙ ap (min 1) e

shrink-le :
    (cell_limit : ℕ) (selection : Selection)
    → 1 ≤ cell_limit
    → All IsShort selection
    → cells_in (shrink cell_limit selection (cells_in selection)) ≤ cell_limit
unfolding shrink cells_in IsShort
shrink-le cell_limit [] le h = le
shrink-le cell_limit ((code, values) ∷ earlier) le (short, h) =
    let cells = length values * cells_in earlier in
    let rest = shrink cell_limit earlier (cells / length values) in
    elim (Bool-cases (leb cells cell_limit)) [
      | inl fits ↦
          subst
            (λ b.
              cells_in (if b then (code, values) ∷ earlier else (code, take 1 values) ∷ rest)
              ≤ cell_limit)
            (sym fits) (ground arith)
      | inr over ↦
          subst
            (λ b.
              cells_in (if b then (code, values) ∷ earlier else (code, take 1 values) ∷ rest)
              ≤ cell_limit)
            (sym over)
            (subst
              (λ n. cells_in ((code, take 1 values) ∷ shrink cell_limit earlier n) ≤ cell_limit)
              (sym (div_back (length values) (cells_in earlier) short))
              (subst (λ n. n * cells_in (shrink cell_limit earlier (cells_in earlier)) ≤ cell_limit)
                (sym (take-length values short))
                (let ih = shrink-le cell_limit earlier le h in omega arith)))
    ]

cells_in-reversed : (selection : Selection) → cells_in (reversed selection) ≡ cells_in selection
unfolding cells_in reversed
cells_in-reversed [] = refl
cells_in-reversed ((code, values) ∷ selection) =
    cells_in-append (reversed selection) ((code, values) ∷ [])
    ∙ ap (λ n. n * (length values * 1)) (cells_in-reversed selection)
    ∙ mul_comm (cells_in selection) (length values * 1)
    ∙ ap (λ n. n * cells_in selection)
        (let one : length values * 1 ≡ length values = omega arith in one)

All-append : (xs ys : Selection) → All IsShort xs → All IsShort ys → All IsShort (xs ++ ys)
All-append [] ys h k = k
All-append (x ∷ xs) ys (first, h) k = (first, All-append xs ys h k)

All-reversed : (selection : Selection) → All IsShort selection → All IsShort (reversed selection)
unfolding reversed
All-reversed [] h = tt
All-reversed (e ∷ selection) (first, h) =
    All-append (reversed selection) (e ∷ []) (All-reversed selection h) (first, tt)

-- at least one value
pub record HasValue (e : String × List String) : Type 0 where
  pub filled : 1 ≤ length e.1

abbrev pub codes_of : Selection → List String
codes_of = map (λ e. e.0)

All-HasValue : (xs ys : Selection) → All HasValue xs → All HasValue ys → All HasValue (xs ++ ys)
All-HasValue [] ys h k = k
All-HasValue (x ∷ xs) ys (first, h) k = (first, All-HasValue xs ys h k)

reversed-HasValue :
    (selection : Selection) → All HasValue selection → All HasValue (reversed selection)
unfolding reversed
reversed-HasValue [] h = tt
reversed-HasValue (e ∷ selection) (first, h) =
    All-HasValue (reversed selection) (e ∷ []) (reversed-HasValue selection h) (first, tt)

shrink-HasValue :
    (cell_limit cells : ℕ) (selection : Selection)
    → All HasValue selection
    → All HasValue (shrink cell_limit selection cells)
unfolding shrink
shrink-HasValue cell_limit cells [] h = tt
shrink-HasValue cell_limit cells ((code, values) ∷ earlier) (first, h) =
    let rest = shrink cell_limit earlier (cells / length values) in
    let kept : HasValue (code, take 1 values) = record {
      filled = let size = length-take 1 values in let one = first.filled in omega arith;
    } in
    elim (Bool-cases (leb cells cell_limit)) [
      | inl fits ↦
          subst
            (λ b.
              All HasValue (if b then (code, values) ∷ earlier else (code, take 1 values) ∷ rest))
            (sym fits) (first, h)
      | inr over ↦
          subst
            (λ b.
              All HasValue (if b then (code, values) ∷ earlier else (code, take 1 values) ∷ rest))
            (sym over) (kept, shrink-HasValue cell_limit (cells / length values) earlier h)
    ]

shrink-codes :
    (cell_limit cells : ℕ) (selection : Selection)
    → codes_of (shrink cell_limit selection cells) ≡ codes_of selection
unfolding shrink
shrink-codes cell_limit cells [] = refl
shrink-codes cell_limit cells ((code, values) ∷ earlier) =
    let rest = shrink cell_limit earlier (cells / length values) in
    let tail = ap (λ l. code ∷ l) (shrink-codes cell_limit (cells / length values) earlier) in
    elim (Bool-cases (leb cells cell_limit)) [
      | inl fits ↦
          ap (λ b. codes_of (if b then (code, values) ∷ earlier else (code, take 1 values) ∷ rest))
            fits
      | inr over ↦
          ap (λ b. codes_of (if b then (code, values) ∷ earlier else (code, take 1 values) ∷ rest))
            over
          ∙ tail
    ]

codes_of-append : (xs ys : Selection) → codes_of (xs ++ ys) ≡ codes_of xs ++ codes_of ys
codes_of-append [] ys = refl
codes_of-append (x ∷ xs) ys = ap (λ l. x.0 ∷ l) (codes_of-append xs ys)

reversed-append : (xs ys : Selection) → reversed (xs ++ ys) ≡ reversed ys ++ reversed xs
unfolding reversed
reversed-append [] ys = sym (append-nil (reversed ys))
reversed-append (x ∷ xs) ys =
    ap (λ l. l ++ x ∷ []) (reversed-append xs ys)
    ∙ append_assoc (reversed ys) (reversed xs) (x ∷ [])

reversed_twice : (selection : Selection) → reversed (reversed selection) ≡ selection
unfolding reversed
reversed_twice [] = refl
reversed_twice (e ∷ selection) =
    reversed-append (reversed selection) (e ∷ []) ∙ ap (λ l. e ∷ l) (reversed_twice selection)

-- lists of entries with the same codes have them in reverse too
codes_of-reversed :
    (xs ys : Selection)
    → codes_of xs ≡ codes_of ys
    → codes_of (reversed xs) ≡ codes_of (reversed ys)
unfolding reversed
codes_of-reversed [] [] h = refl
codes_of-reversed [] (y ∷ ys) h = cc
codes_of-reversed (x ∷ xs) [] h = cc
codes_of-reversed (x ∷ xs) (y ∷ ys) h =
    let first : x.0 ≡ y.0 = cc in
    let rest : codes_of xs ≡ codes_of ys = cc in
    codes_of-append (reversed xs) (x ∷ [])
    ∙ ap₂ (λ a b. a ++ b ∷ []) (codes_of-reversed xs ys rest) first
    ∙ sym (codes_of-append (reversed ys) (y ∷ []))

-- at most two values
abbrev IsSmall : String × List String → Type 0
IsSmall e = length e.1 ≤ 2

-- what is selected for the ids
record IsSelected (ids : List String) (selection : Selection) : Type 0 where
  named : codes_of selection ≡ ids
  small : All IsSmall selection

first_two-small : (index : Dict String ℤ) → length (first_two index) ≤ 2
unfolding first_two
first_two-small index =
    let names = map (λ e. e.0) (sorted (λ a b. leb_ℤ a.1 b.1) index) in
    let size : length (take 2 names) ≡ min 2 (length names) = length-take 2 names in omega arith

select_one :
    (code : String) (ids : List String) (o : Option DatasetDimension) (rest : Result Selection)
    (selection : Selection)
    → ((others : Selection) → rest ≡ ok others → IsSelected ids others)
    → (elim o [
      | none ↦ err key_error
      | some d ↦ rest >>= λ others. ok ((code, first_two d.category.index) ∷ others)
    ])
      ≡ ok selection
    → IsSelected (code ∷ ids) selection
select_one code ids none rest selection k h = cc
select_one code ids (some d) rest selection k h =
    let (others, before, returned) = >>=-eq-ok rest _ h in
    let r = k others before in
    subst (IsSelected (code ∷ ids)) (ok-injective returned) (record {
      named = ap (λ l. code ∷ l) r.named;
      small = (first_two-small d.category.index, r.small);
    })

selection_of-IsSelected :
    (dimensions : Dict String DatasetDimension) (ids : List String) (selection : Selection)
    → selection_of dimensions ids ≡ ok selection
    → IsSelected ids selection
unfolding selection_of
selection_of-IsSelected dimensions [] selection h =
    subst (IsSelected []) (ok-injective h) (record { named = refl; small = tt })
selection_of-IsSelected dimensions (code ∷ ids) selection h =
    select_one code ids (lookup code dimensions) (selection_of dimensions ids) selection
      (selection_of-IsSelected dimensions ids) h

short_lem :
    (selection : Selection) → All IsSmall selection → All HasValue selection → All IsShort selection
unfolding IsShort
short_lem [] h k = tt
short_lem (e ∷ selection) (small, h) (filled, k) =
    (one_or_two (length e.1) filled.filled small, short_lem selection h k)

-- Where the cell limit is at least 1 and every dimension has a category, the sample request asks for
-- every dimension of the metadata, in its order, with at least one value of each, and for no more
-- cells than the limit.
pub sample_selection_lem :
    (cell_limit : ℕ) (dimensions : Dict String DatasetDimension) (ids : List String)
    (selection : Selection)
    → 1 ≤ cell_limit
    → selection_of dimensions ids ≡ ok selection
    → All HasValue selection
    → (cells_in (sample_selection cell_limit selection) ≤ cell_limit)
      × (codes_of (sample_selection cell_limit selection) ≡ ids)
      × All HasValue (sample_selection cell_limit selection)
unfolding sample_selection
sample_selection_lem cell_limit dimensions ids selection le h filled =
    let s = selection_of-IsSelected dimensions ids selection h in
    let back = reversed selection in
    let short = All-reversed selection (short_lem selection s.small filled) in
    let same = cells_in-reversed selection in
    let made = shrink cell_limit back (cells_in selection) in
    (
      subst (λ n. n ≤ cell_limit) (sym (cells_in-reversed made))
          (subst (λ n. cells_in (shrink cell_limit back n) ≤ cell_limit) same
            (shrink-le cell_limit back le short)),
      codes_of-reversed made back (shrink-codes cell_limit (cells_in selection) back)
          ∙ ap codes_of (reversed_twice selection)
          ∙ s.named,
      reversed-HasValue made (
          shrink-HasValue cell_limit (cells_in selection) back
            (reversed-HasValue selection filled)),
    )
