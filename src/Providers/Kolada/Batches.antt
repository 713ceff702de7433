-- ===== src/Providers/Kolada/Batches.antt =====
-- kolada/parsing.py: the requests that cover all pairs of a municipality and a year, at most 25
-- values to a filter.
use nordicintel_harvest.Prelude.Int.{ℤ, int_eq}
use nordicintel_harvest.Prelude.Count.{count, count-append}
use nordicintel_harvest.Prelude.{
  ℕ, zero, suc, ◌+◌, ◌≤◌, ◌<◌, ◌≡◌, refl, List, [], ◌∷◌, ◌++◌, arith, length, take, drop,
  take-append-drop, length-take, length-drop, All, All-append, ◌*◌, ap₂, ◌∙◌, string_eq, String,
}

-- `MAX_FILTER_VALUES`
abbrev pub max_filter_values : ℕ
max_filter_values = 25

module _ {ℓ} {A : Type ℓ} where
  -- The slices `values[i : i + limit]` for `i` in `range(0, len(values), limit)`, by as many rounds
  -- as there are values at most.
  batches : ℕ → ℕ → List A → List (List A)
  batches rounds limit [] = []
  batches zero limit (x ∷ xs) = []
  batches (suc rounds) limit (x ∷ xs) =
      take limit (x ∷ xs) ∷ batches rounds limit (drop limit (x ∷ xs))

  -- `batch_values`
  unfoldable pub batch_values : ℕ → List A → List (List A)
  unfolding batches
  batch_values limit values = batches (length values) limit values

  unfoldable pub flat : List (List A) → List A
  flat [] = []
  flat (b ∷ bs) = b ++ flat bs

  abbrev pub IsBatch : ℕ → List A → Type 0
  IsBatch limit b = (0 < length b) × (length b ≤ limit)

  batches_lem :
      (rounds limit : ℕ) (values : List A)
      → 0 < limit
      → length values ≤ rounds
      → (flat (batches rounds limit values) ≡ values)
        × All (IsBatch limit) (batches rounds limit values)
  unfolding batches flat
  batches_lem rounds limit [] h k = (refl, tt)
  batches_lem zero limit (x ∷ xs) h k = absurd (omega arith)
  batches_lem (suc rounds) limit (x ∷ xs) h k =
      let (whole, fit) =
        batches_lem rounds limit (drop limit (x ∷ xs)) h
          (omega (arith, length-drop limit (x ∷ xs))) in
      (
        rw whole (take-append-drop limit (x ∷ xs)),
        (
          (omega (arith, length-take limit (x ∷ xs)), omega (arith, length-take limit (x ∷ xs))),
          fit,
        ),
      )

  -- The batches of a positive limit are not empty, hold at most that many values each, and are the
  -- values in their order when laid end to end.
  pub batch_values_lem :
      (limit : ℕ) (values : List A)
      → 0 < limit
      → (flat (batch_values limit values) ≡ values)
        × All (IsBatch limit) (batch_values limit values)
  unfolding batch_values
  batch_values_lem limit values h = batches_lem (length values) limit values h (omega arith)

-- `[(m, y) for m in muni_batches for y in year_batches]`
row : List String → List (List ℤ) → List (List String × List ℤ)
row m [] = []
row m (y ∷ ys) = (m, y) ∷ row m ys

product : List (List String) → List (List ℤ) → List (List String × List ℤ)
unfolding row
product [] ys = []
product (m ∷ ms) ys = row m ys ++ product ms ys

-- `build_data_request_batches`
unfoldable pub build_data_request_batches : List String → List ℤ → List (List String × List ℤ)
unfolding batch_values product
build_data_request_batches municipality_ids years =
    product (batch_values max_filter_values municipality_ids) (batch_values max_filter_values years)

-- how often a request with these filters asks for a pair
abbrev asked : String → ℤ → List String × List ℤ → ℕ
asked m y b = count m b.0 * count y b.1

unfoldable pub total_asked : String → ℤ → List (List String × List ℤ) → ℕ
total_asked m y [] = 0
total_asked m y (b ∷ bs) = asked m y b + total_asked m y bs

total_asked-append :
    (m : String) (y : ℤ) (a b : List (List String × List ℤ))
    → total_asked m y (a ++ b) ≡ total_asked m y a + total_asked m y b
unfolding total_asked
total_asked-append m y [] b = omega arith
total_asked-append m y (x ∷ a) b = omega (arith, total_asked-append m y a b)

total_asked-row :
    (m : String) (y : ℤ) (ms : List String) (bs : List (List ℤ))
    → total_asked m y (row ms bs) ≡ count m ms * count y (flat bs)
unfolding total_asked flat count row
total_asked-row m y ms [] = omega arith
total_asked-row m y ms (b ∷ bs) =
    let rest = total_asked-row m y ms bs in rw (rest, count-append) (omega arith)

total_asked-product :
    (m : String) (y : ℤ) (ms : List (List String)) (bs : List (List ℤ))
    → total_asked m y (product ms bs) ≡ count m (flat ms) * count y (flat bs)
unfolding flat product
total_asked-product m y [] bs = unfold total_asked count in omega arith
total_asked-product m y (b ∷ ms) bs =
    let rest = total_asked-product m y ms bs in
    rw (total_asked-append, total_asked-row, rest, count-append) (omega arith)

abbrev pub IsRequest : List String × List ℤ → Type 0
IsRequest b = IsBatch max_filter_values b.0 × IsBatch max_filter_values b.1

All-row :
    (ms : List String) (bs : List (List ℤ))
    → IsBatch max_filter_values ms
    → All (IsBatch max_filter_values) bs
    → All IsRequest (row ms bs)
unfolding row
All-row ms [] h k = tt
All-row ms (b ∷ bs) h k = ((h, k.0), All-row ms bs h k.1)

All-product :
    (ms : List (List String)) (bs : List (List ℤ))
    → All (IsBatch max_filter_values) ms
    → All (IsBatch max_filter_values) bs
    → All IsRequest (product ms bs)
unfolding product
All-product [] bs h k = tt
All-product (b ∷ ms) bs h k =
    All-append IsRequest (row b bs) (product ms bs) (All-row b bs h.0 k) (All-product ms bs h.1 k)

-- The requests ask for each pair of a municipality and a year as often as the two lists hold it,
-- once if neither repeats a value, and for no other pair; no filter is empty or holds more than 25
-- values.
pub build_data_request_batches_lem :
    (municipality_ids : List String) (years : List ℤ)
    → ((m : String) (y : ℤ)
        → total_asked m y (build_data_request_batches municipality_ids years)
          ≡ count m municipality_ids * count y years)
      × All IsRequest (build_data_request_batches municipality_ids years)
unfolding build_data_request_batches
build_data_request_batches_lem ids years =
    let (ids_whole, ids_fit) = batch_values_lem max_filter_values ids (omega arith) in
    let (years_whole, years_fit) = batch_values_lem max_filter_values years (omega arith) in
    (
      λ m y.
          total_asked-product m y (batch_values max_filter_values ids)
            (batch_values max_filter_values years)
          ∙ ap₂ (λ a b. count m a * count y b) ids_whole years_whole,
      All-product (batch_values max_filter_values ids) (batch_values max_filter_values years)
          ids_fit years_fit,
    )
