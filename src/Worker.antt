-- ===== src/Worker.antt =====
-- worker.py: the stored states that a job starts from, read page by page, and the end of a job. The
-- rows of a page, with their dates read, are a parameter; so is what the tasks of the job have come to
-- when one of them ends.
use nordicintel_harvest.Prelude.{
  ℕ, zero, suc, ◌+◌, ◌≤◌, ◌<◌, ◌≡◌, refl, Bool, true, false, not, ◌&&◌, String, Option, none, some,
  List, [], ◌∷◌, ◌++◌, arith, string_eq, ltb, if◌then◌else◌, length, take, drop, is_some,
  Bool-cases, inl, inr, ap, ◌∙◌, sym, take-append-drop, length-take, length-drop,
}
use nordicintel_harvest.Prelude.Dict.{Dict, insert}
use nordicintel_harvest.Core.Errors.{Error, Result, ok, err}
use nordicintel_harvest.Providers.Interface.{DatasetHarvestState}
use nordicintel_harvest.Runner.Machine.{Progress}

abbrev pub Rows : Type 0
Rows = List (String × DatasetHarvestState)

-- the loop over the rows of one page
unfoldable pub store_rows : Rows → Dict String DatasetHarvestState → Dict String DatasetHarvestState
unfolding insert
store_rows [] states = states
store_rows ((dataset_code, state) ∷ rows) states =
    store_rows rows (insert dataset_code state states)

abbrev pub page_limit : ℕ
page_limit = 1000

-- what follows a page: the end, or the pages after it, which go on from the states so far
unfoldable pub next_page :
    Dict String DatasetHarvestState
    → Result Rows
    → (Dict String DatasetHarvestState → Option (Result (Dict String DatasetHarvestState)))
    → Option (Result (Dict String DatasetHarvestState))
unfolding store_rows
next_page states (err e) more = some (err e)
next_page states (ok rows) more =
    if ltb (length rows) page_limit
    then some (ok (store_rows rows states))
    else more (store_rows rows states)

-- The loop over the pages from an offset on, in at most so many rounds; `none` if they do not suffice.
unfoldable pub load_pages :
    ℕ
    → (ℕ → Result Rows)
    → ℕ
    → Dict String DatasetHarvestState
    → Option (Result (Dict String DatasetHarvestState))
unfolding next_page
load_pages zero page offset states = none
load_pages (suc rounds) page offset states =
    next_page states (page offset) (load_pages rounds page (offset + page_limit))

-- `states` as `work` fills it
unfoldable pub load_states :
    ℕ → (ℕ → Result Rows) → Option (Result (Dict String DatasetHarvestState))
unfolding load_pages
load_states rounds page = load_pages rounds page 0 []

module _ {ℓ} {A : Type ℓ} where
  take-whole : (n : ℕ) (xs : List A) → length xs ≤ n → take n xs ≡ xs
  take-whole zero [] h = refl
  take-whole zero (x ∷ xs) h = absurd (omega arith)
  take-whole (suc n) [] h = refl
  take-whole (suc n) (x ∷ xs) h = ap (◌∷◌ x) (take-whole n xs (omega arith))

  drop-nil : (n : ℕ) → drop {A = A} n [] ≡ []
  drop-nil zero = refl
  drop-nil (suc n) = refl

  drop-add : (m n : ℕ) (xs : List A) → drop (m + n) xs ≡ drop n (drop m xs)
  drop-add zero n xs = ap (λ k. drop k xs) (omega arith)
  drop-add (suc m) n [] =
      let shift : suc m + n ≡ suc (m + n) = omega arith in
      ap (λ k. drop k []) shift ∙ sym (drop-nil n)
  drop-add (suc m) n (x ∷ xs) =
      let shift : suc m + n ≡ suc (m + n) = omega arith in
      ap (λ k. drop k (x ∷ xs)) shift ∙ drop-add m n xs

store_rows-append :
    (xs ys : Rows) (states : Dict String DatasetHarvestState)
    → store_rows (xs ++ ys) states ≡ store_rows ys (store_rows xs states)
unfolding store_rows
store_rows-append [] ys states = refl
store_rows-append ((dataset_code, state) ∷ xs) ys states =
    store_rows-append xs ys (insert dataset_code state states)

not_less : (n limit : ℕ) → ltb n limit ≡ false → limit ≤ n
not_less n limit h = ground arith

less_not : (n limit : ℕ) → limit ≤ n → ltb n limit ≡ false
less_not n limit h = ground arith

-- what the loop makes of the rows that a page is taken from
next_page_lem :
    (states : Dict String DatasetHarvestState) (rest : Rows)
    (more : Dict String DatasetHarvestState → Option (Result (Dict String DatasetHarvestState)))
    → next_page states (ok (take page_limit rest)) more ≡ (
        if ltb (length rest) page_limit
        then some (ok (store_rows rest states))
        else more (store_rows (take page_limit rest) states))
unfolding next_page
next_page_lem states rest more = elim (Bool-cases (ltb (length rest) page_limit)) [
  | inl short ↦
      let fits : length rest ≤ page_limit = ground arith in
      ap
        (λ t.
          if ltb (length t) page_limit
          then some (ok (store_rows t states))
          else more (store_rows t states))
        (take-whole page_limit rest fits)
      ∙ rw short refl
  | inr long ↦
      let counted = length-take page_limit rest in
      let all_there = not_less (length rest) page_limit long in
      let full = less_not (length (take page_limit rest)) page_limit (omega arith) in
      rw (long, full) refl
]

-- the rows of a page and those behind it
store_rows-page :
    (rows : Rows) (offset : ℕ) (states : Dict String DatasetHarvestState)
    → store_rows
        (drop (offset + page_limit) rows)
        (store_rows (take page_limit (drop offset rows)) states)
      ≡ store_rows (drop offset rows) states
store_rows-page rows offset states =
    let rest = drop offset rows in
    ap (λ r. store_rows r (store_rows (take page_limit rest) states))
      (drop-add offset page_limit rows)
    ∙ sym (store_rows-append (take page_limit rest) (drop page_limit rest) states)
    ∙ ap (λ r. store_rows r states) (take-append-drop page_limit rest)

shorter :
    (rounds : ℕ) (rows : Rows) (offset : ℕ)
    → length (drop offset rows) < suc rounds
    → ltb (length (drop offset rows)) page_limit ≡ false
    → length (drop (offset + page_limit) rows) < rounds
shorter rounds rows offset h long =
    let here = length-drop offset rows in
    let there = length-drop (offset + page_limit) rows in
    let full = not_less (length (drop offset rows)) page_limit long in omega arith

load_pages_lem :
    (rounds : ℕ) (page : ℕ → Result Rows) (rows : Rows) (offset : ℕ)
    (states : Dict String DatasetHarvestState)
    → ((o : ℕ) → page o ≡ ok (take page_limit (drop o rows)))
    → length (drop offset rows) < rounds
    → load_pages rounds page offset states ≡ some (ok (store_rows (drop offset rows) states))
unfolding load_pages
load_pages_lem zero page rows offset states served h = absurd (omega arith)
load_pages_lem (suc rounds) page rows offset states served h =
    ap (λ p. next_page states p (load_pages rounds page (offset + page_limit))) (served offset)
    ∙ next_page_lem states (drop offset rows) (load_pages rounds page (offset + page_limit))
    ∙ elim (Bool-cases (ltb (length (drop offset rows)) page_limit)) [
      | inl short ↦ rw short refl
      | inr long ↦
          let behind = store_rows (take page_limit (drop offset rows)) states in
          rw long (
            load_pages_lem rounds page rows (offset + page_limit) behind served
              (shorter rounds rows offset h long)
            ∙ ap (λ found. some (ok found)) (store_rows-page rows offset states))
    ]

-- Where the catalogue serves its rows by offset and limit, the states of a job are all rows in their
-- order, for one more round than there are rows at most.
pub load_states_lem :
    (rounds : ℕ) (page : ℕ → Result Rows) (rows : Rows)
    → ((offset : ℕ) → page offset ≡ ok (take page_limit (drop offset rows)))
    → length rows < rounds
    → load_states rounds page ≡ some (ok (store_rows rows []))
unfolding load_states
load_states_lem rounds page rows served h = load_pages_lem rounds page rows 0 [] served h

-- How a task of the job stands: not done, returned, cancelled, or raised an error.
pub data Task : Type 0 where
  pending returned cancelled : Task
  raised : Error → Task

pub record Children : Type 0 where
  pub work : Task
  pub heartbeat : Task
  pub watchdog : Task
  pub stopped : Task

unfoldable pub is_done : Task → Bool
is_done pending = false
is_done _ = true

pub data Failure : Type 0 where
  interrupted lease_lost : Failure
  failed_with : Error → Failure

-- the error that `task.result()` raises
unfoldable pub failure_of : Task → Option Failure
failure_of (raised e) = some (failed_with e)
failure_of _ = none

-- `error`, from the tasks that `wait` returns as done
unfoldable pub settle : Children → Option Failure
unfolding is_done failure_of
settle done =
    if is_done done.stopped
    then some interrupted
    else if is_done done.watchdog
    then some lease_lost
    else if is_done done.heartbeat
    then failure_of done.heartbeat
    else failure_of done.work

-- `task.done() and not task.cancelled()`, after the tasks have been cancelled and gathered
unfoldable pub has_finished : Task → Bool
has_finished returned = true
has_finished (raised e) = true
has_finished _ = false

pub record Completion : Type 0 where
  pub listing_complete : Bool
  pub error : Option Failure
  pub discovered : ℕ

-- the body of the final request, from the tasks at the wake-up, the work after the clean-up and the
-- progress by then
unfoldable pub completion : Children → Task → Progress → Completion
unfolding settle has_finished
completion done work progress = record {
  listing_complete = progress.listing_complete && not (is_some (settle done)) && has_finished work;
  error = settle done;
  discovered = progress.discovered;
}
