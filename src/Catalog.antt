-- ===== src/Catalog.antt =====
-- catalog.py: a request to the catalogue, tried up to three times. What the connection gives for each
-- try is a parameter.
use nordicintel_harvest.Prelude.{
  ℕ, zero, suc, ◌+◌, ◌≤◌, ◌<◌, ◌^◌, ◌≡◌, refl, Bool, true, false, not, ◌||◌, ◌⊎◌, inl, inr, Option,
  none, some, List, [], ◌∷◌, arith, nat_eq, nat_beq, leb, contains, if◌then◌else◌, Bool-cases, ap,
  ◌∙◌, subst,
}
use nordicintel_harvest.Core.Errors.{
  Error, Result, ok, err, value_error, attribute_error, client_error, timeout_error, catalog_error,
}
use nordicintel_harvest.Core.Json.{Value, obj, get}

-- A reply has a status and a body, `none` where it is no JSON; or the try raises.
pub data Answer : Type 0 where
  replied : ℕ → Option Value → Answer
  failed : Error → Answer

-- the error that is raised for a status of 400 and above; an `error` that is no object has no `get`
unfoldable pub error_of : ℕ → Option Value → Error
unfolding get
error_of status (some (obj payload)) = elim (get "error" payload) [
  | none ↦ catalog_error status
  | some (obj error) ↦ catalog_error status
  | some v ↦ attribute_error
]
error_of status _ = catalog_error status

-- the body of the `try`
unfoldable pub read_answer : Answer → Result (Option Value)
unfolding error_of
read_answer (failed e) = err e
read_answer (replied status payload) =
    if nat_beq status 204
    then ok none
    else if leb 400 status
    then err (error_of status payload)
    else elim payload [ none ↦ err value_error | some v ↦ ok (some v) ]

abbrev pub retried_statuses : List ℕ
retried_statuses = 429 ∷ 500 ∷ 502 ∷ 503 ∷ 504 ∷ []

-- whether the handler lets the loop go on after this error
unfoldable pub is_retried : Error → Bool
is_retried client_error = true
is_retried timeout_error = true
is_retried (catalog_error status) = contains retried_statuses status
is_retried _ = false

abbrev pub last_attempt : Bool → ℕ
last_attempt retry = if retry then 2 else 0

-- what one try leads to: the rest of the loop is only for an error that is retried
abbrev pub next_try :
    Bool
    → ℕ
    → Result (Option Value)
    → Result (Option Value) × List ℕ
    → Result (Option Value) × List ℕ
next_try retry attempt (ok v) rest = (ok v, [])
next_try retry attempt (err e) (result, pauses) =
    if not (is_retried e) || nat_beq attempt (last_attempt retry)
    then (err e, [])
    else (result, 2 ^ attempt ∷ pauses)

-- The loop from an attempt on, for so many attempts: the result, and the pauses between the tries.
-- A loop that ran out would return None.
unfoldable pub request_from : Bool → (ℕ → Answer) → ℕ → ℕ → Result (Option Value) × List ℕ
unfolding read_answer is_retried
request_from retry answers attempt zero = (ok none, [])
request_from retry answers attempt (suc left) =
    next_try retry attempt (read_answer (answers attempt))
      (request_from retry answers (suc attempt) left)

unfoldable pub request : Bool → (ℕ → Answer) → Result (Option Value) × List ℕ
unfolding request_from
request retry answers = request_from retry answers 0 (if retry then 3 else 1)

abbrev pub goes_on : Result (Option Value) → Bool
goes_on (ok v) = false
goes_on (err e) = is_retried e

-- 2 ^ attempt, 2 ^ (attempt + 1), ...
unfoldable pub powers : ℕ → ℕ → List ℕ
powers attempt zero = []
powers attempt (suc n) = 2 ^ attempt ∷ powers (suc attempt) n

-- The try that a loop from an attempt on ends with.
pub record Ends (retry : Bool) (answers : ℕ → Answer) (attempt left : ℕ) : Type 0 where
  pub retries : ℕ
  pub bounded : attempt + retries ≤ last_attempt retry
  pub result :
      request_from retry answers attempt left
      ≡ (read_answer (answers (attempt + retries)), powers attempt retries)
  pub failing : (n : ℕ) → n < retries → goes_on (read_answer (answers (attempt + n))) ≡ true
  pub settled :
      (goes_on (read_answer (answers (attempt + retries))) ≡ false)
      ⊎ (attempt + retries ≡ last_attempt retry)

next_try-last :
    (retry : Bool) (attempt : ℕ) (r : Result (Option Value)) (rest : Result (Option Value) × List ℕ)
    → (goes_on r ≡ false) ⊎ (attempt ≡ last_attempt retry)
    → next_try retry attempt r rest ≡ (r, [])
next_try-last retry attempt (ok v) rest h = refl
next_try-last retry attempt (err e) rest h = ground arith

next_try-next :
    (retry : Bool) (attempt : ℕ) (r : Result (Option Value)) (rest : Result (Option Value) × List ℕ)
    → goes_on r ≡ true
    → nat_beq attempt (last_attempt retry) ≡ false
    → next_try retry attempt r rest ≡ (rest.0, 2 ^ attempt ∷ rest.1)
next_try-next retry attempt (ok v) rest h k = cc
next_try-next retry attempt (err e) rest h k = ground arith

-- the loop ends with its first try
first-Ends :
    (retry : Bool) (answers : ℕ → Answer) (attempt left : ℕ)
    → attempt ≤ last_attempt retry
    → (goes_on (read_answer (answers attempt)) ≡ false) ⊎ (attempt ≡ last_attempt retry)
    → Ends retry answers attempt (suc left)
unfolding request_from powers
first-Ends retry answers attempt left h final =
    let same : attempt ≡ attempt + 0 = omega arith in
    record {
      retries = 0;
      bounded = omega arith;
      result =
          next_try-last retry attempt (read_answer (answers attempt))
            (request_from retry answers (suc attempt) left) final
          ∙ ap (λ a. (read_answer (answers a), [])) same;
      failing = λ n k. absurd (omega arith);
      settled =
          subst (λ a. (goes_on (read_answer (answers a)) ≡ false) ⊎ (a ≡ last_attempt retry)) same
            final;
    }

failing_later :
    (retry : Bool) (answers : ℕ → Answer) (attempt left : ℕ)
    → goes_on (read_answer (answers attempt)) ≡ true
    → (rest : Ends retry answers (suc attempt) left) → (n : ℕ) → n < suc rest.retries
    → goes_on (read_answer (answers (attempt + n))) ≡ true
failing_later retry answers attempt left again rest zero h =
    let same : attempt ≡ attempt + 0 = omega arith in
    subst (λ a. goes_on (read_answer (answers a)) ≡ true) same again
failing_later retry answers attempt left again rest (suc n) h =
    let shift : suc attempt + n ≡ attempt + suc n = omega arith in
    subst (λ a. goes_on (read_answer (answers a)) ≡ true) shift (rest.failing n (omega arith))

-- the first try fails, and the loop ends with a later one
later-Ends :
    (retry : Bool) (answers : ℕ → Answer) (attempt left : ℕ)
    → goes_on (read_answer (answers attempt)) ≡ true
    → attempt < last_attempt retry
    → Ends retry answers (suc attempt) left
    → Ends retry answers attempt (suc left)
unfolding request_from powers
later-Ends retry answers attempt left again h rest =
    let shift : suc attempt + rest.retries ≡ attempt + suc rest.retries = omega arith in
    record {
      retries = suc rest.retries;
      bounded = omega (arith, rest.bounded);
      result =
          next_try-next retry attempt (read_answer (answers attempt))
            (request_from retry answers (suc attempt) left) again (ground arith)
          ∙ ap (λ r. (r.0, 2 ^ attempt ∷ r.1)) rest.result
          ∙ ap (λ a. (read_answer (answers a), 2 ^ attempt ∷ powers (suc attempt) rest.retries))
              shift;
      failing = failing_later retry answers attempt left again rest;
      settled =
          subst (λ a. (goes_on (read_answer (answers a)) ≡ false) ⊎ (a ≡ last_attempt retry)) shift
            rest.settled;
    }

request_from-Ends :
    (retry : Bool) (answers : ℕ → Answer) (attempt left : ℕ)
    → attempt + left ≡ last_attempt retry
    → Ends retry answers attempt (suc left)
request_from-Ends retry answers attempt zero h =
    first-Ends retry answers attempt zero (omega arith) (inr (omega arith))
request_from-Ends retry answers attempt (suc left) h =
    elim (Bool-cases (goes_on (read_answer (answers attempt)))) [
      | inl again ↦
          later-Ends retry answers attempt (suc left) again (omega arith)
            (request_from-Ends retry answers (suc attempt) left (omega arith))
      | inr final ↦ first-Ends retry answers attempt (suc left) (omega arith) (inl final)
    ]

-- what a run of the whole loop shows
Outcome : Bool → (ℕ → Answer) → ℕ → Result (Option Value) × List ℕ → Type 0
Outcome retry answers n run =
    (n ≤ last_attempt retry)
    × (run ≡ (read_answer (answers n), powers 0 n))
    × ((i : ℕ) → i < n → goes_on (read_answer (answers i)) ≡ true)
    × ((goes_on (read_answer (answers n)) ≡ false) ⊎ (n ≡ last_attempt retry))

Ends-Outcome :
    (retry : Bool) (answers : ℕ → Answer) (left : ℕ)
    → (e : Ends retry answers 0 left)
    → Outcome retry answers e.retries (request_from retry answers 0 left)
unfolding Outcome
Ends-Outcome retry answers left e =
    let zero_add : (i : ℕ) → 0 + i ≡ i = λ i. omega arith in
    (
      omega (arith, e.bounded),
      e.result ∙ ap (λ a. (read_answer (answers a), powers 0 e.retries)) (zero_add e.retries),
      (λ i h. subst (λ a. goes_on (read_answer (answers a)) ≡ true) (zero_add i) (e.failing i h)),
      subst (λ a. (goes_on (read_answer (answers a)) ≡ false) ⊎ (a ≡ last_attempt retry))
          (zero_add e.retries) e.settled,
    )

-- A request ends with the result of one of its tries, the third at most, or the first where it is
-- not to be retried. All tries before that one fail in a way that is retried, with pauses of 1 and 2
-- seconds after them, and it is the last one allowed or does not fail in such a way.
pub request_lem :
    (retry : Bool) (answers : ℕ → Answer)
    → (n : ℕ) × (n ≤ last_attempt retry)
      × (request retry answers ≡ (read_answer (answers n), powers 0 n))
      × ((i : ℕ) → i < n → goes_on (read_answer (answers i)) ≡ true)
      × ((goes_on (read_answer (answers n)) ≡ false) ⊎ (n ≡ last_attempt retry))
unfolding request Outcome
request_lem true answers =
    let e = request_from-Ends true answers 0 2 refl in
    let (bounded, result, failing, settled) = Ends-Outcome true answers 3 e in
    (e.retries, bounded, result, failing, settled)
request_lem false answers =
    let e = request_from-Ends false answers 0 0 refl in
    let (bounded, result, failing, settled) = Ends-Outcome false answers 1 e in
    (e.retries, bounded, result, failing, settled)
