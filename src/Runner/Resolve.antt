-- ===== src/Runner/Resolve.antt =====
-- runner.py: `resolve`, the resolution of one selected dataset, up to what it reports.
use nordicintel_harvest.Prelude.{
  ℕ, zero, suc, ◌≤◌, ◌<◌, ◌≡◌, refl, sym, ap, ◌∙◌, ◌⊎◌, take, Bool, true, false, ◌&&◌, List, [],
  ◌∷◌, arith, ◌==◌, string_eq, if◌then◌else◌, length, Bool-cases, inl, inr,
}
use nordicintel_harvest.Prelude.Int.{ℤ}
use nordicintel_harvest.Core.Errors.{
  Error, value_error, external_api_error, client_error, timeout_error, Result, ok, err, ◌>>=◌, ◌>>◌,
  raise_if,
}
use nordicintel_harvest.Core.Json.{Value}
use nordicintel_harvest.Providers.Interface.{Identity, DatasetCandidate, identity}

-- The documents of a dataset: the identity that they carry, and their JSON form.
pub record Documents : Type 0 where
  pub identity : Identity
  pub json : Value

abbrev pub same_identity : Identity → Identity → Bool
same_identity a b =
    a.provider_code == b.provider_code
    && a.dataset_code == b.dataset_code
    && a.language == b.language

-- `except (ExternalAPIError, ClientError, TimeoutError)`
abbrev pub retryable : Error → Bool
retryable external_api_error = true
retryable client_error = true
retryable timeout_error = true
retryable _ = false

-- The loop over `range(len(retry_delays) + 1)`: the n-th call of `resolve_dataset` gives `answer n`.
-- The result, the delays slept, and the number of calls.
unfoldable pub resolve_attempts : (ℕ → Result Documents) → List ℤ → Result Documents × List ℤ × ℕ
resolve_attempts answer [] = (answer 0, [], 1)
resolve_attempts answer (delay ∷ delays) =
    let (r, slept, calls) = resolve_attempts (λ n. answer (suc n)) delays in
    elim (answer 0) [
      | ok documents ↦ (ok documents, [], 1)
      | err e ↦ if retryable e then (r, delay ∷ slept, suc calls) else (err e, [], 1)
    ]

-- What is reported of a dataset. The type of the exception stands for its text.
pub data Report : Type 0 where
  saved : Documents → Report
  failed : Error → Report
  skipped : Report

-- the rest of the `try`: the documents are validated again, and must be the candidate's
unfoldable pub checked :
    (Documents → Result Documents) → DatasetCandidate → Documents → Result Documents
checked validate c documents = do
  valid ← validate documents
  raise_if (if same_identity valid.identity (identity c) then false else true) value_error
  ok valid

abbrev report : Result Documents → Report
report (ok documents) = saved documents
report (err e) = failed e

-- `resolve`, up to `emit`
unfoldable pub resolve :
    (Documents → Result Documents) → (ℕ → Result Documents) → List ℤ → DatasetCandidate → Report
unfolding resolve_attempts checked
resolve validate answer delays c =
    report ((resolve_attempts answer delays).0 >>= checked validate c)

abbrev pub is_retried : Result Documents → Bool
is_retried (ok documents) = false
is_retried (err e) = retryable e

-- The calls before number `last` all failed in a way that is tried again; that call did not, or it
-- came after the last delay; its answer is the result.
pub record Settled (answer : ℕ → Result Documents) (delays : List ℤ) : Type 0 where
  pub last : ℕ
  pub within : last ≤ length delays
  pub before : (n : ℕ) → n < last → is_retried (answer n) ≡ true
  pub ended : (is_retried (answer last) ≡ false) ⊎ (last ≡ length delays)
  pub result : (resolve_attempts answer delays).0 ≡ answer last
  pub slept : (resolve_attempts answer delays).1 ≡ take last delays
  pub calls : (resolve_attempts answer delays).2 ≡ suc last

module _ (answer : ℕ → Result Documents) (delay : ℤ) (delays : List ℤ) where
  Settled-first : is_retried (answer 0) ≡ false → Settled answer (delay ∷ delays)
  unfolding resolve_attempts
  Settled-first h = record {
    last = 0;
    within = omega arith;
    before = λ n lt. elim lt [ ];
    ended = inl h;
    result = ground arith;
    slept = ground arith;
    calls = ground arith;
  }

  Settled-later :
      is_retried (answer 0) ≡ true
      → Settled (λ n. answer (suc n)) delays
      → Settled answer (delay ∷ delays)
  unfolding resolve_attempts
  Settled-later h s = record {
    last = suc s.last;
    within = omega (arith, s.within);
    before = elim [ zero ↦ λ lt. h | suc n ↦ λ lt. s.before n (omega arith) ];
    ended = elim s.ended [ inl e ↦ inl e | inr e ↦ inr (ap suc e) ];
    result = ground (arith, s.result);
    slept = ground (arith, s.slept);
    calls = ground (arith, s.calls);
  }

-- A dataset is asked for at most once more than there are delays: again after a delay while the
-- failure is one that is tried again, and the answer of the last call is the result.
pub resolve_attempts-Settled :
    (answer : ℕ → Result Documents) (delays : List ℤ) → Settled answer delays
unfolding resolve_attempts
resolve_attempts-Settled answer [] = record {
  last = 0;
  within = omega arith;
  before = λ n lt. elim lt [ ];
  ended = inr refl;
  result = refl;
  slept = refl;
  calls = refl;
}
resolve_attempts-Settled answer (delay ∷ delays) = elim (Bool-cases (is_retried (answer 0))) [
  | inl again ↦
      Settled-later answer delay delays again
        (resolve_attempts-Settled (λ n. answer (suc n)) delays)
  | inr settled ↦ Settled-first answer delay delays settled
]

same_identity_iff : (a b : Identity) → same_identity a b ≡ true → a ≡ b
same_identity_iff a b h = ground (
  arith,
  string_eq.beq_iff a.provider_code b.provider_code,
  string_eq.beq_iff a.dataset_code b.dataset_code,
  string_eq.beq_iff a.language b.language,
)

checked_split :
    (validate : Documents → Result Documents) (c : DatasetCandidate) (e : Documents)
    (r : Result Documents)
    → validate e ≡ r
    → (d : Documents)
    → report (
        r >>= λ v.
        raise_if (if same_identity v.identity (identity c) then false else true) value_error
        >> ok v)
      ≡ saved d
    → (x : Documents) × (ok e ≡ ok x) × (validate x ≡ ok d) × (d.identity ≡ identity c)
checked_split validate c e (err f) same d h = cc
checked_split validate c e (ok v) same d h =
    elim (Bool-cases (same_identity v.identity (identity c))) [
      | inl yes_same ↦
          let is_d : v ≡ d = ground arith in
          (
            e,
            refl,
            same ∙ ap ok is_d,
            rw (← is_d) (same_identity_iff v.identity (identity c) yes_same),
          )
      | inr not_same ↦ ground arith
    ]

checked-ok :
    (validate : Documents → Result Documents) (c : DatasetCandidate) (r : Result Documents)
    (d : Documents)
    → report (r >>= checked validate c) ≡ saved d
    → (e : Documents) × (r ≡ ok e) × (validate e ≡ ok d) × (d.identity ≡ identity c)
unfolding checked
checked-ok validate c (err e) d h = cc
checked-ok validate c (ok e) d h = checked_split validate c e (validate e) refl d h

-- What is saved of a dataset is the answer of a call, validated, and bears the candidate's identity.
pub resolve_saves :
    (validate : Documents → Result Documents) (answer : ℕ → Result Documents) (delays : List ℤ)
    (c : DatasetCandidate) (d : Documents)
    → resolve validate answer delays c ≡ saved d
    → (n : ℕ) × (e : Documents) × (answer n ≡ ok e)
      × (validate e ≡ ok d)
      × (d.identity ≡ identity c)
      × (n ≤ length delays)
unfolding resolve
resolve_saves validate answer delays c d h =
    let s = resolve_attempts-Settled answer delays in
    let (e, got, valid, same) = checked-ok validate c (resolve_attempts answer delays).0 d h in
    (s.last, e, sym s.result ∙ got, valid, same, s.within)
