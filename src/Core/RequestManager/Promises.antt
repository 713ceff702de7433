-- ===== src/Core/RequestManager/Promises.antt =====
-- What `_make_request` promises its callers on a valid manager.
use nordicintel_harvest.Prelude.{
  ℕ, zero, suc, ◌+◌, ◌<◌, ◌≡◌, refl, ◌∙◌, ap, String, Option, none, List, [], ◌∷◌, arith,
  if◌then◌else◌, length, leb, Bool-cases, inl, inr,
}
use nordicintel_harvest.Prelude.Int.{ℤ, pos, ◌+ℤ◌, ◌≤ℤ◌, ≤ℤ_trans, int_laws}
use nordicintel_harvest.Core.Errors.{Result, ok, err, external_api_error}
use nordicintel_harvest.Core.RequestManager.State.{
  Library, HostState, RequestManager, start, get_base_host, get_or_create_host_state,
  effective_interval,
}
use nordicintel_harvest.Core.RequestManager.Cooldown.{slow_down, compute_cooldown_seconds}
use nordicintel_harvest.Core.RequestManager.Attempts.{
  Response, Turn, Call, Bodies, check_bodies, attempts, make_request_raw,
}
use nordicintel_harvest.Core.RequestManager.Limits.{
  IsValid, get_or_create_host_state-Found, interval_of,
}
use nordicintel_harvest.Core.RequestManager.Retries

-- Three attempts, one after the other while the outcome is a 429: the result, and how many requests
-- are sent.
abbrev pub expected : (ℕ → Turn) → Result (Option Response) × ℕ
expected world =
    if Retries.is_429 (world 1).outcome
    then if Retries.is_429 (world 2).outcome
      then if Retries.is_429 (world 3).outcome
        then (err external_api_error, 3)
        else (Retries.reply (world 3).outcome, 3)
      else (Retries.reply (world 2).outcome, 2)
    else (Retries.reply (world 1).outcome, 1)

spaced :
    (last interval earlier base at : ℤ)
    → last ≡ earlier
    → last +ℤ interval ≤ℤ at
    → base ≤ℤ interval
    → earlier +ℤ base ≤ℤ at
spaced last interval earlier base at e h k = rw (← e) (omega int_laws)

abbrev expected_from : (ℕ → Turn) → ℕ → ℕ → Result (Option Response) × ℕ
expected_from world zero k = (ok none, 0)
expected_from world (suc n) k =
    let again = expected_from world n (k + 1) in
    if Retries.is_429 (world k).outcome
    then if leb 3 k then (err external_api_error, k) else again
    else (Retries.reply (world k).outcome, k)

module _ (world : ℕ → Turn) (cooldown : Turn → ℤ) (base : ℤ) where
  -- The requests of one call, the last first: each is sent no sooner than the cooldown that the 429
  -- before it asked for, counted from its arrival, and no sooner than `base` after it was sent.
  abbrev pub Respects : List ℤ → Type 0
  Respects [] = Unit
  Respects (x ∷ []) = Unit
  Respects (later ∷ earlier ∷ rest) =
      let t = world (suc (length rest)) in
      (earlier +ℤ pos t.duration +ℤ cooldown t ≤ℤ later)
      × (earlier +ℤ base ≤ℤ later)
      × Respects (earlier ∷ rest)

  -- The state of the host holds the next request back for as long.
  abbrev Holds : HostState → List ℤ → Type 0
  Holds s [] = base ≤ℤ effective_interval s
  Holds s (earlier ∷ rest) =
      let t = world (suc (length rest)) in
      (base ≤ℤ effective_interval s)
      × (s.limiter.last_request_time ≡ earlier)
      × (earlier +ℤ pos t.duration +ℤ cooldown t ≤ℤ s.cooldown_until)

  Respects-cons :
      (s : HostState) (now : ℤ) (t : Turn) (a : Retries.Admitted s now t) (sent : List ℤ)
      → Holds s sent
      → Respects sent
      → Respects (a.at ∷ sent)
  Respects-cons s now t a [] h r = tt
  Respects-cons s now t a (earlier ∷ rest) h r = (
    ≤ℤ_trans
        (earlier
          +ℤ pos (world (suc (length rest))).duration
          +ℤ cooldown (world (suc (length rest))))
        s.cooldown_until a.at h.2 a.after_cooldown,
    spaced s.limiter.last_request_time (effective_interval s) earlier base a.at h.1 a.after_interval
        h.0,
    r,
  )

  Holds-interval : (s : HostState) (sent : List ℤ) → Holds s sent → base ≤ℤ effective_interval s
  Holds-interval s [] h = h
  Holds-interval s (x ∷ sent) h = h.0

slow_down_bounds :
    (s : HostState) (now cooldown increase : ℤ)
    → pos 0 ≤ℤ increase
    → (now +ℤ cooldown ≤ℤ (slow_down s now cooldown increase).cooldown_until)
      × (effective_interval s ≤ℤ effective_interval (slow_down s now cooldown increase))
unfolding slow_down effective_interval
slow_down_bounds s now cooldown increase h = grind int_laws

-- What a call has done when it is over.
record Kept (world : ℕ → Turn) (cooldown : Turn → ℤ) (base : ℤ) (c : Call)
    (x : Result (Option Response) × ℕ) : Type 0 where
  result : c.result ≡ x.0
  count : length c.sent ≡ x.1
  valid : IsValid c.manager
  respects : Respects world cooldown base c.sent

module _ (lib : Library) (world : ℕ → Turn) (host : String) (cooldown : Turn → ℤ) (base : ℤ) where
  slowed-Holds :
      (n k : ℕ) (m : RequestManager) (now : ℤ) (sent : List ℤ) (s : HostState)
      (ready : Retries.Ready m host s)
      → suc (length sent) ≡ k
      → Retries.cooldown_of lib m (world k) ≡ cooldown (world k)
      → base ≤ℤ effective_interval s
      → Holds world cooldown base
          (Retries.slowed lib world host n k m now sent s ready)
          ((Retries.first lib world host n k m now sent s ready).at ∷ sent)
  unfolding slow_down
  slowed-Holds n k m now sent s ready count same h =
      let a = Retries.first lib world host n k m now sent s ready in
      let asked = Retries.cooldown_of lib m (world k) in
      let (cooled, slower) =
        slow_down_bounds a.state (a.at +ℤ pos (world k).duration) asked
          m.retry_429_interval_increase ready.valid.increase in
      (
        ≤ℤ_trans base (effective_interval s)
            (effective_interval (Retries.slowed lib world host n k m now sent s ready)) h
            (rw (← a.kept) slower),
        a.stamped,
        rw (count, ← same) cooled,
      )

  attempts-Kept :
      (n k : ℕ) (m : RequestManager) (now : ℤ) (sent : List ℤ) (s : HostState)
      → suc (length sent) ≡ k
      → k + n ≡ 4
      → ((t : Turn) → Retries.cooldown_of lib m t ≡ cooldown t)
      → Retries.Ready m host s
      → Holds world cooldown base s sent
      → Respects world cooldown base sent
      → 0 < n
      → Kept world cooldown base (attempts lib world host n k m now sent) (expected_from world n k)
  unfolding compute_cooldown_seconds
  attempts-Kept zero k m now sent s count total same ready holds r some_left = elim some_left [ ]
  attempts-Kept (suc n) k m now sent s count total same ready holds r some_left =
      let a = Retries.first lib world host n k m now sent s ready in
      let respects = Respects-cons world cooldown base s now (world k) a sent holds r in
      elim (Bool-cases (Retries.is_429 (world k).outcome)) [
        | inr no_429 ↦
            let (result, log, valid) =
              Retries.attempts-reply lib world host n k m now sent s ready no_429 in
            rw no_429 (record {
              result = result;
              count = ap length log ∙ count;
              valid = valid;
              respects = rw log respects;
            })
        | inl yes_429 ↦ elim (Bool-cases (leb 3 k)) [
          | inl last ↦
              rw
                (
                  Retries.attempts_give_up lib world host n k m now sent s ready yes_429 last,
                  yes_429,
                  last,
                )
                (record {
                  result = refl;
                  count = count;
                  valid = (Retries.after-Ready lib world host n k m now sent s ready).valid;
                  respects = respects;
                })
          | inr more ↦
              rw
                (
                  Retries.attempts_again lib world host n k m now sent s ready yes_429 more,
                  yes_429,
                  more,
                )
                (attempts-Kept n (k + 1) (Retries.after lib world host n k m now sent s ready)
                  (Retries.done lib world host n k m now sent s ready) (a.at ∷ sent)
                  (Retries.slowed lib world host n k m now sent s ready) (omega arith) (omega arith)
                  same (Retries.after-Ready lib world host n k m now sent s ready)
                  (slowed-Holds n k m now sent s ready count (same (world k))
                    (Holds-interval world cooldown base s sent holds))
                  respects (ground arith))
        ]
      ]

compute_cooldown_seconds_cong :
    (lib : Library) (m m' : RequestManager) (retry_after : Option String) (utc : ℤ)
    → m'.retry_429_default_cooldown ≡ m.retry_429_default_cooldown
    → m'.retry_429_max_cooldown ≡ m.retry_429_max_cooldown
    → compute_cooldown_seconds lib m' retry_after utc
      ≡ compute_cooldown_seconds lib m retry_after utc
unfolding compute_cooldown_seconds
compute_cooldown_seconds_cong lib m m' retry_after utc d x = rw (d, x)

pub start-IsValid : (m : RequestManager) → IsValid m → IsValid (start m)
unfolding start
start-IsValid m v = record {
  interval = ground (arith, v.interval);
  concurrency = ground (arith, v.concurrency);
  increase = ground (arith, v.increase);
  ceiling = ground (arith, v.ceiling);
  default_cooldown = ground (arith, v.default_cooldown);
  global_concurrency = ground (arith, v.global_concurrency);
  patience = ground (arith, v.patience);
  hosts = λ host s e. ground (arith, v.hosts host s);
}

start_same :
    (m : RequestManager) (host : String)
    → (interval_of (start m) host ≡ interval_of m host)
      × ((start m).retry_429_default_cooldown ≡ m.retry_429_default_cooldown)
      × ((start m).retry_429_max_cooldown ≡ m.retry_429_max_cooldown)
unfolding start
start_same m host = ground arith

≤ℤ_refl : (a : ℤ) → a ≤ℤ a
≤ℤ_refl a = omega arith

module _ (lib : Library) (world : ℕ → Turn) (m : RequestManager) (url : String) (bodies : Bodies)
    (now : ℤ) (host : String) (valid : IsValid m) (checked : check_bodies bodies ≡ ok tt)
    (named : get_base_host lib url ≡ ok host) where
  abbrev call : Call
  call = make_request_raw lib world m url bodies now

  make_request_raw_ready :
      (r : RequestManager) (s : HostState)
      → get_or_create_host_state (start m) host now ≡ ok (r, s)
      → call ≡ attempts lib world host 3 1 r now []
  unfolding make_request_raw
  make_request_raw_ready r s found = ground (arith, checked, named, found)

  make_request_raw-Kept :
      Kept world (Retries.cooldown_of lib m) (interval_of m host) call (expected_from world 3 1)
  make_request_raw-Kept =
      let f = get_or_create_host_state-Found (start m) host now (start-IsValid m valid) in
      let (interval, default_cooldown, max_cooldown) = start_same m host in
      rw (make_request_raw_ready f.manager f.state f.found) (
        attempts-Kept lib world host (Retries.cooldown_of lib m) (interval_of m host) 3 1 f.manager
          now [] f.state refl refl
          (λ t.
            compute_cooldown_seconds_cong lib m f.manager (Retries.retry_after_of t.outcome) t.utc
              (f.default_cooldown ∙ default_cooldown) (f.max_cooldown ∙ max_cooldown))
          (record { valid = f.valid; known = f.known })
          (rw (← interval, ← f.interval) (≤ℤ_refl (effective_interval f.state))) tt (omega arith))

  -- On a valid manager, with bodies that agree and a URL that has a host, a call sends at most three
  -- requests, each of the later ones after a 429; it returns the first response that is no 429, or
  -- `None` where the client raised, and raises after three 429s. The manager stays valid.
  pub make_request_raw_lem :
      (call.result ≡ (expected world).0)
      × (length call.sent ≡ (expected world).1)
      × IsValid call.manager
  make_request_raw_lem =
      let k = make_request_raw-Kept in (ground (arith, k.result), ground (arith, k.count), k.valid)

  -- In such a call every request after the first is sent no sooner than the cooldown that the 429
  -- before it asked for, and no sooner than the host's interval after the request before it.
  pub make_request_raw-Respects :
      Respects world (Retries.cooldown_of lib m) (interval_of m host) call.sent
  make_request_raw-Respects = make_request_raw-Kept.respects
