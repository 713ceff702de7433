-- ===== src/Core/RequestManager/Retries.antt =====
-- `_make_request`: how often it tries, when it sends, and what it returns.
use nordicintel_harvest.Prelude.{
  ℕ, suc, ◌+◌, ◌≡◌, refl, ◌∙◌, Bool, true, false, String, Option, none, some, List, ◌∷◌, arith,
  ◌==◌, nat_eq, string_eq, ==-refl, leb,
}
use nordicintel_harvest.Prelude.Int.{ℤ, pos, ◌+ℤ◌, ◌≤ℤ◌, int_laws}
use nordicintel_harvest.Prelude.Dict.{lookup, lookup-insert}
use nordicintel_harvest.Core.Errors.{Result, ok, err, external_api_error}
use nordicintel_harvest.Core.RateLimiter.Spacing.{
  wait_for_interval_keeps, wait_for_interval_returns,
}
use nordicintel_harvest.Core.RequestManager.State.{
  Library, HostState, RequestManager, put_host, effective_interval,
}
use nordicintel_harvest.Core.RequestManager.Cooldown.{
  record_429, slow_down, compute_cooldown_seconds,
}
use nordicintel_harvest.Core.RequestManager.Attempts.{
  Response, Outcome, raised, answered, Turn, wait_for_host_cooldown, admit, attempts,
}
use nordicintel_harvest.Core.RequestManager.Limits.{
  HostIsValid, IsValid, put_host-IsValid, slow_down-HostIsValid,
}

wait_for_host_cooldown_bounds :
    (s : HostState) (now : ℤ) (late : ℕ)
    → (s.cooldown_until ≤ℤ wait_for_host_cooldown s now late)
      × (now ≤ℤ wait_for_host_cooldown s now late)
unfolding wait_for_host_cooldown
wait_for_host_cooldown_bounds s now late = grind int_laws

-- An attempt on a valid host is sent: after the cooldown, and after the interval.
pub record Admitted (s : HostState) (now : ℤ) (t : Turn) : Type 0 where
  pub state : HostState
  pub at : ℤ
  pub admitted : admit s now t ≡ ok (state, at)
  pub valid : HostIsValid state
  pub after_cooldown : s.cooldown_until ≤ℤ at
  pub after_now : now ≤ℤ at
  pub after_interval : s.limiter.last_request_time +ℤ effective_interval s ≤ℤ at
  pub stamped : state.limiter.last_request_time ≡ at
  pub kept : effective_interval state ≡ effective_interval s

allowed : (s : HostState) → HostIsValid s → pos 0 ≤ℤ s.base_interval +ℤ s.interval_slowdown
allowed s v = omega int_laws

pub admit-Admitted : (s : HostState) (now : ℤ) (t : Turn) → HostIsValid s → Admitted s now t
unfolding admit effective_interval
admit-Admitted s now t v =
    let ready = wait_for_host_cooldown s now t.cooldown_late in
    let (cooled, later) = wait_for_host_cooldown_bounds s now t.cooldown_late in
    let override : Option ℤ = some (s.base_interval +ℤ s.interval_slowdown) in
    let (w, waited, _, slots) =
      wait_for_interval_returns s.limiter override (ready +ℤ pos t.gap) t.late (allowed s v) in
    let (stamped, far, entered) =
      wait_for_interval_keeps s.limiter override (ready +ℤ pos t.gap) t.late w waited in
    record {
      state = record s { limiter = w.0 };
      at = w.1;
      admitted = rw waited;
      valid = record {
        interval = v.interval;
        slowdown = v.slowdown;
        concurrency = v.concurrency;
        slots = slots ∙ v.slots;
      };
      after_cooldown = omega int_laws;
      after_now = omega int_laws;
      after_interval = far;
      stamped = stamped;
      kept = refl;
    }

abbrev pub is_429 : Outcome → Bool
is_429 raised = false
is_429 (answered r) = r.status == 429

answered_of_429 :
    (o : Outcome) → is_429 o ≡ true → (r : Response) × (o ≡ answered r) × ((r.status == 429) ≡ true)
answered_of_429 raised h = cc
answered_of_429 (answered r) h = (r, refl, h)

-- what `_make_request` returns on an outcome that is no 429
abbrev pub reply : Outcome → Result (Option Response)
reply raised = ok none
reply (answered r) = ok (some r)

abbrev pub retry_after_of : Outcome → Option String
retry_after_of raised = none
retry_after_of (answered r) = r.retry_after

-- the cooldown that a 429 at this turn asks for
abbrev pub cooldown_of : Library → RequestManager → Turn → ℤ
cooldown_of lib m t = compute_cooldown_seconds lib m (retry_after_of t.outcome) t.utc

-- a valid manager that knows the host, and how far the host's waits have got
pub record Ready (m : RequestManager) (host : String) (s : HostState) : Type 0 where
  pub valid : IsValid m
  pub known : lookup host m.host_states ≡ some s

module _ (lib : Library) (world : ℕ → Turn) (host : String) (n k : ℕ) (m : RequestManager) (now : ℤ)
    (sent : List ℤ) (s : HostState) (ready : Ready m host s) where
  abbrev pub first : Admitted s now (world k)
  first = admit-Admitted s now (world k) (ready.valid.hosts host s ready.known)

  -- the clock when the outcome of this attempt is there
  abbrev pub done : ℤ
  done = first.at +ℤ pos (world k).duration

  -- An attempt whose outcome is no 429 is the last.
  pub attempts-reply :
      is_429 (world k).outcome ≡ false
      → let c = attempts lib world host (suc n) k m now sent in
        (c.result ≡ reply (world k).outcome) × (c.sent ≡ first.at ∷ sent) × IsValid c.manager
  unfolding attempts
  attempts-reply h = ground (
    arith,
    ready.known,
    first.admitted,
    put_host-IsValid m host first.state ready.valid first.valid,
  )

  -- The state of the host after a 429.
  abbrev pub slowed : HostState
  slowed = slow_down first.state done (cooldown_of lib m (world k)) m.retry_429_interval_increase

  abbrev pub after : RequestManager
  after = put_host (put_host m host first.state) host slowed

  pub after-Ready : Ready after host slowed
  after-Ready = record {
    valid =
        put_host-IsValid (put_host m host first.state) host slowed
          (put_host-IsValid m host first.state ready.valid first.valid)
          (slow_down-HostIsValid first.state done (cooldown_of lib m (world k))
            m.retry_429_interval_increase first.valid ready.valid.increase);
    known = rw lookup-insert (rw (==-refl host));
  }

  slowed_lem :
      (r : Response)
      → (world k).outcome ≡ answered r
      → record_429 lib (put_host m host first.state) host r.retry_after done (world k).utc
        ≡ ok after
  unfolding record_429
  slowed_lem r e = ground (arith, lookup-insert host host first.state m.host_states, ==-refl host)

  -- A 429 at the third attempt raises.
  pub attempts_give_up :
      is_429 (world k).outcome ≡ true
      → leb 3 k ≡ true
      → attempts lib world host (suc n) k m now sent ≡ record {
        manager = after;
        clock = done;
        sent = first.at ∷ sent;
        result = err external_api_error;
      }
  unfolding attempts
  attempts_give_up h last =
      let (r, e, status) = answered_of_429 (world k).outcome h in
      ground (arith, ready.known, first.admitted, slowed_lem r e)

  -- A 429 before that is tried again, in the state that it left.
  pub attempts_again :
      is_429 (world k).outcome ≡ true
      → leb 3 k ≡ false
      → attempts lib world host (suc n) k m now sent
        ≡ attempts lib world host n (k + 1) after done (first.at ∷ sent)
  unfolding attempts
  attempts_again h more =
      let (r, e, status) = answered_of_429 (world k).outcome h in
      ground (arith, ready.known, first.admitted, slowed_lem r e)
