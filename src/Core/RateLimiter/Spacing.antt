-- ===== src/Core/RateLimiter/Spacing.antt =====
-- Request starts that pass through one limiter keep their distance.
use nordicintel_harvest.Prelude.{ℕ, ◌≡◌, refl, ◌∙◌, All, Option, List, [], ◌∷◌, arith, get_or}
use nordicintel_harvest.Prelude.Int.{ℤ, pos, ◌+ℤ◌, ◌≤ℤ◌, int_laws}
use nordicintel_harvest.Core.Errors.{Result, ok, ◌>>=◌, >>=-eq-ok}
use nordicintel_harvest.Core.RateLimiter.{RateLimiter, effective, wake, wait_for_interval}

pub wake_bounds :
    (last interval now : ℤ) (late : ℕ)
    → (last +ℤ interval ≤ℤ wake last interval now late) × (now ≤ℤ wake last interval now late)
unfolding wake
wake_bounds last interval now late = grind int_laws

-- A call that does not raise returns no sooner than it was entered, and no sooner than its interval
-- after the previous call; that time is what the limiter remembers.
pub wait_for_interval_keeps :
    (limiter : RateLimiter) (interval_override : Option ℤ) (now : ℤ) (late : ℕ)
    (w : RateLimiter × ℤ)
    → wait_for_interval limiter interval_override now late ≡ ok w
    → (w.0.last_request_time ≡ w.1)
      × (limiter.last_request_time +ℤ effective limiter interval_override ≤ℤ w.1)
      × (now ≤ℤ w.1)
unfolding wait_for_interval
wait_for_interval_keeps limiter interval_override now late w h =
    ground
      (arith, wake_bounds limiter.last_request_time (effective limiter interval_override) now late)

-- One call for the limiter: the interval that it asks for, how long after the previous call it got
-- the lock, and how late it woke.
pub record Call : Type 0 where
  pub interval_override : Option ℤ
  pub gap : ℕ
  pub late : ℕ

-- The calls in the order in which they hold the lock: what each asked for, and when it started.
unfoldable pub starts : RateLimiter → ℤ → List Call → Result (List (ℤ × ℤ))
starts limiter now [] = ok []
starts limiter now (c ∷ calls) = do
  (limiter', started) ← wait_for_interval limiter c.interval_override (now +ℤ pos c.gap) c.late
  rest ← starts limiter' started calls
  ok ((effective limiter c.interval_override, started) ∷ rest)

abbrev pub IsSpaced : ℤ → List (ℤ × ℤ) → Type 0
IsSpaced last [] = Unit
IsSpaced last ((interval, started) ∷ rest) = (last +ℤ interval ≤ℤ started) × IsSpaced started rest

starts_ok_cons-IsSpaced :
    (limiter : RateLimiter) (c : Call) (next : RateLimiter) (started : ℤ) (rest log : List (ℤ × ℤ))
    → ok ((effective limiter c.interval_override, started) ∷ rest) ≡ ok log
    → next.last_request_time ≡ started
    → limiter.last_request_time +ℤ effective limiter c.interval_override ≤ℤ started
    → IsSpaced next.last_request_time rest
    → IsSpaced limiter.last_request_time log
starts_ok_cons-IsSpaced limiter c next started rest [] e stamped far tail = cc
starts_ok_cons-IsSpaced limiter c next started rest ((i, t) ∷ log) e stamped far tail = ground arith

starts_ok-IsSpaced :
    (limiter : RateLimiter) (now : ℤ) (calls : List Call) (log : List (ℤ × ℤ))
    → starts limiter now calls ≡ ok log
    → IsSpaced limiter.last_request_time log
unfolding starts
starts_ok-IsSpaced limiter now [] [] h = tt
starts_ok-IsSpaced limiter now [] (x ∷ log) h = cc
starts_ok-IsSpaced limiter now (c ∷ calls) log h =
    let (w, waited, more) =
      >>=-eq-ok (wait_for_interval limiter c.interval_override (now +ℤ pos c.gap) c.late) _ h in
    let (rest, ran, done) = >>=-eq-ok (starts w.0 w.1 calls) _ more in
    let (stamped, far, _) =
      wait_for_interval_keeps limiter c.interval_override (now +ℤ pos c.gap) c.late w waited in
    starts_ok_cons-IsSpaced limiter c w.0 w.1 rest log done stamped far
      (starts_ok-IsSpaced w.0 w.1 calls rest ran)

-- The interval in force for a call is not negative, so `wait_for_interval` does not raise.
abbrev pub IsAllowed : RateLimiter → Call → Type 0
IsAllowed limiter c = pos 0 ≤ℤ effective limiter c.interval_override

pub wait_for_interval_returns :
    (limiter : RateLimiter) (interval_override : Option ℤ) (now : ℤ) (late : ℕ)
    → pos 0 ≤ℤ effective limiter interval_override
    → (w : RateLimiter × ℤ) × (wait_for_interval limiter interval_override now late ≡ ok w)
      × (w.0.interval ≡ limiter.interval)
      × (w.0.max_concurrency ≡ limiter.max_concurrency)
unfolding wait_for_interval
wait_for_interval_returns limiter interval_override now late h =
    let started = wake limiter.last_request_time (effective limiter interval_override) now late in
    ((record limiter { last_request_time = started }, started), ground arith, refl, refl)

starts_returns :
    (limiter : RateLimiter) (now : ℤ) (calls : List Call) (i : ℤ)
    → limiter.interval ≡ i
    → All (λ c. pos 0 ≤ℤ get_or c.interval_override i) calls
    → (log : List (ℤ × ℤ)) × (starts limiter now calls ≡ ok log)
unfolding starts
starts_returns limiter now [] i e h = ([], refl)
starts_returns limiter now (c ∷ calls) i e h =
    let (w, waited, same, _) =
      wait_for_interval_returns limiter c.interval_override (now +ℤ pos c.gap) c.late (rw e h.0) in
    let (log, ran) = starts_returns w.0 w.1 calls i (same ∙ e) h.1 in
    ((effective limiter c.interval_override, w.1) ∷ log, rw (waited, ran))

-- Calls with allowed intervals all return, in the order in which they hold the lock, and each
-- starts no sooner than its own interval after the start before it (the first, after the limiter's
-- last request), whatever the gaps between the calls and however late a sleep wakes.
pub starts-IsSpaced :
    (limiter : RateLimiter) (now : ℤ) (calls : List Call)
    → All (IsAllowed limiter) calls
    → (log : List (ℤ × ℤ)) × (starts limiter now calls ≡ ok log)
      × IsSpaced limiter.last_request_time log
starts-IsSpaced limiter now calls h =
    let (log, ran) = starts_returns limiter now calls limiter.interval refl h in
    (log, ran, starts_ok-IsSpaced limiter now calls log ran)
