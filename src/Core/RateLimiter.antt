-- ===== src/Core/RateLimiter.antt =====
-- core/rate_limiter.py: `RateLimiter`. Times and intervals are whole milliseconds, with a sign. The
-- lock is held from the first reading of the clock to the last write, so the calls of
-- `wait_for_interval` run one after the other, in the order in which they get the lock.
pub mod Spacing
pub mod Slots
use nordicintel_harvest.Prelude.{ℕ, Bool, Option, if◌then◌else◌, get_or}
use nordicintel_harvest.Prelude.Int.{ℤ, pos, ◌+ℤ◌, ◌-ℤ◌, ltb_ℤ}
use nordicintel_harvest.Core.Errors.{Result, ok, err, value_error, ◌>>=◌, ◌>>◌, raise_if}

pub record RateLimiter : Type 0 where
  pub interval : ℤ
  pub max_concurrency : ℤ
  pub last_request_time : ℤ

-- `RateLimiter(interval, max_concurrency)` at the clock reading `now`
unfoldable pub create : ℤ → ℤ → ℤ → Result RateLimiter
create now interval max_concurrency = do
  raise_if (ltb_ℤ interval (pos 0)) value_error
  raise_if (ltb_ℤ max_concurrency (pos 1)) value_error
  ok (record {
    interval = interval;
    max_concurrency = max_concurrency;
    last_request_time = now -ℤ interval;
  })

-- The interval that a call keeps: its own, if it gives one.
abbrev pub effective : RateLimiter → Option ℤ → ℤ
effective limiter interval_override = get_or interval_override limiter.interval

-- The clock after the sleep, if there is one; `late` is how much later than due the second reading
-- of the clock comes.
unfoldable pub wake : ℤ → ℤ → ℤ → ℕ → ℤ
wake last interval now late =
    (if ltb_ℤ (now -ℤ last) interval then now +ℤ (interval -ℤ (now -ℤ last)) else now) +ℤ pos late

-- `wait_for_interval`, entered with the lock at `now`: the limiter and the time at which it returns
unfoldable pub wait_for_interval : RateLimiter → Option ℤ → ℤ → ℕ → Result (RateLimiter × ℤ)
unfolding wake
wait_for_interval limiter interval_override now late = do
  raise_if (ltb_ℤ (effective limiter interval_override) (pos 0)) value_error
  let started = wake limiter.last_request_time (effective limiter interval_override) now late
  ok (record limiter { last_request_time = started }, started)
