-- ===== src/Core/RequestManager/Cooldown.antt =====
-- core/request_manager.py: `Retry-After`, and what an HTTP 429 does to the state of a host.
use nordicintel_harvest.Prelude.{◌+◌, String, Option, none, some, if◌then◌else◌, get_or, string_eq}
use nordicintel_harvest.Prelude.Int.{ℤ, pos, ◌+ℤ◌, ◌-ℤ◌, max_ℤ, min_ℤ}
use nordicintel_harvest.Prelude.Text.{strip, is_empty}
use nordicintel_harvest.Prelude.Dict.{lookup}
use nordicintel_harvest.Core.Errors.{Result, ok, err, key_error}
use nordicintel_harvest.Core.RequestManager.State.{Library, HostState, RequestManager, put_host}

-- a text that is no number is tried as a date, at the wall clock `utc`
abbrev retry_after_date : Library → String → ℤ → Option ℤ
retry_after_date lib text utc = elim (lib.date_of text) [
  | none ↦ none
  | some at ↦ some (max_ℤ (pos 0) (at -ℤ utc))
]

abbrev retry_after_text : Library → String → ℤ → Option ℤ
retry_after_text lib text utc = if is_empty text then none else elim (lib.float_of text) [
  | some seconds ↦ some (max_ℤ (pos 0) seconds)
  | none ↦ retry_after_date lib text utc
]

-- `_parse_retry_after_seconds`
unfoldable pub parse_retry_after_seconds : Library → Option String → ℤ → Option ℤ
unfolding strip
parse_retry_after_seconds lib none utc = none
parse_retry_after_seconds lib (some value) utc = retry_after_text lib (strip value) utc

-- `_compute_cooldown_seconds`
unfoldable pub compute_cooldown_seconds : Library → RequestManager → Option String → ℤ → ℤ
unfolding parse_retry_after_seconds
compute_cooldown_seconds lib m retry_after utc =
    min_ℤ (get_or (parse_retry_after_seconds lib retry_after utc) m.retry_429_default_cooldown)
      m.retry_429_max_cooldown

-- the state of a host after a 429 at the clock reading `now`
unfoldable pub slow_down : HostState → ℤ → ℤ → ℤ → HostState
slow_down s now cooldown increase = record s {
  cooldown_until = max_ℤ s.cooldown_until (now +ℤ cooldown);
  cooldown_events = s.cooldown_events + 1;
  last_retry_after = some cooldown;
  interval_slowdown = s.interval_slowdown +ℤ increase;
}

-- `_record_429`
unfoldable pub record_429 :
    Library → RequestManager → String → Option String → ℤ → ℤ → Result RequestManager
unfolding compute_cooldown_seconds slow_down
record_429 lib m host retry_after now utc = elim (lookup host m.host_states) [
  | none ↦ err key_error
  | some s ↦ ok (
      put_host m host (
        slow_down s now (compute_cooldown_seconds lib m retry_after utc)
          m.retry_429_interval_increase))
]
