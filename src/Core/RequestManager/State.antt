-- ===== src/Core/RequestManager/State.antt =====
-- core/request_manager.py: the state of the manager, its construction, and the limits of a host.
use nordicintel_harvest.Prelude.{
  ℕ, Bool, true, false, not, String, Option, none, some, if◌then◌else◌, get_or, [], string_eq,
}
use nordicintel_harvest.Prelude.Int.{ℤ, pos, ◌+ℤ◌, ltb_ℤ, int_beq}
use nordicintel_harvest.Prelude.Text.{is_empty}
use nordicintel_harvest.Prelude.Dict.{Dict, lookup, insert, map_values}
use nordicintel_harvest.Core.Errors.{Result, ok, err, value_error, ◌>>=◌, ◌>>◌, raise_if}
use nordicintel_harvest.Core.RateLimiter
use nordicintel_harvest.Core.RateLimiter.{RateLimiter}

-- What the program calls and does not implement: `urlparse(url).hostname`, `str.lower`, `float(s)`
-- in milliseconds, and `email.utils.parsedate_to_datetime` as an instant in milliseconds, a date
-- without a zone taken as UTC.
pub record Library : Type 0 where
  pub hostname : String → Option String
  pub lower : String → String
  pub float_of : String → Option ℤ
  pub date_of : String → Option ℤ

-- `_HostState`
pub record HostState : Type 0 where
  pub limiter : RateLimiter
  pub base_interval : ℤ
  pub max_concurrency : ℤ
  pub cooldown_until : ℤ
  pub cooldown_events : ℕ
  pub last_retry_after : Option ℤ
  pub interval_slowdown : ℤ

pub record RequestManager : Type 0 where
  pub default_interval : ℤ
  pub default_host_max_concurrency : ℤ
  pub global_max_concurrency : ℤ
  pub retry_429_default_cooldown : ℤ
  pub retry_429_interval_increase : ℤ
  pub retry_429_max_cooldown : ℤ
  pub timeout : ℤ
  pub host_states : Dict String HostState
  pub session_open : Bool

-- The arguments of `RequestManager(...)`, times in milliseconds.
pub record Options : Type 0 where
  pub global_max_concurrency : ℤ
  pub default_interval : ℤ
  pub default_max_concurrency : Option ℤ
  pub default_host_max_concurrency : Option ℤ
  pub timeout : ℤ
  pub retry_429_default_cooldown : ℤ
  pub retry_429_interval_increase : ℤ
  pub retry_429_max_cooldown : ℤ

-- `RequestManager.__init__`: the host limit, by the first of the two names that is given, or 10
abbrev pub host_limit : Options → ℤ
host_limit o = get_or o.default_host_max_concurrency (get_or o.default_max_concurrency (pos 10))

unfoldable pub create : Options → Result RequestManager
create o = do
  raise_if (ltb_ℤ o.default_interval (pos 0)) value_error
  raise_if (ltb_ℤ (host_limit o) (pos 1)) value_error
  raise_if (ltb_ℤ o.global_max_concurrency (pos 1)) value_error
  raise_if (not (ltb_ℤ (pos 0) o.timeout)) value_error
  raise_if (ltb_ℤ o.retry_429_default_cooldown (pos 0)) value_error
  raise_if (ltb_ℤ o.retry_429_interval_increase (pos 0)) value_error
  raise_if (ltb_ℤ o.retry_429_max_cooldown (pos 0)) value_error
  ok (record {
    default_interval = o.default_interval;
    default_host_max_concurrency = host_limit o;
    global_max_concurrency = o.global_max_concurrency;
    retry_429_default_cooldown = o.retry_429_default_cooldown;
    retry_429_interval_increase = o.retry_429_interval_increase;
    retry_429_max_cooldown = o.retry_429_max_cooldown;
    timeout = o.timeout;
    host_states = [];
    session_open = false;
  })

-- `start`, `close`: the session is opened if there is none, and closed and forgotten
unfoldable pub start : RequestManager → RequestManager
start m = if m.session_open then m else record m { session_open = true }

unfoldable pub close : RequestManager → RequestManager
close m = record m { session_open = false }

-- `get_base_host`
unfoldable pub get_base_host : Library → String → Result String
get_base_host lib url = elim (lib.hostname url) [
  | none ↦ err value_error
  | some host ↦ if is_empty host then err value_error else ok (lib.lower host)
]

-- a `_HostState` with its defaults, around a new limiter at the clock reading `now`
unfoldable pub new_host : ℤ → ℤ → ℤ → Result HostState
unfolding RateLimiter.create
new_host now interval max_concurrency = do
  limiter ← RateLimiter.create now interval max_concurrency
  ok (record {
    limiter = limiter;
    base_interval = interval;
    max_concurrency = max_concurrency;
    cooldown_until = pos 0;
    cooldown_events = 0;
    last_retry_after = none;
    interval_slowdown = pos 0;
  })

-- `m._host_states[host] = s`
abbrev pub put_host : RequestManager → String → HostState → RequestManager
put_host m host s = record m { host_states = insert host s m.host_states }

-- `_get_or_create_host_state`
unfoldable pub get_or_create_host_state :
    RequestManager → String → ℤ → Result (RequestManager × HostState)
unfolding new_host
get_or_create_host_state m host now = elim (lookup host m.host_states) [
  | some s ↦ ok (m, s)
  | none ↦ new_host now m.default_interval m.default_host_max_concurrency >>= λ s.
      ok (put_host m host s, s)
]

-- `set_limit` on a host that is known: a new limiter where the concurrency changes, or else the
-- old limiter with the new interval
unfoldable pub change_limit : HostState → ℤ → ℤ → ℤ → Result HostState
unfolding RateLimiter.create
change_limit s now interval max_concurrency =
    if int_beq s.max_concurrency max_concurrency
    then ok
        (record s { base_interval = interval; limiter = record s.limiter { interval = interval } })
    else (RateLimiter.create now interval max_concurrency >>= λ limiter. ok (record s {
      base_interval = interval;
      max_concurrency = max_concurrency;
      limiter = limiter;
    }))

-- the part of `set_limit` under the lock: the state that the host has after it
unfoldable pub limit_host : RequestManager → String → ℤ → ℤ → ℤ → Result HostState
unfolding new_host change_limit
limit_host m host now interval max_concurrency = elim (lookup host m.host_states) [
  | none ↦ new_host now interval max_concurrency
  | some s ↦ change_limit s now interval max_concurrency
]

-- `set_limit`
unfoldable pub set_limit :
    Library → RequestManager → String → Option ℤ → Option ℤ → ℤ → Result RequestManager
unfolding get_base_host limit_host
set_limit lib m url interval max_concurrency now = do
  let resolved_interval = get_or interval m.default_interval
  let resolved_max_concurrency = get_or max_concurrency m.default_host_max_concurrency
  raise_if (ltb_ℤ resolved_interval (pos 0)) value_error
  raise_if (ltb_ℤ resolved_max_concurrency (pos 1)) value_error
  host ← get_base_host lib url
  s ← limit_host m host now resolved_interval resolved_max_concurrency
  ok (put_host m host s)

-- `_effective_interval`
unfoldable pub effective_interval : HostState → ℤ
effective_interval s = s.base_interval +ℤ s.interval_slowdown

-- `get_effective_interval`
unfoldable pub get_effective_interval : Library → RequestManager → String → Result ℤ
unfolding get_base_host effective_interval
get_effective_interval lib m url = do
  host ← get_base_host lib url
  ok (elim (lookup host m.host_states) [
    | none ↦ m.default_interval
    | some s ↦ effective_interval s
  ])

-- `get_host_cooldown_events`
unfoldable pub get_host_cooldown_events : RequestManager → Dict String ℕ
get_host_cooldown_events m = map_values (λ s. s.cooldown_events) m.host_states
