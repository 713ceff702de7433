-- ===== src/Core/RequestManager/Limits.antt =====
-- The limits of every host stay in range.
use nordicintel_harvest.Prelude.{
  ◌≡◌, refl, String, Option, none, some, arith, Option-cases, string_eq, get_or, inl, inr, subst,
  ==-refl, sym, ap, ◌∙◌,
}
use nordicintel_harvest.Prelude.Int.{ℤ, pos, ◌+ℤ◌, ◌≤ℤ◌, int_laws, ltb_ℤ, ◌-ℤ◌}
use nordicintel_harvest.Prelude.Dict.{lookup, lookup-insert}
use nordicintel_harvest.Core.Errors.{ok, value_error, raise_if, >>=-eq-ok, ok-injective}
use nordicintel_harvest.Core.RateLimiter
use nordicintel_harvest.Core.RequestManager.State.{
  Library, HostState, RequestManager, Options, create, put_host, new_host, change_limit, limit_host,
  set_limit, get_base_host, get_or_create_host_state, effective_interval, get_effective_interval,
}
use nordicintel_harvest.Core.RequestManager.Cooldown.{slow_down}

pub record HostIsValid (s : HostState) : Type 0 where
  pub interval : pos 0 ≤ℤ s.base_interval
  pub slowdown : pos 0 ≤ℤ s.interval_slowdown
  pub concurrency : pos 1 ≤ℤ s.max_concurrency
  pub slots : s.limiter.max_concurrency ≡ s.max_concurrency

abbrev pub slowdown_of : RequestManager → String → ℤ
slowdown_of m host = elim (lookup host m.host_states) [
  | none ↦ pos 0
  | some s ↦ s.interval_slowdown
]

-- the interval in force on a host, the default where the host is not known yet
abbrev pub interval_of : RequestManager → String → ℤ
interval_of m host = elim (lookup host m.host_states) [
  | none ↦ m.default_interval
  | some s ↦ effective_interval s
]

pub record IsValid (m : RequestManager) : Type 0 where
  pub interval : pos 0 ≤ℤ m.default_interval
  pub concurrency : pos 1 ≤ℤ m.default_host_max_concurrency
  pub increase : pos 0 ≤ℤ m.retry_429_interval_increase
  pub ceiling : pos 0 ≤ℤ m.retry_429_max_cooldown
  pub default_cooldown : pos 0 ≤ℤ m.retry_429_default_cooldown
  pub global_concurrency : pos 1 ≤ℤ m.global_max_concurrency
  pub patience : pos 1 ≤ℤ m.timeout
  pub hosts : (host : String) (s : HostState) → lookup host m.host_states ≡ some s → HostIsValid s

-- A manager that `__init__` accepts is valid.
pub create-IsValid : (o : Options) (m : RequestManager) → create o ≡ ok m → IsValid m
unfolding create lookup
create-IsValid o m h = record {
  interval = ground arith;
  concurrency = ground arith;
  increase = ground arith;
  ceiling = ground arith;
  default_cooldown = ground arith;
  global_concurrency = ground arith;
  patience = ground arith;
  hosts = λ host s e. ground arith;
}

pub put_host-IsValid :
    (m : RequestManager) (host : String) (s : HostState)
    → IsValid m
    → HostIsValid s
    → IsValid (put_host m host s)
put_host-IsValid m host s v h = record {
  interval = v.interval;
  concurrency = v.concurrency;
  increase = v.increase;
  ceiling = v.ceiling;
  default_cooldown = v.default_cooldown;
  global_concurrency = v.global_concurrency;
  patience = v.patience;
  hosts = λ other t e. ground (arith, lookup-insert host other s m.host_states, v.hosts other t);
}

new_host-HostIsValid :
    (now interval max_concurrency : ℤ) (s : HostState)
    → new_host now interval max_concurrency ≡ ok s
    → HostIsValid s
unfolding new_host
new_host-HostIsValid now interval max_concurrency s h = ground arith

change_limit-HostIsValid :
    (s : HostState) (now interval max_concurrency : ℤ) (t : HostState)
    → HostIsValid s
    → pos 0 ≤ℤ interval
    → pos 1 ≤ℤ max_concurrency
    → change_limit s now interval max_concurrency ≡ ok t
    → HostIsValid t
unfolding change_limit
change_limit-HostIsValid s now interval max_concurrency t v i c h = ground arith

limit_host-HostIsValid :
    (m : RequestManager) (host : String) (now interval max_concurrency : ℤ) (t : HostState)
    → IsValid m
    → pos 0 ≤ℤ interval
    → pos 1 ≤ℤ max_concurrency
    → limit_host m host now interval max_concurrency ≡ ok t
    → HostIsValid t
unfolding limit_host
limit_host-HostIsValid m host now interval max_concurrency t v i c h =
    elim (Option-cases (lookup host m.host_states)) [
      | inl unknown ↦ ground (arith, new_host-HostIsValid now interval max_concurrency t)
      | inr (s, known) ↦
          ground (arith, change_limit-HostIsValid s now interval max_concurrency t, v.hosts host s)
    ]

-- What a call of `set_limit` that does not raise has done.
record Limited (lib : Library) (m : RequestManager) (url : String)
    (interval max_concurrency now : ℤ) (m' : RequestManager) : Type 0 where
  host : String
  state : HostState
  named : get_base_host lib url ≡ ok host
  limited : limit_host m host now interval max_concurrency ≡ ok state
  stored : put_host m host state ≡ m'
  interval_ok : pos 0 ≤ℤ interval
  concurrency_ok : pos 1 ≤ℤ max_concurrency

module _ (lib : Library) (m : RequestManager) (url : String) (interval max_concurrency : Option ℤ)
    (now : ℤ) (m' : RequestManager) where
  abbrev i : ℤ
  i = get_or interval m.default_interval

  abbrev c : ℤ
  c = get_or max_concurrency m.default_host_max_concurrency

  set_limit-Limited :
      set_limit lib m url interval max_concurrency now ≡ ok m' → Limited lib m url i c now m'
  unfolding set_limit
  set_limit-Limited h =
      let (_, i_ok, h₁) = >>=-eq-ok (raise_if (ltb_ℤ i (pos 0)) value_error) _ h in
      let (_, c_ok, h₂) = >>=-eq-ok (raise_if (ltb_ℤ c (pos 1)) value_error) _ h₁ in
      let (host, named, h₃) = >>=-eq-ok (get_base_host lib url) _ h₂ in
      let (s, limited, same) = >>=-eq-ok (limit_host m host now i c) _ h₃ in
      record {
        host = host;
        state = s;
        named = named;
        limited = limited;
        stored = ok-injective same;
        interval_ok = ground arith;
        concurrency_ok = ground arith;
      }

  -- `set_limit` keeps the manager valid.
  pub set_limit-IsValid :
      IsValid m → set_limit lib m url interval max_concurrency now ≡ ok m' → IsValid m'
  set_limit-IsValid v h =
      let l = set_limit-Limited h in
      let fits =
        limit_host-HostIsValid m l.host now i c l.state v l.interval_ok l.concurrency_ok
          l.limited in
      subst IsValid l.stored (put_host-IsValid m l.host l.state v fits)

new_host_returns :
    (now interval max_concurrency : ℤ)
    → pos 0 ≤ℤ interval
    → pos 1 ≤ℤ max_concurrency
    → (s : HostState) × (new_host now interval max_concurrency ≡ ok s)
unfolding new_host
new_host_returns now interval max_concurrency i c = (
  record {
    limiter = record {
      interval = interval;
      max_concurrency = max_concurrency;
      last_request_time = now -ℤ interval;
    };
    base_interval = interval;
    max_concurrency = max_concurrency;
    cooldown_until = pos 0;
    cooldown_events = 0;
    last_retry_after = none;
    interval_slowdown = pos 0;
  },
  ground arith,
)

-- What a call works with: the state of its host, found or made within the defaults.
pub record Found (m : RequestManager) (host : String) (now : ℤ) : Type 0 where
  pub manager : RequestManager
  pub state : HostState
  pub found : get_or_create_host_state m host now ≡ ok (manager, state)
  pub valid : IsValid manager
  pub known : lookup host manager.host_states ≡ some state
  pub interval : effective_interval state ≡ interval_of m host
  pub default_cooldown : manager.retry_429_default_cooldown ≡ m.retry_429_default_cooldown
  pub max_cooldown : manager.retry_429_max_cooldown ≡ m.retry_429_max_cooldown

new_host-effective_interval :
    (now interval max_concurrency : ℤ) (s : HostState)
    → new_host now interval max_concurrency ≡ ok s
    → effective_interval s ≡ interval
unfolding new_host effective_interval
new_host-effective_interval now interval max_concurrency s h =
    let (limiter, made, e) = >>=-eq-ok (RateLimiter.create now interval max_concurrency) _ h in
    rw (← ok-injective e) (omega int_laws)

pub get_or_create_host_state-Found :
    (m : RequestManager) (host : String) (now : ℤ) → IsValid m → Found m host now
unfolding get_or_create_host_state
get_or_create_host_state-Found m host now v = elim (Option-cases (lookup host m.host_states)) [
  | inl unknown ↦
      let i = m.default_interval in
      let c = m.default_host_max_concurrency in
      let (s, made) = new_host_returns now i c v.interval v.concurrency in
      record {
        manager = put_host m host s;
        state = s;
        found = ground arith;
        valid = put_host-IsValid m host s v (new_host-HostIsValid now i c s made);
        known = rw lookup-insert (rw (==-refl host));
        interval = ground (arith, new_host-effective_interval now i c s made);
        default_cooldown = refl;
        max_cooldown = refl;
      }
  | inr (s, known) ↦ record {
    manager = m;
    state = s;
    found = ground arith;
    valid = v;
    known = known;
    interval = ground arith;
    default_cooldown = refl;
    max_cooldown = refl;
  }
]

pub slow_down-HostIsValid :
    (s : HostState) (now cooldown increase : ℤ)
    → HostIsValid s
    → pos 0 ≤ℤ increase
    → HostIsValid (slow_down s now cooldown increase)
unfolding slow_down
slow_down-HostIsValid s now cooldown increase v h = record {
  interval = v.interval;
  slowdown = omega int_laws;
  concurrency = v.concurrency;
  slots = v.slots;
}

limit_host-effective_interval :
    (m : RequestManager) (host : String) (now interval max_concurrency : ℤ) (s : HostState)
    → limit_host m host now interval max_concurrency ≡ ok s
    → effective_interval s ≡ interval +ℤ slowdown_of m host
unfolding limit_host new_host change_limit effective_interval
limit_host-effective_interval m host now interval max_concurrency s h = ground arith

-- After `set_limit`, `get_effective_interval` of that URL is the interval that was set, or the
-- default, and the slowdown that earlier 429s have left on the host.
pub get_effective_interval-set_limit :
    (lib : Library) (m : RequestManager) (url : String) (interval max_concurrency : Option ℤ)
    (now : ℤ) (m' : RequestManager) (host : String)
    → get_base_host lib url ≡ ok host
    → set_limit lib m url interval max_concurrency now ≡ ok m'
    → get_effective_interval lib m' url
      ≡ ok (get_or interval m.default_interval +ℤ slowdown_of m host)
unfolding get_effective_interval
get_effective_interval-set_limit lib m url interval max_concurrency now m' host named h =
    let l = set_limit-Limited lib m url interval max_concurrency now m' h in
    let same : l.host ≡ host = ok-injective (sym l.named ∙ named) in
    let kept =
      limit_host-effective_interval m l.host now (get_or interval m.default_interval)
        (get_or max_concurrency m.default_host_max_concurrency) l.state l.limited in
    rw (← l.stored, ← same) (rw l.named (rw lookup-insert (rw (==-refl l.host) (ap ok kept))))
