-- ===== src/Core/Tests.antt =====
-- Runs of the rate limiter and the request manager, and the theorems at concrete inputs.
use nordicintel_harvest.Prelude.{
  ℕ, zero, suc, ◌+◌, ◌≤◌, ◌≡◌, refl, false, String, Option, none, some, List, [], ◌∷◌, arith,
  length,
}
use nordicintel_harvest.Prelude.Dict.{lookup, insert}
use nordicintel_harvest.Prelude.Int.{ℤ, pos, pos_part, ◌+ℤ◌, ◌-ℤ◌}
use nordicintel_harvest.Core.Errors.{ok, err, type_error}
use nordicintel_harvest.Core.Json.{null}
use nordicintel_harvest.Core.RateLimiter
use nordicintel_harvest.Core.RateLimiter.{RateLimiter}
use nordicintel_harvest.Core.RateLimiter.Spacing.{Call, starts, IsSpaced, starts-IsSpaced}
use nordicintel_harvest.Core.RateLimiter.Slots.{
  Slots, Reach, here, next, acquire, fresh, Reach-length-le,
}
use nordicintel_harvest.Core.RequestManager.{
  Library, RequestManager, Options, create, get_base_host, check_bodies, Response, Turn, answered,
  Bodies, make_request_raw, IsValid, create-IsValid, interval_of, expected, Respects, cooldown_of,
  make_request_raw_lem, set_limit, get_effective_interval, slowdown_of,
  get_effective_interval-set_limit, make_request_raw-Respects, created, limit_set, requested,
  History-IsValid,
}

abbrev limiter : RateLimiter
limiter = record { interval = pos 2100; max_concurrency = pos 2; last_request_time = pos 1000 }

abbrev calls : List Call
calls =
    record { interval_override = none; gap = 100; late = 3 }
    ∷ record { interval_override = some (pos 500); gap = 0; late = 0 }
    ∷ record { interval_override = none; gap = 9000; late = 1 }
    ∷ []

starts-calls :
    starts limiter (pos 1000) calls
    ≡ ok ((pos 2100, pos 3103) ∷ (pos 500, pos 3603) ∷ (pos 2100, pos 12604) ∷ [])
unfolding starts RateLimiter.wait_for_interval ◌+ℤ◌ ◌-ℤ◌
starts-calls = refl

starts-IsSpaced_example :
    (log : List (ℤ × ℤ)) × (starts limiter (pos 1000) calls ≡ ok log)
    × IsSpaced limiter.last_request_time log
starts-IsSpaced_example = starts-IsSpaced limiter (pos 1000) calls (omega arith)

abbrev busy : Slots
busy = record { available = 0; inside = 7 ∷ 5 ∷ [] }

busy-Reach : Reach (fresh limiter) busy
unfolding fresh
busy-Reach =
    next (next here (acquire (record { available = 2; inside = [] }) 1 5 refl))
      (acquire (record { available = 1; inside = 5 ∷ [] }) 0 7 refl)

Reach-length-le_example :
    (length busy.inside ≤ pos_part limiter.max_concurrency)
    × (length busy.inside + busy.available ≡ pos_part limiter.max_concurrency)
Reach-length-le_example = Reach-length-le limiter busy busy-Reach

-- Every URL is its own host; no text is a number or a date but "3".
abbrev library : Library
library = record {
  hostname = λ url. some url;
  lower = λ s. s;
  float_of = λ s. some (pos 3000);
  date_of = λ s. none;
}

abbrev options : Options
options = record {
  global_max_concurrency = pos 10;
  default_interval = pos 2100;
  default_max_concurrency = none;
  default_host_max_concurrency = some (pos 4);
  timeout = pos 60;
  retry_429_default_cooldown = pos 60000;
  retry_429_interval_increase = pos 500;
  retry_429_max_cooldown = pos 900000;
}

abbrev manager : RequestManager
manager = record {
  default_interval = pos 2100;
  default_host_max_concurrency = pos 4;
  global_max_concurrency = pos 10;
  retry_429_default_cooldown = pos 60000;
  retry_429_interval_increase = pos 500;
  retry_429_max_cooldown = pos 900000;
  timeout = pos 60;
  host_states = [];
  session_open = false;
}

create-options : create options ≡ ok manager
unfolding create
create-options = refl

manager-IsValid : IsValid manager
manager-IsValid = create-IsValid options manager create-options

-- the manager after the host "api" has been limited
abbrev limited : RequestManager
limited = record manager {
  host_states =
      (
        "api",
        record {
          limiter = record {
            interval = pos 500;
            max_concurrency = pos 4;
            last_request_time = pos 500;
          };
          base_interval = pos 500;
          max_concurrency = pos 4;
          cooldown_until = pos 0;
          cooldown_events = 0;
          last_retry_after = none;
          interval_slowdown = pos 0;
        },
      )
      ∷ [];
}

abbrev response : ℕ → Option String → Response
response status retry_after = record {
  status = status;
  url = "api";
  retry_after = retry_after;
  headers = [];
  charset = none;
  body = ok [];
  json = ok null;
  json_strict = ok null;
  text = ok "";
  text_json = err type_error;
}

abbrev turn : ℕ → Option String → Turn
turn status retry_after = record {
  cooldown_late = 0;
  gap = 0;
  late = 2;
  outcome = answered (response status retry_after);
  duration = 40;
  utc = pos 0;
}

-- the first two attempts meet a 429, one with a `Retry-After` and one without
abbrev world : ℕ → Turn
world n = elim n [
  | zero ↦ turn 429 none
  | suc zero ↦ turn 429 (some "3")
  | suc (suc zero) ↦ turn 429 none
  | suc (suc (suc k)) ↦ turn 200 none
]

abbrev plain : Bodies
plain = record { json = false; data_given = false; form = false }

plain_checked : check_bodies plain ≡ ok tt
unfolding check_bodies
plain_checked = refl

api_named : get_base_host library "api" ≡ ok "api"
unfolding get_base_host
api_named = refl

make_request_raw_lem_example :
    let c = make_request_raw library world manager "api" plain (pos 0) in
    (c.result ≡ (expected world).0) × (length c.sent ≡ (expected world).1) × IsValid c.manager
make_request_raw_lem_example =
    make_request_raw_lem library world manager "api" plain (pos 0) "api" manager-IsValid
      plain_checked api_named

make_request_raw-Respects_example :
    Respects world
      (cooldown_of library manager)
      (interval_of manager "api")
      (make_request_raw library world manager "api" plain (pos 0)).sent
make_request_raw-Respects_example =
    make_request_raw-Respects library world manager "api" plain (pos 0) "api" manager-IsValid
      plain_checked api_named

set_limit-manager : set_limit library manager "api" (some (pos 500)) none (pos 1000) ≡ ok limited
unfolding set_limit ◌+ℤ◌ ◌-ℤ◌ lookup insert
set_limit-manager = refl

get_effective_interval-set_limit_example :
    get_effective_interval library limited "api" ≡ ok (pos 500 +ℤ slowdown_of manager "api")
get_effective_interval-set_limit_example =
    get_effective_interval-set_limit library manager "api" (some (pos 500)) none (pos 1000) limited
      "api" api_named set_limit-manager

-- a manager that is built, limited on a host, and used for a request that meets two 429s
History-IsValid_example :
    IsValid (make_request_raw library world limited "api" plain (pos 0)).manager
History-IsValid_example =
    History-IsValid library (make_request_raw library world limited "api" plain (pos 0)).manager (
      requested world "api" plain (pos 0) (
        limit_set "api" (some (pos 500)) none (pos 1000) set_limit-manager
          (created options create-options)))
