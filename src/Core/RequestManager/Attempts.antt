-- ===== src/Core/RequestManager/Attempts.antt =====
-- core/request_manager.py: `_make_request`, one task at a time. What the server and the clocks do at
-- each attempt is a `Turn`.
use nordicintel_harvest.Prelude.{
  ℕ, zero, suc, ◌+◌, Bool, true, false, ◌&&◌, ◌||◌, String, Option, none, some, if◌then◌else◌, List,
  [], ◌∷◌, ◌==◌, nat_eq, string_eq, leb,
}
use nordicintel_harvest.Prelude.Int.{ℤ, pos, ◌+ℤ◌, ◌-ℤ◌, ltb_ℤ}
use nordicintel_harvest.Prelude.Dict.{Dict, lookup}
use nordicintel_harvest.Core.Errors.{
  Result, ok, err, value_error, external_api_error, key_error, ◌>>=◌, ◌>>◌, raise_if,
}
use nordicintel_harvest.Core.Json.{Value}
use nordicintel_harvest.Core.RateLimiter
use nordicintel_harvest.Core.RequestManager.State.{
  Library, HostState, RequestManager, put_host, start, get_base_host, get_or_create_host_state,
  effective_interval,
}
use nordicintel_harvest.Core.RequestManager.Cooldown.{record_429}

-- A response of the HTTP client, with what each way to read its body gives: `read()`,
-- `json(content_type=None)`, `json()`, `text()`, and `json.loads` of that text.
pub record Response : Type 0 where
  pub status : ℕ
  pub url : String
  pub retry_after : Option String
  pub headers : Dict String String
  pub charset : Option String
  pub body : Result (List ℕ)
  pub json : Result Value
  pub json_strict : Result Value
  pub text : Result String
  pub text_json : Result Value

pub data Outcome : Type 0 where
  raised : Outcome
  answered : Response → Outcome

-- One attempt: how late the sleep for the cooldown wakes, how long the task waits for the limiter's
-- lock, how late the sleep for the interval wakes, what comes back and when, and the wall clock.
pub record Turn : Type 0 where
  pub cooldown_late : ℕ
  pub gap : ℕ
  pub late : ℕ
  pub outcome : Outcome
  pub duration : ℕ
  pub utc : ℤ

-- What a call leaves: the manager, the clock, the times at which requests were sent (the last
-- first), and the result.
pub record Call : Type 0 where
  pub manager : RequestManager
  pub clock : ℤ
  pub sent : List ℤ
  pub result : Result (Option Response)

-- `_wait_for_host_cooldown`: the clock after it
unfoldable pub wait_for_host_cooldown : HostState → ℤ → ℕ → ℤ
wait_for_host_cooldown s now late =
    if ltb_ℤ (pos 0) (s.cooldown_until -ℤ now)
    then now +ℤ (s.cooldown_until -ℤ now) +ℤ pos late
    else now

-- the waits of one attempt: the host's new state and the time at which the request is sent
unfoldable pub admit : HostState → ℤ → Turn → Result (HostState × ℤ)
unfolding wait_for_host_cooldown effective_interval RateLimiter.wait_for_interval
admit s now t = do
  let ready = wait_for_host_cooldown s now t.cooldown_late
  (limiter, sent) ←
      RateLimiter.wait_for_interval s.limiter (some (effective_interval s)) (ready +ℤ pos t.gap)
        t.late
  ok (record s { limiter = limiter }, sent)

abbrev finish : RequestManager → ℤ → List ℤ → Result (Option Response) → Call
finish m now sent result = record { manager = m; clock = now; sent = sent; result = result }

-- The loop `for attempt in range(1, 4)`: the attempts left, the number of the next one, the clock,
-- and the requests sent so far. An exception of the throttle or the client is logged, and the call
-- returns `None`.
unfoldable pub attempts : Library → (ℕ → Turn) → String → ℕ → ℕ → RequestManager → ℤ → List ℤ → Call
unfolding admit record_429
attempts lib world host zero k m now sent = finish m now sent (ok none)
attempts lib world host (suc n) k m now sent = elim (lookup host m.host_states) [
  | none ↦ finish m now sent (err key_error)
  | some s ↦ elim (admit s now (world k)) [
    | err e ↦ finish m now sent (ok none)
    | ok (s', at) ↦
        let m' = put_host m host s' in
        let done = at +ℤ pos (world k).duration in
        elim (world k).outcome [
          | raised ↦ finish m' done (at ∷ sent) (ok none)
          | answered r ↦ elim (r.status == 429) [
            | false ↦ finish m' done (at ∷ sent) (ok (some r))
            | true ↦ elim (record_429 lib m' host r.retry_after done (world k).utc) [
              | err e ↦ finish m' done (at ∷ sent) (err e)
              | ok slowed ↦ elim (leb 3 k) [
                | true ↦ finish slowed done (at ∷ sent) (err external_api_error)
                | false ↦ attempts lib world host n (k + 1) slowed done (at ∷ sent)
              ]
            ]
          ]
        ]
  ]
]

-- which bodies a caller gives: `json=`, `data`, `form_data`
pub record Bodies : Type 0 where
  pub json : Bool
  pub data_given : Bool
  pub form : Bool

-- the two checks on the bodies
unfoldable pub check_bodies : Bodies → Result (Unit {0})
check_bodies b = do
  raise_if (b.json && b.data_given) value_error
  raise_if (b.form && (b.data_given || b.json)) value_error
  ok tt

-- the host's state at the head of `_make_request`
abbrev prepare : Library → RequestManager → String → Bodies → ℤ → Result (RequestManager × String)
prepare lib m url bodies now = do
  check_bodies bodies
  host ← get_base_host lib url
  (m', s) ← get_or_create_host_state m host now
  ok (m', host)

-- `_make_request`
unfoldable pub make_request_raw : Library → (ℕ → Turn) → RequestManager → String → Bodies → ℤ → Call
make_request_raw lib world m url bodies now =
    let opened = start m in
    elim (prepare lib opened url bodies now) [
      | err e ↦ finish opened now [] (err e)
      | ok (m', host) ↦ attempts lib world host 3 1 m' now []
    ]
