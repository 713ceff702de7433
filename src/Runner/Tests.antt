-- ===== src/Runner/Tests.antt =====
-- An execution with a limit, step by step, and the theorems of the runner at concrete inputs.
use nordicintel_harvest.Prelude.{
  ℕ, zero, suc, ◌≤◌, ◌≡◌, ◌↔◌, refl, true, false, not, ◌&&◌, is_some, String, none, some, List, [],
  ◌∷◌, length, string_eq,
}
use nordicintel_harvest.Prelude.Int.{ℤ, pos}
use nordicintel_harvest.Prelude.Dict.{lookup}
use nordicintel_harvest.Prelude.Count.{count, weigh, update}
use nordicintel_harvest.Core.Errors.{Result, ok, err, value_error, client_error}
use nordicintel_harvest.Core.Json.{null}
use nordicintel_harvest.Providers.Interface.{
  DateTime, identity, DatasetCandidate, HarvestContext, DatasetSelection, select_by_timestamp,
  IsCurrent, saved_state, select_by_timestamp_skips_iff, select_by_timestamp_again,
}
use nordicintel_harvest.Runner.Resolve.{
  Documents, saved, failed, skipped, resolve, Settled, resolve_attempts-Settled, resolve_saves,
}
use nordicintel_harvest.Runner.Machine.{
  Config, ended, Run, Event, select, exhausted, start, finish, collect, gather, execute,
  running_weight,
}
use nordicintel_harvest.Runner.Accounting.{times, execute_reports_once, execute_reports_all}
use nordicintel_harvest.Runner.Bounds.{slots, was_exhausted, execute_bounds, listing_complete_lem}

abbrev now : DateTime
now = record { wall = pos 7200000; offset = some (pos 3600000) }

abbrev candidate : String → DatasetCandidate
candidate code = record {
  provider_code = "scb";
  dataset_code = code;
  language = "sv";
  updated = some now;
}

abbrev first_context : HarvestContext
first_context = record {
  datasets = [];
  started_at = now;
  previous_complete_started_at = none;
  force = true;
}

abbrev context : HarvestContext
context = record {
  datasets = ("a", saved_state (select_by_timestamp (candidate "a") first_context) now) ∷ [];
  started_at = now;
  previous_complete_started_at = none;
  force = false;
}

select_by_timestamp_skips_iff_example :
    ((select_by_timestamp (candidate "a") context).should_fetch ≡ false)
    ↔ IsCurrent (candidate "a") context
select_by_timestamp_skips_iff_example = select_by_timestamp_skips_iff (candidate "a") context

select_by_timestamp_again_example :
    (select_by_timestamp (candidate "a") context).should_fetch ≡ false
unfolding lookup
select_by_timestamp_again_example =
    select_by_timestamp_again (candidate "a") first_context context now refl refl

abbrev documents : Documents
documents = record { identity = identity (candidate "b"); json = null }

-- the first two calls time out
abbrev answer : ℕ → Result Documents
answer n = elim n [
  | zero ↦ err client_error
  | suc zero ↦ err client_error
  | suc (suc k) ↦ ok documents
]

abbrev delays : List ℤ
delays = pos 5000 ∷ pos 10000 ∷ []

resolve_attempts-Settled_example : Settled answer delays
resolve_attempts-Settled_example = resolve_attempts-Settled answer delays

resolve-answer : resolve (λ d. ok d) answer delays (candidate "b") ≡ saved documents
unfolding resolve
resolve-answer = refl

resolve_saves_example :
    (n : ℕ) × (e : Documents) × (answer n ≡ ok e)
    × (◌≡◌ {A = Result Documents} (ok e) (ok documents))
    × (documents.identity ≡ identity (candidate "b"))
    × (n ≤ length delays)
resolve_saves_example =
    resolve_saves (λ d. ok d) answer delays (candidate "b") documents resolve-answer

abbrev config : Config
config = record { provider_code = "scb"; language = "sv"; limit = none; concurrency = 2 }

abbrev selection : String → DatasetSelection
selection code = record {
  candidate = candidate code;
  should_fetch = true;
  source_updated_at = none;
}

abbrev unchanged : DatasetSelection
unchanged = record { candidate = candidate "a"; should_fetch = false; source_updated_at = none }

abbrev events : List Event
events =
    select unchanged (ok tt)
    ∷ select (selection "b") (ok tt)
    ∷ start "b"
    ∷ select (selection "c") (ok tt)
    ∷ finish "b" (saved documents) (ok tt)
    ∷ collect
    ∷ exhausted
    ∷ start "c"
    ∷ finish "c" (failed value_error) (ok tt)
    ∷ gather
    ∷ []

abbrev final : Run
final = record {
  progress = record { discovered = 3; in_flight = 0; attempts = 2; listing_complete = true };
  tasks = [];
  seen = "a" ∷ "b" ∷ "c" ∷ [];
  emitted = ("a", skipped) ∷ ("b", saved documents) ∷ ("c", failed value_error) ∷ [];
  phase = ended (ok tt);
}

execute-events : execute config events ≡ ok (some final)
unfolding execute lookup update weigh
execute-events = refl

execute_reports_once_example :
    ((c : String) → (times c final.emitted ≤ count c final.seen) × (count c final.seen ≤ 1))
    × (final.progress.discovered ≡ length final.seen)
    × (final.progress.in_flight ≡ weigh running_weight final.tasks)
execute_reports_once_example = execute_reports_once config events final execute-events

execute_reports_all_example : times "c" final.emitted ≡ count "c" final.seen
execute_reports_all_example = execute_reports_all config events final execute-events refl "c"

execute_bounds_example :
    (length final.tasks ≤ slots config)
    × ((l : ℕ) → config.limit ≡ some l → final.progress.attempts ≤ l)
execute_bounds_example = execute_bounds config events final execute-events

listing_complete_lem_example :
    final.progress.listing_complete ≡ (not (is_some config.limit) && was_exhausted events)
listing_complete_lem_example = listing_complete_lem config events final execute-events
