-- ===== src/Runner/Machine.antt =====
-- runner.py: `execute`, as steps that the event loop takes. An execution discovers selections one by
-- one, starts a task for each that is to be fetched, waits while too many are open, and at the end
-- waits for all.
use nordicintel_harvest.Prelude.{
  ℕ, ◌+◌, ◌-◌, Bool, true, false, not, ◌&&◌, ◌||◌, String, Option, none, some, List, [], ◌∷◌, ◌++◌,
  ◌==◌, string_eq, if◌then◌else◌, length, leb, ltb, contains, is_some,
}
use nordicintel_harvest.Prelude.Dict.{Dict, lookup}
use nordicintel_harvest.Prelude.Count.{update, weigh}
use nordicintel_harvest.Core.Errors.{Error, value_error, Result, ok, err}
use nordicintel_harvest.Providers.Interface.{DatasetCandidate, DatasetSelection}
use nordicintel_harvest.Runner.Resolve.{Report, skipped}

-- `Progress`
pub record Progress : Type 0 where
  pub discovered : ℕ
  pub in_flight : ℕ
  pub attempts : ℕ
  pub listing_complete : Bool

-- the arguments that `execute` tests
pub record Config : Type 0 where
  pub provider_code : String
  pub language : String
  pub limit : Option ℕ
  pub concurrency : ℕ

-- A task of `resolve`: created and not yet run, running, ended after its report was emitted, or ended
-- by an exception of `emit`.
pub data Task : Type 0 where
  created running reported : Task
  broken : Error → Task

-- Where `execute` stands: at the next selection, at the wait for a first task, at the last `gather`,
-- or at its end.
pub data Phase : Type 0 where
  discovering waiting draining : Phase
  ended : Result (Unit {0}) → Phase

pub record Run : Type 0 where
  pub progress : Progress
  pub tasks : Dict String Task
  pub seen : List String
  pub emitted : Dict String Report
  pub phase : Phase

-- What may happen next. `emit` answers `ok tt` if the catalog took the report.
pub data Event : Type 0 where
  select : DatasetSelection → Result (Unit {0}) → Event
  exhausted : Event
  discovery_failed : Error → Event
  start : String → Event
  finish : String → Report → Result (Unit {0}) → Event
  collect : Event
  gather : Event

abbrev pub initial : Run
initial = record {
  progress = record { discovered = 0; in_flight = 0; attempts = 0; listing_complete = false };
  tasks = [];
  seen = [];
  emitted = [];
  phase = discovering;
}

abbrev pub is_running : Task → Bool
is_running running = true
is_running _ = false

abbrev pub is_open : Task → Bool
is_open created = true
is_open running = true
is_open _ = false

abbrev pub running_weight : String → Task → ℕ
running_weight code t = if is_running t then 1 else 0

-- the tasks that are not done
unfoldable pub open_tasks : Dict String Task → Dict String Task
open_tasks [] = []
open_tasks ((code, t) ∷ d) = if is_open t then (code, t) ∷ open_tasks d else open_tasks d

abbrev pub nonempty {ℓ} : {A : Type ℓ} → List A → Bool
nonempty [] = false
nonempty (x ∷ xs) = true

-- no task is done
unfoldable pub all_open : Dict String Task → Bool
all_open [] = true
all_open ((code, t) ∷ d) = is_open t && all_open d

-- the exception of the first task that ended with one
unfoldable pub first_error : Dict String Task → Option Error
first_error [] = none
first_error ((code, broken e) ∷ d) = some e
first_error ((code, t) ∷ d) = first_error d

-- The `finally`: the tasks that are left are cancelled, and each that was running counts itself out.
unfoldable pub stop : Result (Unit {0}) → Run → Run
stop r s = record s {
  progress = record s.progress { in_flight = s.progress.in_flight - weigh running_weight s.tasks };
  tasks = [];
  phase = ended r;
}

-- `limit is not None and progress.attempts >= limit`
abbrev pub limit_reached : Config → ℕ → Bool
limit_reached cfg attempts = elim cfg.limit [ none ↦ false | some l ↦ leb l attempts ]

-- the end of the loop body: `break`, or the next selection
abbrev pub go_on : Config → Run → Run
go_on cfg s = record s {
  phase = if limit_reached cfg s.progress.attempts then draining else discovering;
}

abbrev pub outside_scope : Config → DatasetCandidate → Bool
outside_scope cfg c = not (c.provider_code == cfg.provider_code && c.language == cfg.language)

-- a selection that is not to be fetched is reported at once
abbrev pub skip : String → Result (Unit {0}) → Run → Run
skip code (ok _) s = record s { emitted = s.emitted ++ (code, skipped) ∷ [] }
skip code (err e) s = stop (err e) s

abbrev pub counted : String → Run → Run
counted code s = record s {
  progress = record s.progress { discovered = s.progress.discovered + 1 };
  seen = s.seen ++ code ∷ [];
}

-- a new task; then the wait, if there are now as many as the concurrency allows
abbrev pub spawn : Config → String → Run → Run
spawn cfg code s =
    let more = record s {
      progress = record s.progress { attempts = s.progress.attempts + 1 };
      tasks = s.tasks ++ (code, created) ∷ [];
    } in
    if leb cfg.concurrency (length more.tasks)
    then record more { phase = waiting }
    else go_on cfg more

-- the body of `async for`
unfoldable pub take_selection : Config → DatasetSelection → Result (Unit {0}) → Run → Run
unfolding stop
take_selection cfg sel emit s =
    let code = sel.candidate.dataset_code in
    if outside_scope cfg sel.candidate || contains s.seen code
    then stop (err value_error) s
    else if sel.should_fetch
    then spawn cfg code (counted code s)
    else skip code emit (counted code s)

-- a task ends: its report is emitted, or `emit` raised; it counts itself out either way
abbrev pub finish_task : String → Report → Result (Unit {0}) → Run → Run
finish_task code report (ok _) s = record s {
  progress = record s.progress { in_flight = s.progress.in_flight - 1 };
  tasks = update code reported s.tasks;
  emitted = s.emitted ++ (code, report) ∷ [];
}
finish_task code report (err e) s = record s {
  progress = record s.progress { in_flight = s.progress.in_flight - 1 };
  tasks = update code (broken e) s.tasks;
}

abbrev pub start_task : String → Run → Run
start_task code s = record s {
  progress = record s.progress { in_flight = s.progress.in_flight + 1 };
  tasks = update code running s.tasks;
}

-- `asyncio.wait` returned: the tasks that are done are taken out, and an exception is raised again
abbrev pub collect_done : Config → Run → Run
collect_done cfg s = elim (first_error s.tasks) [
  | some e ↦ stop (err e) (record s { tasks = open_tasks s.tasks })
  | none ↦ go_on cfg (record s { tasks = open_tasks s.tasks })
]

-- `gather` raises the first exception, or returns when all tasks are done
abbrev pub gathered : Run → Option Run
gathered s = elim (first_error s.tasks) [
  | some e ↦ some (stop (err e) s)
  | none ↦ if nonempty (open_tasks s.tasks) then none else some (stop (ok tt) s)
]

abbrev pub exhaust : Config → Run → Run
exhaust cfg s = record s {
  progress = record s.progress { listing_complete = not (is_some cfg.limit) };
  phase = draining;
}

-- A step: `none` where the event cannot happen.
unfoldable pub step : Config → Run → Event → Option Run
unfolding take_selection stop open_tasks first_error all_open
step cfg s (select sel emit) = elim s.phase [
  | discovering ↦ some (take_selection cfg sel emit s)
  | _ ↦ none
]
step cfg s exhausted = elim s.phase [ discovering ↦ some (exhaust cfg s) | _ ↦ none ]
step cfg s (discovery_failed e) = elim s.phase [ discovering ↦ some (stop (err e) s) | _ ↦ none ]
step cfg s (start code) = elim (lookup code s.tasks) [
  | none ↦ none
  | some created ↦ some (start_task code s)
  | some _ ↦ none
]
step cfg s (finish code report emit) = elim (lookup code s.tasks) [
  | none ↦ none
  | some running ↦ some (finish_task code report emit s)
  | some _ ↦ none
]
step cfg s collect = elim s.phase [
  | waiting ↦ if all_open s.tasks then none else some (collect_done cfg s)
  | _ ↦ none
]
step cfg s gather = elim s.phase [ draining ↦ gathered s | _ ↦ none ]

-- `execute` refuses a limit below 1; then the events happen one after the other.
unfoldable pub steps : Config → Run → List Event → Option Run
unfolding step
steps cfg s [] = some s
steps cfg s (e ∷ events) = elim (step cfg s e) [ none ↦ none | some t ↦ steps cfg t events ]

-- the check on `limit`
unfoldable pub check_limit : Config → Result (Unit {0})
check_limit cfg = elim cfg.limit [
  | none ↦ ok tt
  | some l ↦ if ltb l 1 then err value_error else ok tt
]

unfoldable pub execute : Config → List Event → Result (Option Run)
unfolding check_limit steps
execute cfg events = elim (check_limit cfg) [ err e ↦ err e | ok _ ↦ ok (steps cfg initial events) ]
