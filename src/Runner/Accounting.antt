-- ===== src/Runner/Accounting.antt =====
-- Every discovered dataset is reported, and none twice.
mod Sums
mod Tasks
mod Selections
mod Steps
pub use Sums.{times}
use nordicintel_harvest.Prelude.{
  ℕ, zero, suc, ◌+◌, ◌-◌, ◌≤◌, ◌≡◌, refl, Bool, true, false, not, ◌&&◌, ◌||◌, String, Option, none,
  some, List, [], ◌∷◌, ◌++◌, arith, ◌==◌, string_eq, ==-refl, if◌then◌else◌, length, length-append,
  contains, Bool-cases, Option-cases, subst, ap, inl, inr, leb,
}
use nordicintel_harvest.Prelude.Dict.{Dict, lookup}
use nordicintel_harvest.Prelude.Count.{
  count, count-append, weigh, weigh-append, update, weigh-update,
}
use nordicintel_harvest.Core.Errors.{Result-cases, Error, value_error, Result, ok, err}
use nordicintel_harvest.Providers.Interface.{DatasetSelection}
use nordicintel_harvest.Runner.Resolve.{Report, skipped}
use nordicintel_harvest.Runner.Machine.{
  Config, Task, created, running, reported, broken, Phase, ended, Run, Event, select, exhausted,
  discovery_failed, start, finish, collect, gather, initial, running_weight, open_tasks,
  first_error, stop, take_selection, step, steps, execute, check_limit, is_open, counted, spawn,
  finish_task, start_task, exhaust, go_on, limit_reached, outside_scope, nonempty, all_open,
  waiting, discovering, draining, collect_done, gathered, skip,
}
use nordicintel_harvest.Runner.Accounting.Sums.{
  times, pending, account, is_failure, running-open_tasks, pending-open_tasks-le,
  pending-open_tasks, count_absent, times_snoc, weigh_snoc, count_snoc, IsAccounted,
}
use nordicintel_harvest.Runner.Accounting.Steps.{steps-IsAccounted}

initial-IsAccounted : IsAccounted initial
unfolding weigh count
initial-IsAccounted = record {
  discovered = refl;
  in_flight = refl;
  once = λ c. omega arith;
  at_most = λ c. omega arith;
  exact = λ c h. refl;
}

-- An execution that has ended keeps no task.
abbrev IsOver : Run → Type 0
IsOver s = s.phase ≡ ended (ok tt) → s.tasks ≡ []

no_tasks :
    (c : String) (s : Run)
    → s.tasks ≡ []
    → account c s ≡ count c s.seen
    → times c s.emitted ≡ count c s.seen
unfolding weigh
no_tasks c s h k = ground (arith, ap (λ (d : Dict String Task). weigh (pending c) d) h)

take_selection-IsOver :
    (cfg : Config) (sel : DatasetSelection) (emit : Result (Unit {0})) (s : Run)
    → s.phase ≡ discovering
    → IsOver (take_selection cfg sel emit s)
unfolding take_selection stop
take_selection-IsOver cfg sel (ok _) s h = λ over. ground arith
take_selection-IsOver cfg sel (err e) s h = λ over. ground arith

select_taken :
    (cfg : Config) (sel : DatasetSelection) (emit : Result (Unit {0})) (s t : Run)
    → step cfg s (select sel emit) ≡ some t
    → (s.phase ≡ discovering) × (take_selection cfg sel emit s ≡ t)
unfolding step
select_taken cfg sel emit s t h = ground arith

step-IsOver : (cfg : Config) (e : Event) (s t : Run) → IsOver s → step cfg s e ≡ some t → IsOver t
unfolding step lookup
step-IsOver cfg (select sel emit) s t o h =
    let (at, e) = select_taken cfg sel emit s t h in
    subst IsOver e (take_selection-IsOver cfg sel emit s at)
step-IsOver cfg exhausted s t o h = λ over. ground arith
step-IsOver cfg (discovery_failed e) s t o h = λ over. ground arith
step-IsOver cfg (start code) s t o h = λ over. ground arith
step-IsOver cfg (finish code report (ok _)) s t o h = λ over. ground arith
step-IsOver cfg (finish code report (err e)) s t o h = λ over. ground arith
step-IsOver cfg collect s t o h = λ over. ground arith
step-IsOver cfg gather s t o h = λ over. ground arith

steps-IsOver :
    (cfg : Config) (events : List Event) (s t : Run)
    → IsOver s
    → steps cfg s events ≡ some t
    → IsOver t
unfolding steps
steps-IsOver cfg [] s t o h = let e : s ≡ t = ground arith in subst IsOver e o
steps-IsOver cfg (e ∷ events) s t o h = elim (Option-cases (step cfg s e)) [
  | inl stuck ↦ absurd (ground arith)
  | inr (u, stepped) ↦ steps-IsOver cfg events u t (step-IsOver cfg e s u o stepped) (ground arith)
]

execute-IsOver :
    (cfg : Config) (events : List Event) (s : Run) → steps cfg initial events ≡ some s → IsOver s
execute-IsOver cfg events s h = steps-IsOver cfg events initial s (λ over. refl) h

execute_ran :
    (cfg : Config) (events : List Event) (s : Run)
    → execute cfg events ≡ ok (some s)
    → steps cfg initial events ≡ some s
unfolding execute
execute_ran cfg events s h = elim (Result-cases (check_limit cfg)) [
  | inl (u, fine) ↦ ground arith
  | inr (e, refused) ↦ absurd (ground arith)
]

module _ (cfg : Config) (events : List Event) (s : Run)
    (ran : execute cfg events ≡ ok (some s)) where
  execute-IsAccounted : IsAccounted s
  execute-IsAccounted =
      steps-IsAccounted cfg events initial s initial-IsAccounted (execute_ran cfg events s ran)

  -- However an execution goes, no dataset is reported twice, and none that was not discovered; the
  -- progress counts each discovered dataset, and in flight the tasks that are running.
  pub execute_reports_once :
      ((c : String) → (times c s.emitted ≤ count c s.seen) × (count c s.seen ≤ 1))
      × (s.progress.discovered ≡ length s.seen)
      × (s.progress.in_flight ≡ weigh running_weight s.tasks)
  execute_reports_once =
      let i = execute-IsAccounted in
      (λ c. (omega (arith, i.at_most c), i.once c), i.discovered, i.in_flight)

  -- An execution that ends without an exception has reported every discovered dataset exactly once.
  pub execute_reports_all :
      s.phase ≡ ended (ok tt) → (c : String) → times c s.emitted ≡ count c s.seen
  execute_reports_all h c =
      no_tasks c s (execute-IsOver cfg events s (execute_ran cfg events s ran) h)
        (execute-IsAccounted.exact c (rw h refl))
