-- ===== src/Runner/Accounting/Steps.antt =====
-- The accounts over every step.
use nordicintel_harvest.Prelude.{
  ◌≡◌, refl, false, String, Option, none, some, List, [], ◌∷◌, arith, string_eq, if◌then◌else◌,
  Bool-cases, Option-cases, subst, inl, inr,
}
use nordicintel_harvest.Prelude.Dict.{Dict, lookup}
use nordicintel_harvest.Prelude.Count.{weigh}
use nordicintel_harvest.Core.Errors.{Result, ok, err}
use nordicintel_harvest.Runner.Resolve.{Report}
use nordicintel_harvest.Runner.Machine.{
  Config, Task, created, running, reported, Run, Event, select, exhausted, discovery_failed, start,
  finish, collect, gather, running_weight, open_tasks, first_error, stop, take_selection, step,
  steps, finish_task, start_task, exhaust, limit_reached, nonempty, discovering, draining,
  collect_done, gathered,
}
use nordicintel_harvest.Runner.Accounting.Sums.{
  pending, is_failure, running-open_tasks, pending-open_tasks-le, pending-open_tasks, IsAccounted,
}
use nordicintel_harvest.Runner.Accounting.Tasks.{
  stop-IsAccounted, update-IsAccounted, finish_task-IsAccounted,
}
use nordicintel_harvest.Runner.Accounting.Selections.{phase-IsAccounted, take_selection-IsAccounted}

opened-IsAccounted :
    (s : Run)
    → first_error s.tasks ≡ none
    → IsAccounted s
    → IsAccounted (record s { tasks = open_tasks s.tasks })
opened-IsAccounted s h i = record {
  discovered = i.discovered;
  in_flight = omega (arith, i.in_flight, running-open_tasks s.tasks);
  once = i.once;
  at_most = λ c. omega (arith, i.at_most c, pending-open_tasks c s.tasks h);
  exact = λ c p. omega (arith, i.exact c p, pending-open_tasks c s.tasks h);
}

collect_done-IsAccounted :
    (cfg : Config) (s : Run)
    → is_failure s.phase ≡ false
    → IsAccounted s
    → IsAccounted (collect_done cfg s)
collect_done-IsAccounted cfg s live i = elim (Option-cases (first_error s.tasks)) [
  | inl none_failed ↦
      rw (none_failed, collect_done)
        (phase-IsAccounted (record s { tasks = open_tasks s.tasks })
          (if limit_reached cfg s.progress.attempts then draining else discovering) live
          (opened-IsAccounted s none_failed i))
  | inr (e, failed_one) ↦
      rw (failed_one, collect_done)
        (stop-IsAccounted e (record s { tasks = open_tasks s.tasks }) i.discovered
          (omega (arith, i.in_flight, running-open_tasks s.tasks)) i.once
          (λ c. omega (arith, i.at_most c, pending-open_tasks-le c s.tasks)))
]

no_open_tasks :
    (c : String) (d : Dict String Task)
    → first_error d ≡ none
    → nonempty (open_tasks d) ≡ false
    → (weigh (pending c) d ≡ 0) × (weigh running_weight d ≡ 0)
unfolding weigh open_tasks first_error
no_open_tasks c [] h k = (refl, refl)
no_open_tasks c ((j, reported) ∷ d) h k = ground (arith, no_open_tasks c d h k)
no_open_tasks c ((j, t) ∷ d) h k = ground arith

stop_done-IsAccounted :
    (s : Run)
    → is_failure s.phase ≡ false
    → first_error s.tasks ≡ none
    → nonempty (open_tasks s.tasks) ≡ false
    → IsAccounted s
    → IsAccounted (stop (ok tt) s)
unfolding stop weigh
stop_done-IsAccounted s live h k i = record {
  discovered = i.discovered;
  in_flight = omega (arith, i.in_flight);
  once = i.once;
  at_most = λ c. omega (arith, i.at_most c);
  exact = λ c p. omega (arith, i.exact c live, no_open_tasks c s.tasks h k);
}

-- What a step in a certain phase tells of the state before and after it.
discovering_step :
    (s x t : Run)
    → ◌≡◌ {A = Option Run} (elim s.phase [ discovering ↦ some x | _ ↦ none ]) (some t)
    → (is_failure s.phase ≡ false) × (x ≡ t)
discovering_step s x t h = ground arith

started :
    (cfg : Config) (code : String) (s t : Run)
    → step cfg s (start code) ≡ some t
    → (lookup code s.tasks ≡ some created) × (start_task code s ≡ t)
unfolding step
started cfg code s t h = ground arith

finished :
    (cfg : Config) (code : String) (report : Report) (emit : Result (Unit {0})) (s t : Run)
    → step cfg s (finish code report emit) ≡ some t
    → (lookup code s.tasks ≡ some running) × (finish_task code report emit s ≡ t)
unfolding step
finished cfg code report emit s t h = ground arith

collected :
    (cfg : Config) (s t : Run)
    → step cfg s collect ≡ some t
    → (is_failure s.phase ≡ false) × (collect_done cfg s ≡ t)
unfolding step
collected cfg s t h = ground arith

draining_step :
    (cfg : Config) (s t : Run)
    → step cfg s gather ≡ some t
    → (is_failure s.phase ≡ false) × (gathered s ≡ some t)
unfolding step
draining_step cfg s t h = ground arith

exhaust-IsAccounted :
    (cfg : Config) (s : Run)
    → is_failure s.phase ≡ false
    → IsAccounted s
    → IsAccounted (exhaust cfg s)
exhaust-IsAccounted cfg s live i = record {
  discovered = i.discovered;
  in_flight = i.in_flight;
  once = i.once;
  at_most = i.at_most;
  exact = λ c h. i.exact c live;
}

gathered-IsAccounted :
    (s t : Run) → is_failure s.phase ≡ false → IsAccounted s → gathered s ≡ some t → IsAccounted t
gathered-IsAccounted s t live i h = elim (Option-cases (first_error s.tasks)) [
  | inl none_failed ↦ elim (Bool-cases (nonempty (open_tasks s.tasks))) [
    | inl some_left ↦ absurd (ground arith)
    | inr all_done ↦
        subst IsAccounted (ground arith) (stop_done-IsAccounted s live none_failed all_done i)
  ]
  | inr (e, failed_one) ↦
      subst IsAccounted (ground arith)
        (stop-IsAccounted e s i.discovered i.in_flight i.once i.at_most)
]

step-IsAccounted :
    (cfg : Config) (e : Event) (s t : Run) → IsAccounted s → step cfg s e ≡ some t → IsAccounted t
unfolding step
step-IsAccounted cfg (select sel emit) s t i h =
    let (live, e) = discovering_step s (take_selection cfg sel emit s) t h in
    subst IsAccounted e (take_selection-IsAccounted cfg sel emit s live i)
step-IsAccounted cfg exhausted s t i h =
    let (live, e) = discovering_step s (exhaust cfg s) t h in
    subst IsAccounted e (exhaust-IsAccounted cfg s live i)
step-IsAccounted cfg (discovery_failed e) s t i h =
    let (live, e') = discovering_step s (stop (err e) s) t h in
    subst IsAccounted e' (stop-IsAccounted e s i.discovered i.in_flight i.once i.at_most)
step-IsAccounted cfg (start code) s t i h =
    let (found, e) = started cfg code s t h in
    subst IsAccounted e (update-IsAccounted code s found i)
step-IsAccounted cfg (finish code report emit) s t i h =
    let (found, e) = finished cfg code report emit s t h in
    subst IsAccounted e (finish_task-IsAccounted code report emit s found i)
step-IsAccounted cfg collect s t i h =
    let (live, e) = collected cfg s t h in
    subst IsAccounted e (collect_done-IsAccounted cfg s live i)
step-IsAccounted cfg gather s t i h =
    let (live, e) = draining_step cfg s t h in gathered-IsAccounted s t live i e

pub steps-IsAccounted :
    (cfg : Config) (events : List Event) (s t : Run)
    → IsAccounted s
    → steps cfg s events ≡ some t
    → IsAccounted t
unfolding steps
steps-IsAccounted cfg [] s t i h = subst IsAccounted (ground arith) i
steps-IsAccounted cfg (e ∷ events) s t i h = elim (Option-cases (step cfg s e)) [
  | inl stuck ↦ absurd (ground arith)
  | inr (u, stepped) ↦
      steps-IsAccounted cfg events u t (step-IsAccounted cfg e s u i stepped) (ground arith)
]
