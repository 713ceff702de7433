-- ===== src/Runner/Accounting/Tasks.antt =====
-- The accounts when a task starts or ends, and when an execution stops.
use nordicintel_harvest.Prelude.{◌≤◌, ◌≡◌, String, some, arith, string_eq, length}
use nordicintel_harvest.Prelude.Dict.{lookup}
use nordicintel_harvest.Prelude.Count.{count, weigh, weigh-update}
use nordicintel_harvest.Core.Errors.{Error, Result, ok, err}
use nordicintel_harvest.Runner.Resolve.{Report}
use nordicintel_harvest.Runner.Machine.{
  created, running, reported, broken, Run, running_weight, stop, finish_task, start_task,
}
use nordicintel_harvest.Runner.Accounting.Sums.{pending, account, times_snoc, IsAccounted}

-- Stopping drops the tasks that are left.
pub stop-IsAccounted :
    (e : Error) (s : Run)
    → s.progress.discovered ≡ length s.seen
    → s.progress.in_flight ≡ weigh running_weight s.tasks
    → ((c : String) → count c s.seen ≤ 1)
    → ((c : String) → account c s ≤ count c s.seen)
    → IsAccounted (stop (err e) s)
unfolding stop weigh
stop-IsAccounted e s d f o m = record {
  discovered = d;
  in_flight = omega arith;
  once = o;
  at_most = λ c. omega (arith, m c);
  exact = λ c h. cc;
}

pub update-IsAccounted :
    (code : String) (s : Run)
    → lookup code s.tasks ≡ some created
    → IsAccounted s
    → IsAccounted (start_task code s)
update-IsAccounted code s h i = record {
  discovered = i.discovered;
  in_flight =
      ground (arith, i.in_flight, weigh-update running_weight code running created s.tasks h);
  once = i.once;
  at_most =
      λ c. ground (arith, i.at_most c, weigh-update (pending c) code running created s.tasks h);
  exact =
      λ c p. ground (arith, i.exact c p, weigh-update (pending c) code running created s.tasks h);
}

pub finish_task-IsAccounted :
    (code : String) (report : Report) (emit : Result (Unit {0})) (s : Run)
    → lookup code s.tasks ≡ some running
    → IsAccounted s
    → IsAccounted (finish_task code report emit s)
finish_task-IsAccounted code report (ok _) s h i = record {
  discovered = i.discovered;
  in_flight =
      ground (arith, i.in_flight, weigh-update running_weight code reported running s.tasks h);
  once = i.once;
  at_most = λ c. ground (
    arith,
    i.at_most c,
    times_snoc c code report s.emitted,
    weigh-update (pending c) code reported running s.tasks h,
  );
  exact = λ c p. ground (
    arith,
    i.exact c p,
    times_snoc c code report s.emitted,
    weigh-update (pending c) code reported running s.tasks h,
  );
}
finish_task-IsAccounted code report (err e) s h i = record {
  discovered = i.discovered;
  in_flight =
      ground (arith, i.in_flight, weigh-update running_weight code (broken e) running s.tasks h);
  once = i.once;
  at_most =
      λ c. ground (arith, i.at_most c, weigh-update (pending c) code (broken e) running s.tasks h);
  exact = λ c p.
      ground (arith, i.exact c p, weigh-update (pending c) code (broken e) running s.tasks h);
}
