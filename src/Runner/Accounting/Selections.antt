-- ===== src/Runner/Accounting/Selections.antt =====
-- The accounts when a selection is taken.
use nordicintel_harvest.Prelude.{
  ◌+◌, ◌≤◌, ◌≡◌, false, ◌||◌, String, [], ◌∷◌, ◌++◌, arith, string_eq, if◌then◌else◌, length,
  length-append, contains, Bool-cases, inl, inr, leb,
}
use nordicintel_harvest.Prelude.Count.{count}
use nordicintel_harvest.Core.Errors.{value_error, Result, ok, err}
use nordicintel_harvest.Providers.Interface.{DatasetSelection}
use nordicintel_harvest.Runner.Resolve.{skipped}
use nordicintel_harvest.Runner.Machine.{
  Config, created, Phase, Run, running_weight, take_selection, counted, spawn, limit_reached,
  outside_scope, waiting, discovering, draining, skip,
}
use nordicintel_harvest.Runner.Accounting.Sums.{
  pending, account, is_failure, count_absent, times_snoc, weigh_snoc, count_snoc, IsAccounted,
}
use nordicintel_harvest.Runner.Accounting.Tasks.{stop-IsAccounted}

pub phase-IsAccounted :
    (s : Run) (p : Phase)
    → is_failure s.phase ≡ false
    → IsAccounted s
    → IsAccounted (record s { phase = p })
phase-IsAccounted s p live i = record {
  discovered = i.discovered;
  in_flight = i.in_flight;
  once = i.once;
  at_most = i.at_most;
  exact = λ c h. i.exact c live;
}

-- The state after a new code has been counted, with what the step adds for it.
module _ (s : Run) (code : String) (new : contains s.seen code ≡ false)
    (live : is_failure s.phase ≡ false) (i : IsAccounted s) where
  pub once_counted : (c : String) → count c (s.seen ++ code ∷ []) ≤ 1
  once_counted c = ground (
    arith,
    i.once c,
    count_snoc c code s.seen,
    count_absent code s.seen new,
    string_eq.beq_iff code c,
  )

  abbrev pub spawned : Run
  spawned = record (counted code s) {
    progress = record (counted code s).progress { attempts = s.progress.attempts + 1 };
    tasks = s.tasks ++ (code, created) ∷ [];
  }

  pub spawned-account : (c : String) → account c spawned ≡ count c spawned.seen
  spawned-account c =
      ground (
        arith,
        i.exact c live,
        count_snoc c code s.seen,
        weigh_snoc (pending c) code created s.tasks,
      )

  pub spawned-IsAccounted : IsAccounted spawned
  spawned-IsAccounted = record {
    discovered = omega (arith, length-append s.seen (code ∷ []), i.discovered);
    in_flight = omega (arith, weigh_snoc running_weight code created s.tasks, i.in_flight);
    once = once_counted;
    at_most = λ c. omega (arith, spawned-account c);
    exact = λ c h. spawned-account c;
  }

  pub spawn-IsAccounted : (cfg : Config) → IsAccounted (spawn cfg code (counted code s))
  spawn-IsAccounted cfg = elim (Bool-cases (leb cfg.concurrency (length spawned.tasks))) [
    | inl full ↦ rw full (phase-IsAccounted spawned waiting live spawned-IsAccounted)
    | inr room ↦ rw room (
        phase-IsAccounted spawned
          (if limit_reached cfg spawned.progress.attempts then draining else discovering) live
          spawned-IsAccounted)
  ]

  pub skip-IsAccounted : (emit : Result (Unit {0})) → IsAccounted (skip code emit (counted code s))
  skip-IsAccounted (ok _) = record {
    discovered = omega (arith, length-append s.seen (code ∷ []), i.discovered);
    in_flight = i.in_flight;
    once = once_counted;
    at_most = λ c.
        omega
          (arith, i.exact c live, count_snoc c code s.seen, times_snoc c code skipped s.emitted);
    exact = λ c h.
        omega
          (arith, i.exact c live, count_snoc c code s.seen, times_snoc c code skipped s.emitted);
  }
  skip-IsAccounted (err e) =
      stop-IsAccounted e (counted code s)
        (omega (arith, length-append s.seen (code ∷ []), i.discovered)) i.in_flight once_counted
        (λ c. omega (arith, i.at_most c, count_snoc c code s.seen))

pub take_selection-IsAccounted :
    (cfg : Config) (sel : DatasetSelection) (emit : Result (Unit {0})) (s : Run)
    → is_failure s.phase ≡ false
    → IsAccounted s
    → IsAccounted (take_selection cfg sel emit s)
unfolding take_selection
take_selection-IsAccounted cfg sel emit s live i =
    let code = sel.candidate.dataset_code in
    elim (Bool-cases (outside_scope cfg sel.candidate || contains s.seen code)) [
      | inl refused ↦
          rw refused (stop-IsAccounted value_error s i.discovered i.in_flight i.once i.at_most)
      | inr taken ↦
          let new : contains s.seen code ≡ false = ground arith in
          rw taken (elim (Bool-cases sel.should_fetch) [
            | inl fetch ↦ rw fetch (spawn-IsAccounted s code new live i cfg)
            | inr unchanged ↦ rw unchanged (skip-IsAccounted s code new live i emit)
          ])
    ]
