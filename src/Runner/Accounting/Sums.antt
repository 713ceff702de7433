-- ===== src/Runner/Accounting/Sums.antt =====
-- What the tasks and reports of an execution add up to, dataset by dataset.
use nordicintel_harvest.Prelude.{
  ℕ, ◌+◌, ◌≤◌, ◌≡◌, refl, Bool, true, false, String, none, List, [], ◌∷◌, ◌++◌, arith, ◌==◌,
  string_eq, if◌then◌else◌, length, contains,
}
use nordicintel_harvest.Prelude.Dict.{Dict}
use nordicintel_harvest.Prelude.Count.{count, count-append, weigh, weigh-append}
use nordicintel_harvest.Core.Errors.{err}
use nordicintel_harvest.Runner.Resolve.{Report}
use nordicintel_harvest.Runner.Machine.{
  Task, created, reported, Phase, ended, Run, running_weight, open_tasks, first_error,
}

-- how often a dataset has been reported
abbrev pub times : String → Dict String Report → ℕ
times c = weigh (λ d r. if d == c then 1 else 0)

-- a task whose report has not been emitted
abbrev pub pending : String → String → Task → ℕ
pending c d reported = 0
pending c d t = if d == c then 1 else 0

abbrev pub account : String → Run → ℕ
account c s = times c s.emitted + weigh (pending c) s.tasks

abbrev pub is_failure : Phase → Bool
is_failure (ended (err e)) = true
is_failure _ = false

pub record IsAccounted (s : Run) : Type 0 where
  pub discovered : s.progress.discovered ≡ length s.seen
  pub in_flight : s.progress.in_flight ≡ weigh running_weight s.tasks
  pub once : (c : String) → count c s.seen ≤ 1
  pub at_most : (c : String) → account c s ≤ count c s.seen
  pub exact : (c : String) → is_failure s.phase ≡ false → account c s ≡ count c s.seen

pub running-open_tasks :
    (d : Dict String Task) → weigh running_weight (open_tasks d) ≡ weigh running_weight d
unfolding weigh open_tasks
running-open_tasks [] = refl
running-open_tasks ((c, created) ∷ d) = ground (arith, running-open_tasks d)
running-open_tasks ((c, t) ∷ d) = ground (arith, running-open_tasks d)

pub pending-open_tasks-le :
    (c : String) (d : Dict String Task) → weigh (pending c) (open_tasks d) ≤ weigh (pending c) d
unfolding weigh open_tasks
pending-open_tasks-le c [] = omega arith
pending-open_tasks-le c ((j, created) ∷ d) = ground (arith, pending-open_tasks-le c d)
pending-open_tasks-le c ((j, t) ∷ d) = ground (arith, pending-open_tasks-le c d)

pub pending-open_tasks :
    (c : String) (d : Dict String Task)
    → first_error d ≡ none
    → weigh (pending c) (open_tasks d) ≡ weigh (pending c) d
unfolding weigh open_tasks first_error
pending-open_tasks c [] h = refl
pending-open_tasks c ((j, created) ∷ d) h = ground (arith, pending-open_tasks c d)
pending-open_tasks c ((j, t) ∷ d) h = ground (arith, pending-open_tasks c d)

pub count_absent : (c : String) (xs : List String) → contains xs c ≡ false → count c xs ≡ 0
unfolding count
count_absent c [] h = refl
count_absent c (x ∷ xs) h = ground (arith, count_absent c xs)

pub times_snoc :
    (c code : String) (report : Report) (d : Dict String Report)
    → times c (d ++ (code, report) ∷ []) ≡ times c d + (if code == c then 1 else 0)
unfolding weigh
times_snoc c code report d =
    omega (arith, weigh-append (λ j r. if j == c then 1 else 0) d ((code, report) ∷ []))

pub weigh_snoc :
    (f : String → Task → ℕ) (code : String) (t : Task) (d : Dict String Task)
    → weigh f (d ++ (code, t) ∷ []) ≡ weigh f d + f code t
unfolding weigh
weigh_snoc f code t d = omega (arith, weigh-append f d ((code, t) ∷ []))

pub count_snoc :
    (c code : String) (xs : List String)
    → count c (xs ++ code ∷ []) ≡ count c xs + (if code == c then 1 else 0)
unfolding count
count_snoc c code xs = omega (arith, count-append c xs (code ∷ []))
