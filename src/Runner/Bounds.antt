-- ===== src/Runner/Bounds.antt =====
-- The bounds of an execution: attempts, open tasks, and when the listing counts as complete.
use nordicintel_harvest.Prelude.{
  ℕ, ◌≤◌, ◌<◌, ◌≡◌, refl, Bool, true, false, String, Option, none, some, List, [], ◌∷◌, arith,
  string_eq, length, length-append, max, Option-cases, inl, inr, subst, sym, ap, ◌∙◌, not, ◌&&◌,
  ◌||◌, if◌then◌else◌, is_some,
}
use nordicintel_harvest.Prelude.Dict.{Dict}
use nordicintel_harvest.Prelude.Count.{length-update}
use nordicintel_harvest.Core.Errors.{Result, ok, err, Result-cases}
use nordicintel_harvest.Providers.Interface.{DatasetSelection}
use nordicintel_harvest.Runner.Machine.{
  Config, Task, created, running, reported, broken, Phase, discovering, Run, Event, select,
  exhausted, discovery_failed, start, finish, collect, gather, initial, open_tasks, all_open, stop,
  take_selection, step, steps, execute, check_limit,
}

-- `limit is None`, or the attempts are within it; below it where another selection may come
abbrev WithinLimit : Option ℕ → ℕ → Phase → Type 0
WithinLimit none attempts p = Unit
WithinLimit (some l) attempts discovering = attempts < l
WithinLimit (some l) attempts p = attempts ≤ l

-- there is always room for one task
abbrev pub slots : Config → ℕ
slots cfg = max cfg.concurrency 1

abbrev WithinSlots : Config → ℕ → Phase → Type 0
WithinSlots cfg n discovering = n < slots cfg
WithinSlots cfg n p = n ≤ slots cfg

record IsBounded (cfg : Config) (s : Run) : Type 0 where
  limit : WithinLimit cfg.limit s.progress.attempts s.phase
  tasks : WithinSlots cfg (length s.tasks) s.phase

length-open_tasks : (d : Dict String Task) → length (open_tasks d) ≤ length d
unfolding open_tasks
length-open_tasks [] = omega arith
length-open_tasks ((c, created) ∷ d) = ground (arith, length-open_tasks d)
length-open_tasks ((c, t) ∷ d) = ground (arith, length-open_tasks d)

length-open_tasks-lt :
    (d : Dict String Task) → all_open d ≡ false → length (open_tasks d) < length d
unfolding open_tasks all_open
length-open_tasks-lt [] h = cc
length-open_tasks-lt ((c, created) ∷ d) h = ground (arith, length-open_tasks-lt d)
length-open_tasks-lt ((c, running) ∷ d) h = ground (arith, length-open_tasks-lt d)
length-open_tasks-lt ((c, t) ∷ d) h = ground (arith, length-open_tasks d)

take_selection-IsBounded :
    (cfg : Config) (sel : DatasetSelection) (emit : Result (Unit {0})) (s : Run)
    → s.phase ≡ discovering
    → IsBounded cfg s
    → IsBounded cfg (take_selection cfg sel emit s)
unfolding take_selection stop
take_selection-IsBounded cfg sel (ok _) s h b =
    ground (arith, length-append s.tasks ((sel.candidate.dataset_code, created) ∷ []))
take_selection-IsBounded cfg sel (err e) s h b =
    ground (arith, length-append s.tasks ((sel.candidate.dataset_code, created) ∷ []))

select_taken :
    (cfg : Config) (sel : DatasetSelection) (emit : Result (Unit {0})) (s t : Run)
    → step cfg s (select sel emit) ≡ some t
    → (s.phase ≡ discovering) × (take_selection cfg sel emit s ≡ t)
unfolding step
select_taken cfg sel emit s t h = ground arith

step-IsBounded :
    (cfg : Config) (e : Event) (s t : Run)
    → IsBounded cfg s
    → step cfg s e ≡ some t
    → IsBounded cfg t
unfolding step stop
step-IsBounded cfg (select sel emit) s t b h =
    let (at, e) = select_taken cfg sel emit s t h in
    subst (IsBounded cfg) e (take_selection-IsBounded cfg sel emit s at b)
step-IsBounded cfg exhausted s t b h = ground arith
step-IsBounded cfg (discovery_failed e) s t b h = ground arith
step-IsBounded cfg (start code) s t b h = ground (arith, length-update code running s.tasks)
step-IsBounded cfg (finish code report (ok _)) s t b h =
    ground (arith, length-update code reported s.tasks)
step-IsBounded cfg (finish code report (err e)) s t b h =
    ground (arith, length-update code (broken e) s.tasks)
step-IsBounded cfg collect s t b h = ground (arith, length-open_tasks-lt s.tasks)
step-IsBounded cfg gather s t b h = ground arith

within_slots : (cfg : Config) (n : ℕ) (p : Phase) → WithinSlots cfg n p → n ≤ slots cfg
within_slots cfg n p h = ground arith

within_limit :
    (limit : Option ℕ) (attempts : ℕ) (p : Phase) (l : ℕ)
    → WithinLimit limit attempts p
    → limit ≡ some l
    → attempts ≤ l
within_limit limit attempts p l h e = ground arith

steps-IsBounded :
    (cfg : Config) (events : List Event) (s t : Run)
    → IsBounded cfg s
    → steps cfg s events ≡ some t
    → IsBounded cfg t
unfolding steps
steps-IsBounded cfg [] s t b h = let e : s ≡ t = ground arith in subst (IsBounded cfg) e b
steps-IsBounded cfg (e ∷ events) s t b h = elim (Option-cases (step cfg s e)) [
  | inl stuck ↦ absurd (ground arith)
  | inr (u, stepped) ↦
      steps-IsBounded cfg events u t (step-IsBounded cfg e s u b stepped) (ground arith)
]

initial-IsBounded : (cfg : Config) → check_limit cfg ≡ ok tt → IsBounded cfg initial
unfolding check_limit
initial-IsBounded cfg h = ground arith

execute_checked :
    (cfg : Config) (events : List Event) (s : Run)
    → execute cfg events ≡ ok (some s)
    → (check_limit cfg ≡ ok tt) × (steps cfg initial events ≡ some s)
unfolding execute
execute_checked cfg events s h = elim (Result-cases (check_limit cfg)) [
  | inl (u, fine) ↦ (fine, ground arith)
  | inr (e, refused) ↦ absurd (ground arith)
]

-- the adapter came to the end of its selections
abbrev is_exhausted : Event → Bool
is_exhausted exhausted = true
is_exhausted _ = false

unfoldable pub was_exhausted : List Event → Bool
was_exhausted [] = false
was_exhausted (exhausted ∷ events) = true
was_exhausted (e ∷ events) = was_exhausted events

-- whether the listing is complete after an event
abbrev listing_after : Config → Bool → Bool → Bool
listing_after cfg ended_here before = if ended_here then not (is_some cfg.limit) else before

take_selection-listing :
    (cfg : Config) (sel : DatasetSelection) (emit : Result (Unit {0})) (s : Run)
    → (take_selection cfg sel emit s).progress.listing_complete ≡ s.progress.listing_complete
unfolding take_selection stop
take_selection-listing cfg sel (ok _) s = ground arith
take_selection-listing cfg sel (err e) s = ground arith

step-listing :
    (cfg : Config) (e : Event) (s t : Run)
    → step cfg s e ≡ some t
    → t.progress.listing_complete ≡ listing_after cfg (is_exhausted e) s.progress.listing_complete
unfolding step stop
step-listing cfg (select sel emit) s t h =
    let (at, e) = select_taken cfg sel emit s t h in
    ap (λ r. r.progress.listing_complete) (sym e) ∙ take_selection-listing cfg sel emit s
step-listing cfg exhausted s t h = ground arith
step-listing cfg (discovery_failed e) s t h = ground arith
step-listing cfg (start code) s t h = ground arith
step-listing cfg (finish code report (ok _)) s t h = ground arith
step-listing cfg (finish code report (err e)) s t h = ground arith
step-listing cfg collect s t h = ground arith
step-listing cfg gather s t h = ground arith

was_exhausted-first :
    (e : Event) (events : List Event)
    → was_exhausted (e ∷ events) ≡ (is_exhausted e || was_exhausted events)
unfolding was_exhausted
was_exhausted-first (select sel emit) events = refl
was_exhausted-first exhausted events = refl
was_exhausted-first (discovery_failed e) events = refl
was_exhausted-first (start code) events = refl
was_exhausted-first (finish code report emit) events = refl
was_exhausted-first collect events = refl
was_exhausted-first gather events = refl

steps-listing :
    (cfg : Config) (events : List Event) (s t : Run)
    → steps cfg s events ≡ some t
    → t.progress.listing_complete
      ≡ listing_after cfg (was_exhausted events) s.progress.listing_complete
unfolding steps was_exhausted
steps-listing cfg [] s t h =
    let e : s ≡ t = ground arith in ap (λ r. r.progress.listing_complete) (sym e)
steps-listing cfg (e ∷ events) s t h = elim (Option-cases (step cfg s e)) [
  | inl stuck ↦ absurd (ground arith)
  | inr (u, stepped) ↦
      let one = step-listing cfg e s u stepped in
      let rest = steps-listing cfg events u t (ground arith) in
      let first = was_exhausted-first e events in ground arith
]

module _ (cfg : Config) (events : List Event) (s : Run)
    (ran : execute cfg events ≡ ok (some s)) where
  execute-IsBounded : IsBounded cfg s
  execute-IsBounded =
      let (fine, went) = execute_checked cfg events s ran in
      steps-IsBounded cfg events initial s (initial-IsBounded cfg fine) went

  -- At every moment of an execution there are no more open tasks than the concurrency (one, if that
  -- is 0), and under a limit no more attempts than it.
  pub execute_bounds :
      (length s.tasks ≤ slots cfg) × ((l : ℕ) → cfg.limit ≡ some l → s.progress.attempts ≤ l)
  execute_bounds =
      let b = execute-IsBounded in
      (
        within_slots cfg (length s.tasks) s.phase b.tasks,
        λ l e. within_limit cfg.limit s.progress.attempts s.phase l b.limit e,
      )

  -- The listing counts as complete exactly when there is no limit and the adapter has come to the end
  -- of its selections: not after a discovery that raised, or that was left before its end.
  pub listing_complete_lem :
      s.progress.listing_complete ≡ (not (is_some cfg.limit) && was_exhausted events)
  listing_complete_lem =
      let (fine, went) = execute_checked cfg events s ran in
      let listed = steps-listing cfg events initial s went in ground arith
