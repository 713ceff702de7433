-- ===== src/Core/RateLimiter/Slots.antt =====
-- The semaphore of `throttle`: which tasks are inside, and how many more may enter.
use nordicintel_harvest.Prelude.{
  ℕ, suc, ◌+◌, ◌≤◌, ◌≡◌, ap, List, [], ◌∷◌, ◌++◌, arith, length, length-append,
}
use nordicintel_harvest.Prelude.Int.{pos_part}
use nordicintel_harvest.Core.RateLimiter.{RateLimiter}

-- `asyncio.Semaphore(max_concurrency)`, with the tasks between `acquire` and `release`
pub record Slots : Type 0 where
  pub available : ℕ
  pub inside : List ℕ

unfoldable pub fresh : RateLimiter → Slots
fresh limiter = record { available = pos_part limiter.max_concurrency; inside = [] }

-- `acquire` passes only where a slot is free. The `finally` releases it however the body ends.
pub data Step : Slots → Slots → Type 0 where
  acquire :
      (s : Slots) (n task : ℕ)
      → s.available ≡ suc n
      → Step s (record { available = n; inside = task ∷ s.inside })
  release :
      (s : Slots) (before after : List ℕ) (task : ℕ)
      → s.inside ≡ before ++ task ∷ after
      → Step s (record { available = s.available + 1; inside = before ++ after })

pub data Reach (s : Slots) : Slots → Type 0 where
  here : Reach s s
  next : {t u : Slots} → Reach s t → Step t u → Reach s u

abbrev IsBalanced : ℕ → Slots → Type 0
IsBalanced total s = length s.inside + s.available ≡ total

Step-IsBalanced : {total : ℕ} {s t : Slots} → Step s t → IsBalanced total s → IsBalanced total t
Step-IsBalanced (acquire s n task e) h = omega arith
Step-IsBalanced (release s before after task e) h =
    omega (arith, ap length e, length-append before (task ∷ after), length-append before after)

Reach-IsBalanced : {total : ℕ} {s t : Slots} → IsBalanced total s → Reach s t → IsBalanced total t
Reach-IsBalanced h here = h
Reach-IsBalanced h (next r st) = Step-IsBalanced st (Reach-IsBalanced h r)

-- However the tasks of a limiter enter and leave `throttle`, no more of them are inside at once
-- than its `max_concurrency`, and the slots in use and the free ones add up to it.
pub Reach-length-le :
    (limiter : RateLimiter) (s : Slots)
    → Reach (fresh limiter) s
    → (length s.inside ≤ pos_part limiter.max_concurrency)
      × (length s.inside + s.available ≡ pos_part limiter.max_concurrency)
unfolding fresh
Reach-length-le limiter s r =
    let balanced = Reach-IsBalanced {total = pos_part limiter.max_concurrency} (omega arith) r in
    (omega arith, balanced)
