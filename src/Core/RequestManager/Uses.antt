-- ===== src/Core/RequestManager/Uses.antt =====
-- core/request_manager.py: the managers that a program can have, by what it has called on them.
use nordicintel_harvest.Prelude.{ℕ, ◌≡◌, sym, subst, String, Option, arith, ◌⊎◌, inl, inr}
use nordicintel_harvest.Prelude.Int.{ℤ}
use nordicintel_harvest.Core.Errors.{Error, ok, err, Result-cases}
use nordicintel_harvest.Core.RequestManager.State.{
  Library, RequestManager, Options, create, start, close, set_limit, get_base_host,
}
use nordicintel_harvest.Core.RequestManager.Attempts.{Turn, Bodies, check_bodies, make_request_raw}
use nordicintel_harvest.Core.RequestManager.Limits.{IsValid, create-IsValid, set_limit-IsValid}
use nordicintel_harvest.Core.RequestManager.Promises.{start-IsValid, make_request_raw_lem}

-- A manager that `__init__` accepts, and what `start`, `close`, `set_limit` and requests make of it, in
-- any order, whatever the server answers and whether a request succeeds or not.
pub data History (lib : Library) : RequestManager → Type 0 where
  created : {m : RequestManager} → (o : Options) → create o ≡ ok m → History lib m
  started : {m : RequestManager} → History lib m → History lib (start m)
  closed : {m : RequestManager} → History lib m → History lib (close m)
  limit_set :
      {m m' : RequestManager}
      → (url : String) (interval max_concurrency : Option ℤ) (now : ℤ)
      → set_limit lib m url interval max_concurrency now ≡ ok m'
      → History lib m
      → History lib m'
  requested :
      {m : RequestManager}
      → (world : ℕ → Turn) (url : String) (bodies : Bodies) (now : ℤ) → History lib m
      → History lib (make_request_raw lib world m url bodies now).manager

close-IsValid : (m : RequestManager) → IsValid m → IsValid (close m)
unfolding close
close-IsValid m v = record {
  interval = v.interval;
  concurrency = v.concurrency;
  increase = v.increase;
  ceiling = v.ceiling;
  default_cooldown = v.default_cooldown;
  global_concurrency = v.global_concurrency;
  patience = v.patience;
  hosts = v.hosts;
}

module _ (lib : Library) (world : ℕ → Turn) (m : RequestManager) (url : String) (bodies : Bodies)
    (now : ℤ) where
  abbrev after_request : RequestManager
  after_request = (make_request_raw lib world m url bodies now).manager

  unsent :
      (e : Error)
      → (check_bodies bodies ≡ err e)
        ⊎ ((check_bodies bodies ≡ ok tt) × (get_base_host lib url ≡ err e))
      → after_request ≡ start m
  unfolding make_request_raw
  unsent e (inl refused) = ground (arith, refused)
  unsent e (inr (checked, refused)) = ground (arith, checked, refused)

  -- A request leaves the manager valid, also one that is refused before it is sent.
  make_request_raw-IsValid : IsValid m → IsValid after_request
  make_request_raw-IsValid v = elim (Result-cases (check_bodies bodies)) [
    | inr (e, refused) ↦ subst IsValid (sym (unsent e (inl refused))) (start-IsValid m v)
    | inl (u, checked) ↦ elim (Result-cases (get_base_host lib url)) [
      | inr (e, refused) ↦
          subst IsValid (sym (unsent e (inr (checked, refused)))) (start-IsValid m v)
      | inl (host, named) ↦
          let (result, count, valid) =
            make_request_raw_lem lib world m url bodies now host v checked named in
          valid
    ]
  ]

-- However a program uses a manager, by starting and closing it, setting limits and sending requests,
-- all its limits stay in range: the interval, the cooldowns and the slowdown are not negative, the
-- timeout is positive, and the global limit and that of every host are at least one.
pub History-IsValid : (lib : Library) (m : RequestManager) → History lib m → IsValid m
History-IsValid lib m (created o e) = create-IsValid o m e
History-IsValid lib _ (started {m} h) = start-IsValid m (History-IsValid lib m h)
History-IsValid lib _ (closed {m} h) = close-IsValid m (History-IsValid lib m h)
History-IsValid lib m' (limit_set {m} url interval max_concurrency now e h) =
    set_limit-IsValid lib m url interval max_concurrency now m' (History-IsValid lib m h) e
History-IsValid lib _ (requested {m} world url bodies now h) =
    make_request_raw-IsValid lib world m url bodies now (History-IsValid lib m h)
