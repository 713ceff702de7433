-- ===== src/Providers/PxWebV1/Crawled.antt =====
-- providers/adapters/pxweb_v1/catalog.py: the walk through the folders ends, and what it has seen then.
use nordicintel_harvest.Prelude.{
  ℕ, zero, suc, ◌≤◌, ◌+◌, String, true, ◌≡◌, refl, sym, ap, ◌∙◌, subst, Option, none, some, List,
  [], ◌∷◌, All, map, ◌++◌, arith, string_eq, distinct, length, length-append, length-map,
}
use mathlib.Core.List.{append-nil}
use nordicintel_harvest.Prelude.Sets.{list_eq, pair_eq}
use nordicintel_harvest.Core.Errors.{Error, Result, ok, err, ◌>>=◌}
use nordicintel_harvest.Providers.PxWebV1.Names.{PxWebTable}
use nordicintel_harvest.Providers.PxWebV1.Crawl.{
  Catalogue, max_navigation_folders, Folder, Crawl, first_crawl, turn, after_turn, walk,
  listed_tables, crawl_navigation,
}
use nordicintel_harvest.Providers.PxWebV1.Known.{IsOpened, turn-IsOpened}
use nordicintel_harvest.Providers.PxWebV1.Walked.{
  paths_of, folder_url, record_key, IsPlaced, IsWalk, turn-IsWalk,
}

first_crawl-IsWalk : (c : Catalogue) → IsWalk c [] first_crawl
first_crawl-IsWalk c = record {
  sent = refl;
  queued = refl;
  folders = refl;
  named = (refl, tt);
  tables = refl;
  recorded = refl;
  placed = tt;
  bounded = omega arith;
}

-- no more folders are visited than the limit allows
visited-le :
    (c : Catalogue) (visited : List (List String)) (s : Crawl)
    → IsWalk c visited s
    → length visited + length s.pending ≤ max_navigation_folders
visited-le c visited s w =
    let sizes = ap length w.queued ∙ length-append visited (paths_of s.pending) in
    let queue = length-map s.pending (λ f. f.path) in let bound = w.bounded in omega arith

-- a result that a walk may have: an error, or a state in which all known folders have been visited
data IsEnd (c : Catalogue) : Option (Result Crawl) → Type 0 where
  raised : {o : Option (Result Crawl)} → (e : Error) → o ≡ some (err e) → IsEnd c o
  ended :
      {o : Option (Result Crawl)}
      → (t : Crawl) (visited : List (List String)) → IsWalk c visited t
      → All (IsOpened c t) visited
      → t.pending ≡ []
      → o ≡ some (ok t)
      → IsEnd c o

after_turn-IsEnd :
    (c : Catalogue) (more : List Folder → Crawl → Option (Result Crawl)) (r : Result Crawl)
    → ((next : Crawl) → r ≡ ok next → IsEnd c (more next.pending next))
    → IsEnd c (after_turn more r)
after_turn-IsEnd c more (err e) k = raised e refl
after_turn-IsEnd c more (ok next) k = k next refl

walk-IsEnd :
    (c : Catalogue) (rounds : ℕ) (pending : List Folder) (visited : List (List String)) (s : Crawl)
    → IsWalk c visited s
    → All (IsOpened c s) visited
    → s.pending ≡ pending
    → max_navigation_folders ≤ rounds + length visited
    → IsEnd c (walk c rounds pending s)
unfolding walk
walk-IsEnd c rounds [] visited s w o e le = ended s visited w o e refl
walk-IsEnd c zero (folder ∷ pending) visited s w o e le =
    let bound = visited-le c visited s w in
    let size : length s.pending ≡ suc (length pending) = ap length e in absurd (omega arith)
walk-IsEnd c (suc rounds) (folder ∷ pending) visited s w o e le =
    after_turn-IsEnd c (walk c rounds) (turn c folder pending s) (λ next h.
      let walks = turn-IsWalk c folder pending visited s next w e h in
      let size = length-append visited (folder.path ∷ []) in
      let opens = turn-IsOpened c folder pending visited s next o h in
      walk-IsEnd c rounds next.pending (visited ++ folder.path ∷ []) next walks opens refl
        (omega arith))

-- What the walk has done when it ends without an error.
pub record IsComplete (c : Catalogue) (t : Crawl) : Type 0 where
  pub once : distinct t.seen_folders ≡ true
  pub all_requested : t.requested ≡ map (folder_url c) t.seen_folders
  pub limited : length t.requested ≤ max_navigation_folders
  pub tables : distinct t.seen_tables ≡ true
  pub recorded : map (record_key c) t.output ≡ t.seen_tables
  pub placed : All (IsPlaced c) t.output
  pub closed : All (IsOpened c t) t.seen_folders

at_end :
    (c : Catalogue) (visited : List (List String)) (t : Crawl)
    → IsWalk c visited t
    → All (IsOpened c t) visited
    → t.pending ≡ []
    → IsComplete c t
at_end c visited t w o e =
    let known : t.seen_folders ≡ visited =
      w.queued ∙ ap (λ l. visited ++ paths_of l) e ∙ append-nil visited in
    let requested = w.sent ∙ ap (map (folder_url c)) (sym known) in
    let size : length t.requested ≡ length t.seen_folders =
      ap length requested ∙ length-map t.seen_folders (folder_url c) in
    record {
      once = w.folders;
      all_requested = requested;
      limited = let bound = w.bounded in omega arith;
      tables = w.tables;
      recorded = w.recorded;
      placed = w.placed;
      closed = subst (All (IsOpened c t)) (sym known) o;
    }

end_returns :
    (c : Catalogue) (o : Option (Result Crawl))
    → IsEnd c o
    → (r : Result (List PxWebTable)) × ((elim o [
      | none ↦ none
      | some w ↦ some (w >>= listed_tables c.names)
    ])
        ≡ some r)
end_returns c o (raised e same) =
    (err e, ap (λ x. elim x [ none ↦ none | some w ↦ some (w >>= listed_tables c.names) ]) same)
end_returns c o (ended t visited w opened p same) = (
  listed_tables c.names t,
  ap (λ x. elim x [ none ↦ none | some w ↦ some (w >>= listed_tables c.names) ]) same,
)

only_end :
    (c : Catalogue) (o : Option (Result Crawl)) (t : Crawl)
    → IsEnd c o
    → o ≡ some (ok t)
    → IsComplete c t
only_end c o t (raised e same) h = let no_error : some (err e) ≡ some (ok t) = sym same ∙ h in cc
only_end c o t (ended u visited w opened p same) h =
    let both : some (ok u) ≡ some (ok t) = sym same ∙ h in
    let equal : u ≡ t = cc in subst (IsComplete c) equal (at_end c visited u w opened p)

first_walk :
    (c : Catalogue) (rounds : ℕ)
    → max_navigation_folders ≤ rounds
    → IsEnd c (walk c rounds first_crawl.pending first_crawl)
first_walk c rounds le =
    walk-IsEnd c rounds first_crawl.pending [] first_crawl (first_crawl-IsWalk c) tt refl
      (omega arith)

-- However the service answers, also with folders that lead back to each other or that have no end, the
-- walk ends: as many rounds as the limit on folders are enough for a result, a list or an error.
pub crawl_navigation_returns :
    (c : Catalogue) (rounds : ℕ)
    → max_navigation_folders ≤ rounds
    → (r : Result (List PxWebTable)) × (crawl_navigation c rounds ≡ some r)
unfolding crawl_navigation
crawl_navigation_returns c rounds le =
    end_returns c (walk c rounds first_crawl.pending first_crawl) (first_walk c rounds le)

-- A walk that ends without an error has sent one request for each folder it knows, in the order in which
-- they were found, to the URL of that folder, and no more than the limit; no folder is known twice.
-- Its records are one for each pair of a folder and a table id that it knows, read without case, in
-- their order and none twice, and each has the path and the address of its folder. Every folder and
-- every table that the answer for a known folder lists is known.
pub walk-IsComplete :
    (c : Catalogue) (rounds : ℕ) (t : Crawl)
    → max_navigation_folders ≤ rounds
    → walk c rounds first_crawl.pending first_crawl ≡ some (ok t)
    → IsComplete c t
walk-IsComplete c rounds t le h =
    only_end c (walk c rounds first_crawl.pending first_crawl) t (first_walk c rounds le) h
