-- ===== src/Providers/PxWebV2/Expected.antt =====
-- providers/adapters/pxweb_v2/adapter.py: the candidates of a listing, without its loops.
use nordicintel_harvest.Prelude.{
  ◌≡◌, refl, sym, ap, ◌∙◌, Option, none, some, Option-cases, inl, inr, map, List, [], ◌∷◌, ◌++◌,
  string_eq,
}
use nordicintel_harvest.Core.Json.{Value, Items, items}
use nordicintel_harvest.Providers.Candidates.{FullCandidate}
use nordicintel_harvest.Providers.PxWebV2.Discovery.{Service, discovered_dataset, candidates_in}

-- the tables of all pages, in order
unfoldable pub all_tables : List Items → List Value
unfolding items
all_tables [] = []
all_tables (tables ∷ pages) = items tables ++ all_tables pages

-- those that there are, in order
unfoldable pub present : List (Option FullCandidate) → List FullCandidate
present [] = []
present (none ∷ l) = present l
present (some c ∷ l) = c ∷ present l

-- a candidate for each table of all pages that gives one, in order
unfoldable pub all_candidates : Service → List Items → List FullCandidate
all_candidates s pages = present (map (discovered_dataset s) (all_tables pages))

pub first_candidates :
    (s : Service) (l others : List Value)
    → present (map (discovered_dataset s) (l ++ others))
      ≡ candidates_in s l ++ present (map (discovered_dataset s) others)
unfolding present candidates_in
first_candidates s [] others = refl
first_candidates s (table ∷ l) others =
    let rest = present (map (discovered_dataset s) (l ++ others)) in
    let after = present (map (discovered_dataset s) others) in
    let ih = first_candidates s l others in
    elim (Option-cases (discovered_dataset s table)) [
      | inl e ↦
          ap (λ o. present (o ∷ map (discovered_dataset s) (l ++ others))) e
          ∙ ih
          ∙ sym (
              ap
                (λ o.
                  (elim o [ none ↦ candidates_in s l | some c ↦ c ∷ candidates_in s l ]) ++ after)
                e)
      | inr (candidate, e) ↦
          ap (λ o. present (o ∷ map (discovered_dataset s) (l ++ others))) e
          ∙ ap (λ x. candidate ∷ x) ih
          ∙ sym (
              ap
                (λ o.
                  (elim o [ none ↦ candidates_in s l | some c ↦ c ∷ candidates_in s l ]) ++ after)
                e)
    ]
