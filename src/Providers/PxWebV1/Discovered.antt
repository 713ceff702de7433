-- ===== src/Providers/PxWebV1/Discovered.antt =====
-- providers/adapters/pxweb_v1/adapter.py: what the discovery of a database yields.
use nordicintel_harvest.Prelude.{
  Bool, true, false, ◌≡◌, refl, sym, ap, ◌∙◌, subst, String, Option, none, some, List, [], ◌∷◌, map,
  string_eq, ◌==◌, contains, distinct, if◌then◌else◌, get_or, arith, All, Bool-cases, inl, inr,
}
use nordicintel_harvest.Prelude.Dict.{keys, lookup}
use nordicintel_harvest.Core.Errors.{Result, ok, err, ◌>>=◌, >>=-eq-ok, ok-injective}
use nordicintel_harvest.Providers.Interface.{DateTime}
use nordicintel_harvest.Providers.Candidates.{FullCandidate}
use nordicintel_harvest.Providers.PxWebV1.Names.{PxWebTable}
use nordicintel_harvest.Providers.PxWebV1.Discovery.{
  PxWebV1Adapter, updated_stamp, occurrence_paths, occurrence_candidate, candidate_from_occurrences,
  by_table_id, group_candidates, discovered_from,
}
use nordicintel_harvest.Providers.PxWebV1.Grouped.{
  IsGroup, Groups, by_table_id-IsGroup, distinct-keys-by_table_id, contains-keys-by_table_id,
  lookup-by_table_id, occurrences_of, ids_of_tables,
}

abbrev pub codes_of_candidates : List FullCandidate → List String
codes_of_candidates = map (λ c. c.candidate.dataset_code)

stamped_code :
    (a : PxWebV1Adapter) (t : PxWebTable) (ts : List PxWebTable) (c : FullCandidate)
    (stamp : Option DateTime)
    → (elim stamp [
      | none ↦ ok none
      | some updated ↦ occurrence_paths [] (t ∷ ts) >>= λ paths.
          ok (some (occurrence_candidate a t updated paths))
    ])
      ≡ ok (some c)
    → c.candidate.dataset_code ≡ t.id
unfolding occurrence_candidate
stamped_code a t ts c none h = let no_candidate : none ≡ some c = ok-injective h in cc
stamped_code a t ts c (some updated) h =
    let (paths, before, returned) = >>=-eq-ok (occurrence_paths [] (t ∷ ts)) _ h in
    let both : some (occurrence_candidate a t updated paths) ≡ some c = ok-injective returned in
    let equal : c ≡ occurrence_candidate a t updated paths = cc in
    ap (λ x. x.candidate.dataset_code) equal

-- the candidate has the id of the first occurrence
candidate_code :
    (a : PxWebV1Adapter) (t : PxWebTable) (ts : List PxWebTable) (c : FullCandidate)
    → candidate_from_occurrences a (t ∷ ts) ≡ ok (some c)
    → c.candidate.dataset_code ≡ t.id
unfolding candidate_from_occurrences
candidate_code a t ts c h =
    let (stamp, before, returned) = >>=-eq-ok (updated_stamp a.texts t) _ h in
    stamped_code a t ts c stamp returned

group_code :
    (a : PxWebV1Adapter) (g : String × List PxWebTable) (c : FullCandidate)
    → IsGroup g
    → candidate_from_occurrences a g.1 ≡ ok (some c)
    → c.candidate.dataset_code ≡ g.0
group_code a g c i h =
    candidate_code a i.first i.others c
      (subst (λ l. candidate_from_occurrences a l ≡ ok (some c)) i.grouped h)
    ∙ i.same

-- the codes are among the names, and none comes twice
record IsNamed (names : List String) (found : List FullCandidate) : Type 0 where
  once : distinct (codes_of_candidates found) ≡ true
  known : (x : String) → contains (codes_of_candidates found) x ≡ true → contains names x ≡ true

one_more :
    (k : String) (names : List String) (found : List FullCandidate)
    → IsNamed names found
    → IsNamed (k ∷ names) found
one_more k names found i = record { once = i.once; known = λ x h. ground (arith, i.known x h) }

with_candidate :
    (k : String) (names : List String) (c : FullCandidate) (found : List FullCandidate)
    → contains names k ≡ false
    → c.candidate.dataset_code ≡ k
    → IsNamed names found
    → IsNamed (k ∷ names) (c ∷ found)
with_candidate k names c found new e i = record {
  once = ground (arith, i.once, i.known c.candidate.dataset_code, ap (contains names) e);
  known = λ x h. ground (arith, i.known x, ap (λ n. n == x) e);
}

add_result :
    (k : String) (names : List String) (rest : List FullCandidate)
    (r : Result (Option FullCandidate))
    → contains names k ≡ false
    → ((c : FullCandidate) → r ≡ ok (some c) → c.candidate.dataset_code ≡ k)
    → IsNamed names rest
    → IsNamed
        (k ∷ names)
        (elim r [ err e ↦ rest | ok none ↦ rest | ok (some discovered) ↦ discovered ∷ rest ])
add_result k names rest (err e) new code i = one_more k names rest i
add_result k names rest (ok none) new code i = one_more k names rest i
add_result k names rest (ok (some c)) new code i = with_candidate k names c rest new (code c refl) i

group_candidates-IsNamed :
    (a : PxWebV1Adapter) (groups : Groups)
    → distinct (keys groups) ≡ true
    → All IsGroup groups
    → IsNamed (keys groups) (group_candidates a groups)
unfolding group_candidates
group_candidates-IsNamed a [] h all = record { once = refl; known = λ x e. e }
group_candidates-IsNamed a (g ∷ groups) h (i, all) =
    let rest = group_candidates a groups in
    let named = group_candidates-IsNamed a groups (ground arith) all in
    add_result g.0 (keys groups) rest (candidate_from_occurrences a g.1) (ground arith)
      (λ c e. group_code a g c i e) named

-- a group that gives a candidate adds its name to the codes, any other keeps them
added_code :
    (x j : String) (rest : List FullCandidate) (r : Result (Option FullCandidate))
    (c : FullCandidate)
    → r ≡ ok (some c)
    → c.candidate.dataset_code ≡ x
    → contains
        (codes_of_candidates
          (elim r [ err e ↦ rest | ok none ↦ rest | ok (some discovered) ↦ discovered ∷ rest ]))
        x
      ≡ true
added_code x j rest (err e) c h code = cc
added_code x j rest (ok none) c h code = let no_candidate : none ≡ some c = ok-injective h in cc
added_code x j rest (ok (some d)) c h code =
    let both : some d ≡ some c = ok-injective h in
    let equal : d ≡ c = cc in
    let same : d.candidate.dataset_code ≡ x = ap (λ u. u.candidate.dataset_code) equal ∙ code in
    ground (arith, (string_eq.beq_iff d.candidate.dataset_code x).1 same)

kept_code :
    (x : String) (rest : List FullCandidate) (r : Result (Option FullCandidate))
    → contains (codes_of_candidates rest) x ≡ true
    → contains
        (codes_of_candidates
          (elim r [ err e ↦ rest | ok none ↦ rest | ok (some discovered) ↦ discovered ∷ rest ]))
        x
      ≡ true
kept_code x rest (err e) h = h
kept_code x rest (ok none) h = h
kept_code x rest (ok (some d)) h = ground (arith, h)

group_candidates_lem :
    (a : PxWebV1Adapter) (groups : Groups) (x : String) (c : FullCandidate)
    → All IsGroup groups
    → candidate_from_occurrences a (get_or (lookup x groups) []) ≡ ok (some c)
    → contains (codes_of_candidates (group_candidates a groups)) x ≡ true
unfolding group_candidates lookup candidate_from_occurrences
group_candidates_lem a [] x c all h = cc
group_candidates_lem a ((j, w) ∷ groups) x c (i, all) h =
    let rest = group_candidates a groups in
    let at : Bool → Type 0 = λ b.
      candidate_from_occurrences a (get_or (if b then some w else lookup x groups) [])
      ≡ ok (some c) in
    elim (Bool-cases (j == x)) [
      | inl e ↦
          let here = subst at e h in
          added_code x j rest (candidate_from_occurrences a w) c here
            (group_code a (j, w) c i here ∙ (string_eq.beq_iff j x).0 e)
      | inr e ↦
          kept_code x rest (candidate_from_occurrences a w)
            (group_candidates_lem a groups x c all (subst at e h))
    ]

-- What the discovery of a database gives for its tables: a candidate for no id twice, only for ids of
-- the listing, and for each id whose occurrences give one.
pub record IsListed (a : PxWebV1Adapter) (entries : List PxWebTable) (found : List FullCandidate)
    : Type 0 where
  pub once : distinct (codes_of_candidates found) ≡ true
  pub known :
      (x : String)
      → contains (codes_of_candidates found) x ≡ true
      → contains (ids_of_tables entries) x ≡ true
  pub complete :
      (x : String) (c : FullCandidate)
      → candidate_from_occurrences a (occurrences_of x entries) ≡ ok (some c)
      → contains (codes_of_candidates found) x ≡ true

-- From the tables that a listing gives, the discovery of a database yields a candidate for no id twice,
-- only for ids of the listing, and for each id whose occurrences in the listing give a candidate: a
-- table that raises, or has no time stamp, takes no other table with it.
pub discovered_from_lem :
    (a : PxWebV1Adapter) (entries : List PxWebTable)
    → IsListed a entries (discovered_from a (ok entries))
unfolding discovered_from occurrences_of
discovered_from_lem a entries =
    let groups = by_table_id entries [] in
    let all = by_table_id-IsGroup entries [] tt in
    let named = group_candidates-IsNamed a groups (distinct-keys-by_table_id entries [] refl) all in
    record {
      once = named.once;
      known = λ x h. sym (contains-keys-by_table_id entries [] x) ∙ named.known x h;
      complete = λ x c h. group_candidates_lem a groups x c all (
          subst (λ l. candidate_from_occurrences a l ≡ ok (some c))
            (sym (lookup-by_table_id entries [] x)) h);
    }
