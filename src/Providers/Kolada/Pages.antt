-- ===== src/Providers/Kolada/Pages.antt =====
-- providers/adapters/kolada/client.py: the loop over the pages of a list ends.
use nordicintel_harvest.Prelude.{
  ℕ, zero, suc, ◌≤◌, ◌<◌, ◌≡◌, refl, true, false, not, ◌||◌, String, Option, none, some, List, [],
  ◌∷◌, ◌++◌, arith, string_eq, ◌==◌, add, keep, length, contains, contains-append, if◌then◌else◌,
  Bool-cases, inl, inr, ap, ◌∙◌,
}
use nordicintel_harvest.Core.Errors.{Result, ok, err, ◌>>=◌, value_error}
use nordicintel_harvest.Core.Json.{Fields}
use nordicintel_harvest.Providers.Kolada.Client.{Api, read_page, next_url, follow, paginate}

-- the URLs that have not been seen
unseen : List String → List String → ℕ
unseen seen urls = length (keep (λ u. not (contains seen u)) urls)

contains-add :
    (seen : List String) (url u : String)
    → contains (add seen url) u ≡ (contains seen u || url == u)
unfolding add
contains-add seen url u = ground (arith, contains-append seen (url ∷ []) u, string_eq.beq_iff url u)

unseen-add-le :
    (seen : List String) (url : String) (urls : List String)
    → unseen (add seen url) urls ≤ unseen seen urls
unfolding unseen
unseen-add-le seen url [] = omega arith
unseen-add-le seen url (u ∷ urls) =
    ground (arith, contains-add seen url u, unseen-add-le seen url urls)

unseen-add-lt :
    (seen : List String) (url : String) (urls : List String)
    → contains urls url ≡ true
    → contains seen url ≡ false
    → unseen (add seen url) urls < unseen seen urls
unfolding unseen
unseen-add-lt seen url [] h k = cc
unseen-add-lt seen url (u ∷ urls) h k = ground (
  arith,
  contains-add seen url u,
  unseen-add-le seen url urls,
  unseen-add-lt seen url urls,
  string_eq.beq_iff u url,
  string_eq.beq_iff url u,
)

Among : List String → Option String → Type 0
Among urls next = (url : String) → next ≡ some url → contains urls url ≡ true

follow_lem :
    (api : Api) (url : String) (found : List Fields)
    (more : Option String → List Fields → Option (Result (List Fields)))
    (page : Result (List Fields × Option String))
    → ((page_values : List Fields) (link : String)
        → page ≡ ok (page_values, some link)
        → (r : Result (List Fields)) × (more (next_url api url link) (found ++ page_values)
            ≡ some r))
    → (r : Result (List Fields)) × (follow api url found more page ≡ some r)
unfolding follow
follow_lem api url found more (err e) h = (err e, refl)
follow_lem api url found more (ok (page_values, none)) h = (ok (found ++ page_values), refl)
follow_lem api url found more (ok (page_values, some link)) h = h page_values link refl

paginate-new :
    (api : Api) (rounds : ℕ) (url : String) (seen : List String) (found : List Fields)
    → contains seen url ≡ false
    → paginate api (suc rounds) (some url) seen found
      ≡ follow api url found
          (λ next. paginate api rounds next (add seen url))
          (api.get_json url >>= read_page)
unfolding paginate
paginate-new api rounds url seen found new =
    let rest =
      follow api url found (λ next. paginate api rounds next (add seen url))
        (api.get_json url >>= read_page) in
    ap (λ b. if b then some (err value_error) else rest) new

unseen-le : (seen urls : List String) → unseen seen urls ≤ length urls
unfolding unseen
unseen-le seen [] = omega arith
unseen-le seen (u ∷ urls) = ground (arith, unseen-le seen urls)

module _ (api : Api) (urls : List String)
    (closed : (url : String) (page_values : List Fields) (link : String)
      → contains urls url ≡ true
      → (api.get_json url >>= read_page) ≡ ok (page_values, some link)
      → Among urls (next_url api url link)) where
  paginate-ends :
      (rounds : ℕ) (next : Option String) (seen : List String) (found : List Fields)
      → Among urls next
      → unseen seen urls < rounds
      → (r : Result (List Fields)) × (paginate api rounds next seen found ≡ some r)
  unfolding paginate Among
  paginate-ends rounds none seen found known h = (ok found, refl)
  paginate-ends zero (some url) seen found known h = absurd (omega arith)
  paginate-ends (suc rounds) (some url) seen found known h = elim (Bool-cases (contains seen url)) [
    | inl again ↦ (err value_error, rw again refl)
    | inr new ↦
        let here = known url refl in
        let less = unseen-add-lt seen url urls here new in
        let (r, same) =
          follow_lem api url found (λ next. paginate api rounds next (add seen url))
            (api.get_json url >>= read_page)
            (λ page_values link read.
              paginate-ends rounds (next_url api url link) (add seen url) (found ++ page_values)
                (closed url page_values link here read) (omega arith)) in
        (r, paginate-new api rounds url seen found new ∙ same)
  ]

-- Where the links of the pages stay among finitely many URLs, the loop ends: one more round than there
-- are such URLs is enough, from any of them, whatever the pages hold and wherever the links lead.
pub paginate_lem :
    (api : Api) (urls : List String) (start : String)
    → contains urls start ≡ true
    → ((url : String) (page_values : List Fields) (link next : String)
        → contains urls url ≡ true
        → (api.get_json url >>= read_page) ≡ ok (page_values, some link)
        → next_url api url link ≡ some next
        → contains urls next ≡ true)
    → (r : Result (List Fields)) × (paginate api (suc (length urls)) (some start) [] [] ≡ some r)
unfolding Among
paginate_lem api urls start known closed =
    paginate-ends api urls
      (λ url page_values link here read next. closed url page_values link next here read)
      (suc (length urls)) (some start) [] [] (λ url same. cc) (omega (arith, unseen-le [] urls))
