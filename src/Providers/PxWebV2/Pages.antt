-- ===== src/Providers/PxWebV2/Pages.antt =====
-- providers/adapters/pxweb_v2/adapter.py: what the loop over the pages of the listing yields.
use nordicintel_harvest.Prelude.{
  ℕ, zero, suc, ◌≤◌, ◌<◌, ◌+◌, true, false, ◌≡◌, refl, sym, ap, ◌∙◌, String, List, [], ◌∷◌, ◌++◌,
  arith, string_eq, length, if◌then◌else◌, subst,
}
use mathlib.Core.List.{append-nil}
use nordicintel_harvest.Prelude.Int.{pos}
use nordicintel_harvest.Prelude.Text.{is_empty, join}
use nordicintel_harvest.Core.Errors.{Error, Result, ok, err, ◌>>=◌, ◌>>◌, raise_if, value_error}
use nordicintel_harvest.Core.Json.{Value, num, arr, obj, Items, end, field, get, items}
use nordicintel_harvest.Core.Values.{int_of}
use nordicintel_harvest.Schemas.Dimensions.{leb_ℤ}
use nordicintel_harvest.Providers.Candidates.{FullCandidate}
use nordicintel_harvest.Providers.PxWebV2.Discovery.{
  Service, Page, api_url, get_api_url, page_params, int_under, numbered, read_tables,
  fetch_page_tables, candidates_in, completed, failed, Discovery, turn, discover_pages,
  discover_candidates,
}
use nordicintel_harvest.Providers.PxWebV2.Expected.{
  all_tables, present, all_candidates, first_candidates,
}

-- the answer for one page of a listing
abbrev pub listing : Items → ℕ → ℕ → Value
listing tables page_number total = obj (
    field "tables" (arr tables) (
      field "page"
        (obj
          (field "pageNumber" (num (pos page_number)) (field "totalPages" (num (pos total)) end)))
        end))

abbrev pub tables_url : Service → String
unfolding join
tables_url s = join "/" (s.base_api_url ∷ "tables" ∷ [])

-- The service answers the requests for these pages, numbered from one on, out of so many.
abbrev pub Serves : Service → ℕ → ℕ → List Items → Type 0
Serves s total page_number [] = Unit {0}
Serves s total page_number (tables ∷ pages) =
    (s.get_json (tables_url s) (page_params s page_number) ≡ ok (listing tables page_number total))
    × Serves s total (suc page_number) pages

-- the candidates of all tables, page after page
unfoldable page_candidates : Service → List Items → List FullCandidate
unfolding candidates_in items
page_candidates s [] = []
page_candidates s (tables ∷ pages) = candidates_in s (items tables) ++ page_candidates s pages

read_tables-listing :
    (s : Service) (tables : Items) (page_number total : ℕ)
    → read_tables s.texts.py page_number (listing tables page_number total)
      ≡ ok (record {
        tables = items tables;
        current_page = pos page_number;
        total_pages = pos total;
      })
unfolding read_tables numbered int_under int_of get
read_tables-listing s tables page_number total = refl

get_api_url-tables :
    (s : Service) → is_empty s.base_api_url ≡ false → get_api_url s "tables" "" ≡ ok (tables_url s)
unfolding get_api_url api_url
get_api_url-tables s h = ap (λ b. raise_if b value_error >> ok (tables_url s)) h

-- a request that is answered
fetch_page_tables-answer :
    (s : Service) (page_number : ℕ) (answer : Result Value)
    → is_empty s.base_api_url ≡ false
    → s.get_json (tables_url s) (page_params s page_number) ≡ answer
    → fetch_page_tables s page_number ≡ (answer >>= read_tables s.texts.py page_number)
unfolding fetch_page_tables
fetch_page_tables-answer s page_number answer h e =
    ap
      (λ r. r >>= λ url.
        s.get_json url (page_params s page_number) >>= read_tables s.texts.py page_number)
      (get_api_url-tables s h)
    ∙ ap (λ r. r >>= read_tables s.texts.py page_number) e

abbrev page_of : Items → ℕ → ℕ → Page
unfolding items
page_of tables page_number total = record {
  tables = items tables;
  current_page = pos page_number;
  total_pages = pos total;
}

fetch_page_tables-listing :
    (s : Service) (tables : Items) (page_number total : ℕ)
    → is_empty s.base_api_url ≡ false
    → s.get_json (tables_url s) (page_params s page_number) ≡ ok (listing tables page_number total)
    → fetch_page_tables s page_number ≡ ok (page_of tables page_number total)
unfolding page_of
fetch_page_tables-listing s tables page_number total h e =
    fetch_page_tables-answer s page_number (ok (listing tables page_number total)) h e
    ∙ read_tables-listing s tables page_number total

abbrev prepended : List FullCandidate → Discovery → Discovery
prepended found rest = record { yielded = found ++ rest.yielded; outcome = rest.outcome }

leb_ℤ-pos-le : (m n : ℕ) → m ≤ n → leb_ℤ (pos m) (pos n) ≡ true
leb_ℤ-pos-le m n le = ground arith

leb_ℤ-pos-gt : (m n : ℕ) → n < m → leb_ℤ (pos m) (pos n) ≡ false
leb_ℤ-pos-gt m n lt = ground arith

-- a page before the last
discover_pages-next :
    (s : Service) (tables : Items) (page_number total turns : ℕ)
    → is_empty s.base_api_url ≡ false
    → s.get_json (tables_url s) (page_params s page_number) ≡ ok (listing tables page_number total)
    → page_number < total
    → discover_pages s (suc turns) page_number
      ≡ prepended (candidates_in s (items tables)) (discover_pages s turns (suc page_number))
unfolding discover_pages turn page_of
discover_pages-next s tables page_number total turns h e lt =
    let rest = discover_pages s turns (suc page_number) in
    let found = candidates_in s (items tables) in
    ap (turn s rest) (fetch_page_tables-listing s tables page_number total h e)
    ∙ ap (λ b. if b then record { yielded = found; outcome = completed } else prepended found rest)
        (leb_ℤ-pos-gt total page_number lt)

-- the last page
discover_pages-last :
    (s : Service) (tables : Items) (page_number turns : ℕ)
    → is_empty s.base_api_url ≡ false
    → s.get_json (tables_url s) (page_params s page_number)
      ≡ ok (listing tables page_number page_number)
    → discover_pages s (suc turns) page_number
      ≡ record { yielded = candidates_in s (items tables) ++ []; outcome = completed }
unfolding discover_pages turn page_of
discover_pages-last s tables page_number turns h e =
    let rest = discover_pages s turns (suc page_number) in
    let found = candidates_in s (items tables) in
    ap (turn s rest) (fetch_page_tables-listing s tables page_number page_number h e)
    ∙ ap (λ b. if b then record { yielded = found; outcome = completed } else prepended found rest)
        (leb_ℤ-pos-le page_number page_number (omega arith))
    ∙ ap (λ l. record { yielded = l; outcome = completed }) (sym (append-nil found))

discover_pages-all :
    (s : Service) (first : Items) (pages : List Items) (page_number total turns : ℕ)
    → is_empty s.base_api_url ≡ false
    → Serves s total page_number (first ∷ pages)
    → page_number + length pages ≡ total
    → length pages ≤ turns
    → discover_pages s (suc turns) page_number
      ≡ record { yielded = page_candidates s (first ∷ pages); outcome = completed }
unfolding page_candidates
discover_pages-all s first [] page_number total turns h served e le =
    discover_pages-last s first page_number turns h (
      subst
        (λ n.
          s.get_json (tables_url s) (page_params s page_number) ≡ ok (listing first page_number n))
        (let same : total ≡ page_number = omega arith in same) served.0)
discover_pages-all s first (next ∷ pages) page_number total zero h served e le =
    absurd (let no : suc (length pages) ≤ 0 = le in omega arith)
discover_pages-all s first (next ∷ pages) page_number total (suc turns) h served e le =
    discover_pages-next s first page_number total (suc turns) h served.0 (omega arith)
    ∙ ap (prepended (candidates_in s (items first))) (
        discover_pages-all s next pages (suc page_number) total turns h served.1 (omega arith)
          (omega arith))

discover_pages-failing :
    (s : Service) (pages : List Items) (page_number total turns : ℕ) (e : Error)
    → is_empty s.base_api_url ≡ false
    → Serves s total page_number pages
    → s.get_json (tables_url s) (page_params s (page_number + length pages)) ≡ err e
    → page_number + length pages ≤ total
    → length pages ≤ turns
    → discover_pages s (suc turns) page_number
      ≡ record { yielded = page_candidates s pages; outcome = failed e }
unfolding discover_pages turn page_candidates
discover_pages-failing s [] page_number total turns e h served fails le lt =
    let here : page_number + 0 ≡ page_number = omega arith in
    ap (turn s (discover_pages s turns (suc page_number))) (
      fetch_page_tables-answer s page_number (err e) h
        (subst (λ n. s.get_json (tables_url s) (page_params s n) ≡ err e) here fails))
discover_pages-failing s (tables ∷ pages) page_number total zero e h served fails le lt =
    absurd (let no : suc (length pages) ≤ 0 = lt in omega arith)
discover_pages-failing s (tables ∷ pages) page_number total (suc turns) e h served fails le lt =
    let there : page_number + suc (length pages) ≡ suc page_number + length pages = omega arith in
    discover_pages-next s tables page_number total (suc turns) h served.0 (omega arith)
    ∙ ap (prepended (candidates_in s (items tables))) (
        discover_pages-failing s pages (suc page_number) total turns e h served.1
          (subst (λ n. s.get_json (tables_url s) (page_params s n) ≡ err e) there fails)
          (omega arith) (omega arith))

candidates_of_pages :
    (s : Service) (pages : List Items) → page_candidates s pages ≡ all_candidates s pages
unfolding page_candidates all_candidates all_tables present
candidates_of_pages s [] = refl
candidates_of_pages s (tables ∷ pages) =
    ap (λ l. candidates_in s (items tables) ++ l) (candidates_of_pages s pages)
    ∙ sym (first_candidates s (items tables) (all_tables pages))

-- A service that has an address, and that answers the requests for the pages from one on, each with
-- its number and the number of all pages, is listed completely: as many turns as there are pages, or
-- more, end, and yield a candidate for each table of all pages that gives one, in order.
pub discover_candidates_lem :
    (s : Service) (first : Items) (pages : List Items) (turns : ℕ)
    → is_empty s.base_api_url ≡ false
    → Serves s (suc (length pages)) 1 (first ∷ pages)
    → length pages ≤ turns
    → discover_candidates s (suc turns)
      ≡ record { yielded = all_candidates s (first ∷ pages); outcome = completed }
unfolding discover_candidates
discover_candidates_lem s first pages turns h served le =
    ap
      (λ b.
        if b then record { yielded = []; outcome = completed } else discover_pages s (suc turns) 1)
      h
    ∙ discover_pages-all s first pages 1 (suc (length pages)) turns h served (omega arith) le
    ∙ ap (λ l. record { yielded = l; outcome = completed }) (candidates_of_pages s (first ∷ pages))

-- When the request for a later page raises, the candidates of the pages before it have been
-- yielded, in order, and the error ends the discovery: it never looks complete.
pub discover_candidates_raises :
    (s : Service) (pages : List Items) (total turns : ℕ) (e : Error)
    → is_empty s.base_api_url ≡ false
    → Serves s total 1 pages
    → s.get_json (tables_url s) (page_params s (suc (length pages))) ≡ err e
    → length pages < total
    → length pages ≤ turns
    → discover_candidates s (suc turns)
      ≡ record { yielded = all_candidates s pages; outcome = failed e }
unfolding discover_candidates
discover_candidates_raises s pages total turns e h served fails lt le =
    let here : suc (length pages) ≡ 1 + length pages = omega arith in
    ap
      (λ b.
        if b then record { yielded = []; outcome = completed } else discover_pages s (suc turns) 1)
      h
    ∙ discover_pages-failing s pages 1 total turns e h served
        (subst (λ n. s.get_json (tables_url s) (page_params s n) ≡ err e) here fails) (omega arith)
        le
    ∙ ap (λ l. record { yielded = l; outcome = failed e }) (candidates_of_pages s pages)
