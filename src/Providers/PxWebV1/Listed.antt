-- ===== src/Providers/PxWebV1/Listed.antt =====
-- providers/adapters/pxweb_v1/catalog.py: the listing of a catalogue always comes to an end.
use nordicintel_harvest.Prelude.{ℕ, ◌≤◌, ◌≡◌, refl, Option, none, some, List}
use nordicintel_harvest.Core.Errors.{Result, ok}
use nordicintel_harvest.Providers.PxWebV1.Names.{PxWebTable}
use nordicintel_harvest.Providers.PxWebV1.Crawl.{
  Catalogue, Reply, max_navigation_folders, fetch, crawl_navigation,
}
use nordicintel_harvest.Providers.PxWebV1.Crawled.{crawl_navigation_returns}
use nordicintel_harvest.Providers.PxWebV1.Web.{Website}
use nordicintel_harvest.Providers.PxWebV1.Languages.{Unicode, list_from_search, list_pxweb_tables}

either_returns :
    (c : Catalogue) (rounds : ℕ) (o : Option (List PxWebTable))
    → max_navigation_folders ≤ rounds
    → (r : Result (List PxWebTable)) × ((elim o [
      | some tables ↦ some (ok tables)
      | none ↦ crawl_navigation c rounds
    ])
        ≡ some r)
either_returns c rounds none le = crawl_navigation_returns c rounds le
either_returns c rounds (some tables) le = (ok tables, refl)

-- Whatever the search, the web pages and the folders answer, the listing of a catalogue ends with a
-- list or an error: the walk that it falls back on needs no more rounds than the limit on folders,
-- also where folders lead back to each other or have no end.
pub list_pxweb_tables_returns :
    (c : Catalogue) (u : Unicode) (w : Website) (search : Result Reply) (rounds : ℕ)
    → max_navigation_folders ≤ rounds
    → (r : Result (List PxWebTable)) × (list_pxweb_tables c u w search rounds ≡ some r)
unfolding list_pxweb_tables
list_pxweb_tables_returns c u w search rounds le =
    either_returns c rounds (list_from_search c u w (fetch search)) le
