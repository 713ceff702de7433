-- ===== src/Lib.antt =====
-- The harvester of statistical metadata: it claims jobs from a catalogue service, asks a provider
-- for its datasets within the limits of the provider, and posts what it finds back.
--
-- The parts and the files that model them. Paths of the program are given from the root of the
-- repository; all of it is under src/nordicintel_harvest/.
--
--   Prelude/       the shared types, Python's operations on lists, sets, dicts and texts, sums over
--                  dicts, and signed integers over the native numbers
--   Core/          src/nordicintel_harvest/core/: Errors (errors.py, and the built-in exceptions),
--                  RateLimiter (rate_limiter.py), RequestManager (request_manager.py: State holds the
--                  hosts and set_limit, Cooldown the reaction to a 429, Attempts `_make_request`, Calls
--                  the methods on top of it), Json (the values that json.loads gives), Values (what
--                  Python's built-in functions do with them)
--   Providers/     src/nordicintel_harvest/providers/: Interface and Candidates (interface.py), Common
--                  (adapters/common.py), Kolada (adapters/kolada: Parsing, Catalogue, Batches, Presence,
--                  Dimensions and Metadata model parsing.py, Client, Indicators and Probe model
--                  client.py, Adapter and Resolve model adapter.py), PxWebV2 (adapters/pxweb_v2:
--                  Discovery and Resolve model adapter.py, Paths, Contacts, Roles, Categories,
--                  Dimensions, Tables and Payload model parsing.py), PxWebV1 (adapters/pxweb_v1:
--                  Names, Html, Crawl, Web, Listing and Languages model catalog.py, Discovery and
--                  Variables model adapter.py, Sample the sample request of enrichment.py)
--   Schemas/       src/nordicintel_harvest/schemas/: Dimensions (dimensions.py), Datasets and
--                  Documents (datasets.py), Contracts (contracts.py)
--   Runner/        src/nordicintel_harvest/runner.py: Resolve is the inner function `resolve`, Machine
--                  the rest of `execute`
--   Catalog        src/nordicintel_harvest/catalog.py: `CatalogClient.request`
--   Inputs         src/nordicintel_harvest/inputs.py
--   Worker         src/nordicintel_harvest/worker.py: how `run_job` reads its states and how it ends
--   Tests and */Tests   runs of the definitions at concrete inputs
--
-- How the parts meet: the worker reads the stored states of a job page by page through the catalogue
-- client and calls `execute`, which takes selections from an adapter, resolves them in tasks and emits
-- a report for each. An adapter sends its requests through the request manager, which keeps one state
-- and one rate limiter for each host. What an adapter builds goes through the validators of the
-- schemas.
--
-- How the code is modelled. A method of an object takes the state of the object as a record and
-- returns the new one. A call that may raise returns a `Result`; the texts of messages are left out.
-- Times are whole milliseconds, and a `datetime` whole microseconds, with a sign; a sleep may
-- wake late by any amount, which is an argument.
-- Concurrency is a step relation (Core/RateLimiter/Slots) or a list of events that the event loop
-- may choose (Runner/Machine). `_make_request` is modelled for one task at a time on a host.
--
-- Loops with a bound are recursion on the rounds left: three attempts in `_make_request`, three or
-- one in `CatalogClient.request`, as many batches as there are values. The paging loop of the Kolada
-- client and the loop over the stored states have no bound in the code: they take a number of rounds
-- and give `none` when it does not suffice: as many rounds as there are rows and one more are enough
-- for the states, and as many as there are URLs that the links can lead to and one more for the
-- pages. Where the Kolada client pages for a whole job, the number of rounds is an argument. A
-- PxWeb v2 service is listed in at most as many turns as it says to have pages; a discovery that is
-- given fewer ends as `running`. The walk through a PxWeb v1 catalogue needs no more rounds than the
-- 10,000 folders that the code allows.
--
-- What stands for code outside the repository is an argument: the HTTP client and server as the
-- sequence of outcomes, or as the answer to each URL where the answers do not change while a client
-- lives; the reading of URLs, numbers and dates; the JSON schema check.
--
-- What is not modelled: the documents of PxWeb v1, most of its enrichment, and its table entries, which
-- nothing uses; registry.py; the heartbeat, the lease and the claim loop of worker.py; cli.py;
-- validate_contract, which loads JSON schemas from files; config.py and logging.py, which read the
-- environment. The tokens of an HTML page, the regular expressions and the tables of Unicode are
-- arguments. Locks, and the retry of a cache after an exception, are modelled only in that their
-- holders do not overlap.
mod Prelude
pub mod Catalog
pub mod Inputs
pub mod Core
pub mod Providers
pub mod Runner
pub mod Schemas
pub mod Worker
mod Tests
