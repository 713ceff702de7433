-- ===== src/Providers/Kolada/Client.antt =====
-- providers/adapters/kolada/client.py: the pages of the catalogue and of the observations. The
-- answer to a URL, `get_json`, and the joining of URLs are parameters; an answer does not change
-- while a client lives. The locks keep the calls of a cache apart, so that it is filled once.
use nordicintel_harvest.Prelude.{
  ℕ, zero, suc, String, Option, none, some, List, [], ◌∷◌, ◌++◌, string_eq, add, contains,
  if◌then◌else◌,
}
use nordicintel_harvest.Prelude.Int.{int_eq}
use nordicintel_harvest.Prelude.Text.{is_empty}
use nordicintel_harvest.Core.Errors.{
  Result, ok, err, ◌>>=◌, ◌>>◌, raise_if, value_error, other_error,
}
use nordicintel_harvest.Core.Json.{Value, str, arr, obj, Fields, get, items}
use nordicintel_harvest.Core.Values.{Builtins, get_present}
use nordicintel_harvest.Providers.Kolada.Parsing.{is_blank_text}

pub record Api : Type 0 where
  pub py : Builtins
  pub get_json : String → Result Value
  pub urljoin : String → String → String
  pub base_api_url : String

-- the fields of the items, all of which are objects
unfoldable pub objects : List Value → Result (List Fields)
objects [] = ok []
objects (v ∷ vs) =
    let rest = objects vs in elim v [ obj o ↦ rest >>= λ os. ok (o ∷ os) | _ ↦ err value_error ]

-- the values of one page and the link to the next
unfoldable pub read_page : Value → Result (List Fields × Option String)
unfolding objects get items get_present
read_page (obj payload) = elim (get "values" payload) [
  | some (arr l) ↦ objects (items l) >>= λ page_values. elim (get_present "next_url" payload) [
    | none ↦ ok (page_values, none)
    | some (str link) ↦ raise_if (is_blank_text link) value_error >> ok (page_values, some link)
    | some _ ↦ err value_error
  ]
  | _ ↦ err value_error
]
read_page _ = err value_error

-- the next URL; an empty one ends the loop
unfoldable pub next_url : Api → String → String → Option String
next_url api url link =
    if is_empty (api.urljoin url link) then none else some (api.urljoin url link)

-- the rest of the loop, after a page has been read
unfoldable pub follow :
    Api
    → String
    → List Fields
    → (Option String → List Fields → Option (Result (List Fields)))
    → Result (List Fields × Option String)
    → Option (Result (List Fields))
unfolding next_url
follow api url found more (err e) = some (err e)
follow api url found more (ok (page_values, none)) = some (ok (found ++ page_values))
follow api url found more (ok (page_values, some link)) =
    more (next_url api url link) (found ++ page_values)

-- The loop of `get_paginated_values` from a URL, in at most so many rounds; `none` if they do not
-- suffice.
unfoldable pub paginate :
    Api → ℕ → Option String → List String → List Fields → Option (Result (List Fields))
unfolding read_page follow add
paginate api rounds none seen found = some (ok found)
paginate api zero (some url) seen found = none
paginate api (suc rounds) (some url) seen found =
    if contains seen url
    then some (err value_error)
    else follow api url found (λ next. paginate api rounds next (add seen url))
        (api.get_json url >>= read_page)

-- `get_paginated_values`, for a job that reads so many pages of one list at most
unfoldable pub get_paginated : Api → ℕ → String → Result (List Fields)
unfolding paginate
get_paginated api rounds url =
    elim (paginate api rounds (if is_empty url then none else some url) [] []) [
      | none ↦ err other_error
      | some result ↦ result
    ]
