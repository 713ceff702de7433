-- ===== src/Core/RequestManager/Calls.antt =====
-- core/request_manager.py: the public calls, on what `_make_request` returned.
use nordicintel_harvest.Prelude.{
  ℕ, Bool, ◌&&◌, String, Option, none, some, List, if◌then◌else◌, ltb, leb,
}
use nordicintel_harvest.Prelude.Dict.{Dict}
use nordicintel_harvest.Core.Errors.{Result, ok, err, type_error}
use nordicintel_harvest.Core.Json.{Value, arr, obj}
use nordicintel_harvest.Core.RequestManager.Attempts.{Response}

-- `RequestResult`
pub record RequestResult : Type 0 where
  pub status : ℕ
  pub url : String
  pub headers : Dict String String
  pub body : List ℕ
  pub encoding : Option String

-- `RequestResult.ok`
unfoldable pub is_ok : RequestResult → Bool
is_ok r = leb 200 r.status && ltb r.status 300

abbrev buffer : Response → Option RequestResult
buffer r = elim r.body [
  | err e ↦ none
  | ok body ↦ some (record {
    status = r.status;
    url = r.url;
    headers = r.headers;
    body = body;
    encoding = r.charset;
  })
]

-- `response is None` ends each call with `None`; an exception passes through
abbrev then_read {ℓ} :
    {A : Type ℓ} → Result (Option Response) → (Response → Result (Option A)) → Result (Option A)
then_read (err e) f = err e
then_read (ok none) f = ok none
then_read (ok (some r)) f = f r

-- `request`
unfoldable pub request : Result (Option Response) → Result (Option RequestResult)
request response = then_read response (λ r. ok (buffer r))

-- `make_request`: an error status is `None`
unfoldable pub make_request : Result (Option Response) → Result (Option Response)
make_request response = then_read response (λ r. ok (if leb 400 r.status then none else some r))

-- `isinstance(payload, (dict, list))`
abbrev structured : Value → Option Value
structured (obj o) = some (obj o)
structured (arr l) = some (arr l)
structured _ = none

abbrev reread : Response → Result (Option Value)
reread r = elim r.text [
  | err e ↦ ok none
  | ok text ↦ elim r.text_json [ err e ↦ ok none | ok v ↦ ok (structured v) ]
]

-- a `TypeError` of the first reading leads to the strict one, whose own exception is not caught
abbrev decode : Response → Result Value → Result (Option Value)
decode r (ok v) = ok (structured v)
decode r (err type_error) = elim r.json_strict [ err e ↦ err e | ok v ↦ ok (structured v) ]
decode r (err e) = reread r

-- `get_json`
unfoldable pub get_json : Result (Option Response) → Result (Option Value)
unfolding make_request
get_json response = then_read (make_request response) (λ r. decode r r.json)

abbrev caught {ℓ} : {A : Type ℓ} → Result A → Result (Option A)
caught (ok a) = ok (some a)
caught (err e) = ok none

-- `get_text`
unfoldable pub get_text : Result (Option Response) → Result (Option String)
unfolding make_request
get_text response = then_read (make_request response) (λ r. caught r.text)

-- `get_bytes`
unfoldable pub get_bytes : Result (Option Response) → Result (Option (List ℕ))
unfolding make_request
get_bytes response = then_read (make_request response) (λ r. caught r.body)
