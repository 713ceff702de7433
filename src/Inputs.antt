-- ===== src/Inputs.antt =====
-- inputs.py: the configuration of a job. The JSON schema check is a parameter, given by its outcome.
use nordicintel_harvest.Prelude.{
  ℕ, zero, suc, Bool, true, false, ◌≡◌, refl, String, Option, none, some, List, [], ◌∷◌, arith,
  get_or, sym,
}
use nordicintel_harvest.Prelude.Int.{pos, negsuc, ltb_ℤ}
use nordicintel_harvest.Core.Errors.{
  Result, ok, err, ◌>>=◌, ◌>>◌, raise_if, for_each, value_error, attribute_error, raise_if-clear,
  for_each-ok, checked-ok, ok-injective,
}
use nordicintel_harvest.Core.Json.{Value, null, bool, num, float, str, arr, obj, Fields, end, get}

pub data Adapter : Type 0 where
  pxweb_v1 pxweb_v2 kolada : Adapter

-- `config` is an object; `rate_limit` is counted in milliseconds
pub record HarvestInput : Type 0 where
  pub adapter : Adapter
  pub provider_code : String
  pub language : String
  pub rate_limit : ℕ
  pub config : Fields

-- `self.config.get("extension", {})`, on which `get` is then called
unfoldable pub extension_of : HarvestInput → Result Fields
unfolding get
extension_of i = elim (get "extension" i.config) [
  | none ↦ ok end
  | some (obj o) ↦ ok o
  | some v ↦ err attribute_error
]

unfoldable pub extension_value : HarvestInput → String → Value → Result Value
unfolding extension_of get
extension_value i key default =
    extension_of i >>= λ extension. ok (get_or (get key extension) default)

-- `value is not None and (type(value) is not int or value < 1)`
unfoldable pub is_refused : Value → Bool
is_refused null = false
is_refused (num n) = ltb_ℤ n (pos 1)
is_refused _ = true

unfoldable pub check_key : HarvestInput → String → Result (Unit {0})
unfolding extension_value is_refused
check_key i key = extension_value i key null >>= λ value. raise_if (is_refused value) value_error

unfoldable pub validate_input :
    (HarvestInput → Result (Unit {0})) → HarvestInput → Result HarvestInput
unfolding check_key
validate_input contract i =
    contract i >> for_each (check_key i) ("cell_limit" ∷ "max_concurrency" ∷ []) >> ok i

-- `self.config["base_api_url"]` is there by the schema of the adapter
unfoldable pub base_api_url : HarvestInput → Option Value
unfolding get
base_api_url i = elim i.adapter [
  | kolada ↦ some (str "https://api.kolada.se/v3")
  | pxweb_v1 ↦ get "base_api_url" i.config
  | pxweb_v2 ↦ get "base_api_url" i.config
]

unfoldable pub base_web_url : HarvestInput → Result Value
unfolding extension_value
base_web_url i = extension_value i "base_web_url" null

unfoldable pub cell_limit : HarvestInput → Result Value
unfolding extension_value
cell_limit i = extension_value i "cell_limit" (num (pos 5000))

unfoldable pub max_concurrency : HarvestInput → Result Value
unfolding extension_value
max_concurrency i = extension_value i "max_concurrency" null

-- no limit, or one of at least 1
pub data IsLimit : Value → Type 0 where
  unlimited : IsLimit null
  at_least_one : (n : ℕ) → IsLimit (num (pos (suc n)))

not-refused-IsLimit : (v : Value) → is_refused v ≡ false → IsLimit v
unfolding is_refused
not-refused-IsLimit null h = unlimited
not-refused-IsLimit (num (pos zero)) h = absurd (ground arith)
not-refused-IsLimit (num (pos (suc n))) h = at_least_one n
not-refused-IsLimit (num (negsuc n)) h = absurd (ground arith)
not-refused-IsLimit (bool b) h = cc
not-refused-IsLimit (float n b s) h = cc
not-refused-IsLimit (str s) h = cc
not-refused-IsLimit (arr l) h = cc
not-refused-IsLimit (obj o) h = cc

get_or-IsLimit :
    (found : Option Value) (default : Value)
    → is_refused (get_or found null) ≡ false
    → IsLimit default
    → IsLimit (get_or found default)
get_or-IsLimit none default h d = d
get_or-IsLimit (some v) default h d = not-refused-IsLimit v h

-- whatever the default, a value that the check lets through is a limit, as is the default
readable :
    (extension : Result Fields) (key : String) (default : Value)
    → (extension >>= (λ e. ok (get_or (get key e) null)) >>= λ value.
        raise_if (is_refused value) value_error)
      ≡ ok tt
    → IsLimit default
    → (v : Value) × ((extension >>= λ e. ok (get_or (get key e) default)) ≡ ok v) × IsLimit v
readable (err e) key default h d = cc
readable (ok e) key default h d = (
  get_or (get key e) default,
  refl,
  get_or-IsLimit (get key e) default
      (raise_if-clear (is_refused (get_or (get key e) null)) value_error h) d,
)

-- The cell limit and the concurrency of an input that the validator accepts can be read: each is a
-- whole number of at least 1, or null.
pub validate_input_lem :
    (contract : HarvestInput → Result (Unit {0})) (i j : HarvestInput)
    → validate_input contract i ≡ ok j
    → (j ≡ i)
      × ((v : Value) × (cell_limit i ≡ ok v) × IsLimit v)
      × ((v : Value) × (max_concurrency i ≡ ok v) × IsLimit v)
unfolding validate_input cell_limit max_concurrency check_key extension_value
validate_input_lem contract i j h =
    let keys : List String = "cell_limit" ∷ "max_concurrency" ∷ [] in
    let (checked, returned) = checked-ok (contract i >> for_each (check_key i) keys) (ok i) h in
    let (_, loop) = checked-ok (contract i) (for_each (check_key i) keys) checked in
    let (limit, (concurrency, _)) = for_each-ok (check_key i) keys loop in
    (
      sym (ok-injective returned),
      readable (extension_of i) "cell_limit" (num (pos 5000)) limit (at_least_one 4999),
      readable (extension_of i) "max_concurrency" null concurrency unlimited,
    )
