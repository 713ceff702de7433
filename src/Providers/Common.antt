-- ===== src/Providers/Common.antt =====
-- providers/adapters/common.py: the readings of provider values that the adapters share.
pub mod Extras
pub mod Loop
pub mod Kept
use Prim.Native.Char.{code}
use nordicintel_harvest.Prelude.{
  ℕ, zero, suc, ◌+◌, ◌*◌, ◌-◌, Bool, true, false, not, ◌&&◌, ◌||◌, String, Option, none, some, List,
  [], ◌∷◌, map, string_eq, nat_eq, ◌==◌, contains, all, keep, length, leb, nat_beq, if◌then◌else◌,
}
use nordicintel_harvest.Prelude.Int.{ℤ, pos}
use nordicintel_harvest.Prelude.Text.{concat, strip, is_empty}
use nordicintel_harvest.Core.Errors.{Result, ok, err, ◌>>=◌, ◌>>◌, raise_if, value_error}
use nordicintel_harvest.Core.Json.{
  Value, null, bool, num, float, str, arr, obj, Items, Fields, end, field, get, items, truthy,
}
use nordicintel_harvest.Core.Values.{Builtins, text_of, get_present, non_empty}
use nordicintel_harvest.Providers.Interface.{DateTime, utc}

-- What the program uses of Python's library beyond the built-in functions: `str.lower`,
-- `datetime.fromisoformat`, `==` on JSON values, and `dict(v)` for a value that is no object.
pub record Texts : Type 0 where
  pub py : Builtins
  pub lower : String → String
  pub fromisoformat : String → Option DateTime
  pub eq : Value → Value → Bool
  pub dict_of : Value → Result Fields

-- the code points of a text
unfoldable pub codes : String → List ℕ
codes String.[] = []
codes (String.◌∷◌ c s) = code c ∷ codes s

abbrev pub is_digit : ℕ → Bool
is_digit c = leb 48 c && leb c 57

-- one of `1[5-9][0-9]{2}`, `2[0-9]{3}` and `3000`: four digits of a number from 1500 to 3000
unfoldable pub is_year : ℕ → ℕ → ℕ → ℕ → Bool
is_year a b c d =
    let n = (a - 48) * 1000 + (b - 48) * 100 + (c - 48) * 10 + (d - 48) in
    is_digit a && is_digit b && is_digit c && is_digit d && leb 1500 n && leb n 3000

-- `$` matches at the end
abbrev pub is_end : List ℕ → Bool
is_end [] = true
is_end (c ∷ cs) = false

abbrev pub without_newline : List ℕ → List ℕ
without_newline [] = []
without_newline (c ∷ []) = if nat_beq c 10 then [] else c ∷ []
without_newline (c ∷ d ∷ cs) = c ∷ without_newline (d ∷ cs)

-- what follows the year; `$` matches before a last newline too
unfoldable pub after_year : List ℕ → Option (List ℕ)
unfolding is_year
after_year (a ∷ b ∷ c ∷ d ∷ rest) = if is_year a b c d then some (without_newline rest) else none
after_year _ = none

-- `[QK][1-4]`
unfoldable pub is_quarter : List ℕ → Bool
is_quarter (l ∷ d ∷ []) = (nat_beq l 81 || nat_beq l 75) && leb 49 d && leb d 52
is_quarter _ = false

-- `0?[1-9]|1[0-2]`
unfoldable pub is_month_number : List ℕ → Bool
is_month_number (d ∷ []) = leb 49 d && leb d 57
is_month_number (d ∷ e ∷ []) =
    nat_beq d 48 && leb 49 e && leb e 57 || nat_beq d 49 && leb 48 e && leb e 50
is_month_number _ = false

-- the same, after an `M` that may be left out
unfoldable pub is_month : List ℕ → Bool
unfolding is_month_number
is_month (l ∷ rest) = if nat_beq l 77 then is_month_number rest else is_month_number (l ∷ rest)
is_month [] = false

-- `W0?[1-9]|W[1-4][0-9]|W5[0-3]`
unfoldable pub is_week : List ℕ → Bool
is_week (l ∷ d ∷ []) = nat_beq l 87 && leb 49 d && leb d 57
is_week (l ∷ d ∷ e ∷ []) =
    nat_beq l 87
    && (nat_beq d 48 && leb 49 e && leb e 57
        || leb 49 d && leb d 52 && is_digit e
        || nat_beq d 53 && leb 48 e && leb e 51)
is_week _ = false

pub data TimeUnit : Type 0 where
  annual quarterly monthly weekly other : TimeUnit

-- whether a period has the format of a unit; the last pattern leads to "Other" like no pattern
unfoldable pub has_format : TimeUnit → String → Bool
unfolding codes after_year is_quarter is_month is_week
has_format unit period = elim (after_year (codes period)) [
  | none ↦ false
  | some rest ↦ elim unit [
    | annual ↦ is_end rest
    | quarterly ↦ is_quarter rest
    | monthly ↦ is_month rest
    | weekly ↦ is_week rest
    | other ↦ true
  ]
]

-- the first format that both periods have
unfoldable pub first_format : List TimeUnit → String → String → TimeUnit
unfolding has_format
first_format [] first last = other
first_format (unit ∷ units) first last =
    if has_format unit first && has_format unit last then unit else first_format units first last

unfoldable pub determine_time_unit : String → String → TimeUnit
unfolding first_format
determine_time_unit first_period last_period =
    if is_empty first_period || is_empty last_period
    then other
    else first_format (annual ∷ quarterly ∷ monthly ∷ weekly ∷ []) first_period last_period

abbrev pub time_alternatives : List String
time_alternatives =
    "time" ∷ "tid" ∷ "år" ∷ "månad" ∷ "vecka" ∷ "kvartal" ∷ "period" ∷ "year" ∷ "quarter" ∷ "month"
    ∷ "vuosi" ∷ "time period" ∷ []

abbrev pub geo_alternatives : List String
geo_alternatives =
    "geo" ∷ "region" ∷ "land" ∷ "kommun" ∷ "county" ∷ "municipality" ∷ "country" ∷ "area"
    ∷ "location" ∷ []

abbrev pub metric_alternatives : List String
metric_alternatives =
    "unit" ∷ "innehåll" ∷ "tabellinnehåll" ∷ "mått" ∷ "contents" ∷ "measure" ∷ "metric" ∷ "value"
    ∷ "contentscode" ∷ "content" ∷ "enhet" ∷ []

pub data Role : Type 0 where
  time geo metric : Role

unfoldable pub detect_role : Texts → String → String → Bool → Option Role
unfolding strip
detect_role texts code label is_time =
    let norm_code = texts.lower (strip code) in
    let norm_label = texts.lower (strip label) in
    if is_time
    then some time
    else if norm_code == "contentscode"
        || contains metric_alternatives norm_code
        || contains metric_alternatives norm_label
    then some metric
    else if contains geo_alternatives norm_code || contains geo_alternatives norm_label
    then some geo
    else if contains time_alternatives norm_code || contains time_alternatives norm_label
    then some time
    else none

-- `d.astimezone(UTC)`, or `d.replace(tzinfo=UTC)` for a naive one
abbrev pub in_utc : DateTime → DateTime
in_utc d = record { wall = utc d; offset = some (pos 0) }

-- `raw.replace("Z", "+00:00")`
unfoldable pub replace_z : String → String
unfolding concat
replace_z String.[] = String.[]
replace_z (String.◌∷◌ c s) =
    let rest = replace_z s in
    if nat_beq (code c) 90 then concat "+00:00" rest else String.◌∷◌ c rest

-- the character at an index is this one
abbrev pub has_at : ℕ → ℕ → List ℕ → Bool
has_at c i [] = false
has_at c zero (x ∷ xs) = nat_beq x c
has_at c (suc i) (x ∷ xs) = has_at c i xs

-- 19 characters with `-`, `-` and `T` in their places
abbrev pub looks_like_stamp : List ℕ → Bool
looks_like_stamp cs = nat_beq (length cs) 19 && has_at 45 4 cs && has_at 45 7 cs && has_at 84 10 cs

-- the text of a date; the second reading may raise
unfoldable pub parse_stamp : Texts → String → Result (Option DateTime)
unfolding replace_z codes
parse_stamp texts raw = elim (texts.fromisoformat (replace_z raw)) [
  | some d ↦ ok (some (in_utc d))
  | none ↦
      if looks_like_stamp (codes raw)
      then elim (texts.fromisoformat raw) [
        | some d ↦ ok (some (record d { offset = some (pos 0) }))
        | none ↦ err value_error
      ]
      else ok none
]

-- `parse_dt` of a JSON value
unfoldable pub parse_dt : Texts → Option Value → Result (Option DateTime)
unfolding parse_stamp strip
parse_dt texts (some (str s)) = if is_empty (strip s) then ok none else parse_stamp texts (strip s)
parse_dt texts _ = ok none
