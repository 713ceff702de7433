-- ===== src/Core/Values.antt =====
-- The built-in functions of Python on the values of JSON. The text of a list or an object is a
-- parameter, `repr`, as is the reading of a number from a text.
use nordicintel_harvest.Prelude.{Bool, true, false, String, Option, none, some, if◌then◌else◌}
use nordicintel_harvest.Prelude.Int.{ℤ, pos}
use nordicintel_harvest.Prelude.Text.{strip, is_empty, decimal}
use nordicintel_harvest.Core.Errors.{Result, ok, err, type_error}
use nordicintel_harvest.Core.Json.{
  Value, null, bool, num, float, str, arr, obj, Fields, get, truthy,
}

pub record Builtins : Type 0 where
  pub repr : Value → String
  pub parse_int : String → Result ℤ

-- `str(v)`
unfoldable pub text_of : Builtins → Value → String
unfolding decimal
text_of py null = "None"
text_of py (bool true) = "True"
text_of py (bool false) = "False"
text_of py (num n) = decimal n
text_of py (float n b s) = s
text_of py (str s) = s
text_of py (arr l) = py.repr (arr l)
text_of py (obj o) = py.repr (obj o)

-- `int(v)`
unfoldable pub int_of : Builtins → Value → Result ℤ
int_of py (bool true) = ok (pos 1)
int_of py (bool false) = ok (pos 0)
int_of py (num n) = ok n
int_of py (float n b s) = ok n
int_of py (str s) = py.parse_int s
int_of py _ = err type_error

-- `o.get(k)` where a null is taken like a missing key
unfoldable pub get_present : String → Fields → Option Value
unfolding get
get_present k o = elim (get k o) [ none ↦ none | some null ↦ none | some v ↦ some v ]

-- `str(o.get(k) or default).strip()`
unfoldable pub stripped : Builtins → String → String → Fields → String
unfolding text_of get strip
stripped py k default o = elim (get k o) [
  | none ↦ strip default
  | some v ↦ strip (if truthy v then text_of py v else default)
]

-- `s or None`
abbrev pub non_empty : String → Option String
non_empty s = if is_empty s then none else some s

-- `isinstance(v, str)`, with the text, for what `get` returns
abbrev pub as_text : Option Value → Option String
as_text (some (str s)) = some s
as_text _ = none

-- `bool(o.get(k))`
unfoldable pub flag : String → Fields → Bool
unfolding get
flag k o = elim (get k o) [ none ↦ false | some v ↦ truthy v ]
