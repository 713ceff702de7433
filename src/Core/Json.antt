-- ===== src/Core/Json.antt =====
-- The values that `json.loads` returns. A float is given by the three things that the program reads
-- of it: `int(x)`, `bool(x)` and `str(x)`.
use nordicintel_harvest.Prelude.{
  Bool, true, false, String, Option, none, some, List, [], ◌∷◌, ◌==◌, string_eq, not, if◌then◌else◌,
}
use nordicintel_harvest.Prelude.Text.{is_empty}
use nordicintel_harvest.Prelude.Int.{ℤ, int_beq, pos}

mutual
  pub data Value : Type 0 where
    null : Value
    bool : Bool → Value
    num : ℤ → Value
    float : ℤ → Bool → String → Value
    str : String → Value
    obj : Fields → Value
    arr : Items → Value

  pub data Fields : Type 0 where
    end : Fields
    field : String → Value → Fields → Fields

  pub data Items : Type 0 where
    nil : Items
    cons : Value → Items → Items

-- `o.get(k)`; the parser leaves no key twice
unfoldable pub get : String → Fields → Option Value
get k end = none
get k (field j v o) = if j == k then some v else get k o

-- `isinstance(v, list)`, with its items
unfoldable pub items : Items → List Value
items nil = []
items (cons v l) = v ∷ items l

-- `bool(v)`
abbrev pub truthy : Value → Bool
truthy null = false
truthy (bool b) = b
truthy (num n) = not (int_beq n (pos 0))
truthy (float n b s) = b
truthy (str s) = not (is_empty s)
truthy (arr nil) = false
truthy (arr (cons v l)) = true
truthy (obj end) = false
truthy (obj (field k v o)) = true

-- `isinstance(v, dict)`
abbrev pub is_obj : Value → Bool
is_obj (obj o) = true
is_obj _ = false
