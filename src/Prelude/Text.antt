-- ===== src/Prelude/Text.antt =====
-- The text operations of Python that the program uses.
use Prim.Native.Nat.{ℕ, zero, suc, ◌/◌, ◌%◌}
use mathlib.Core.List.{List, [], ◌∷◌}
use nordicintel_harvest.Prelude.Int.{ℤ, pos, negsuc}
use Prim.Native.Char.{Char, code}
use Prim.Native.String.{String}
use text.Mathlib.Text.{◌==◌ as str_eq}
use mathlib.Core.Bool.{Bool, true, false, not, ◌&&◌, ◌||◌}
use nordicintel_harvest.Prelude.Tests.{ltb, leb, nat_beq, if◌then◌else◌}

-- the code points for which `str.isspace` holds
unfoldable pub is_space : ℕ → Bool
is_space c =
    leb 9 c && leb c 13
    || leb 28 c && leb c 32
    || nat_beq c 0x85
    || nat_beq c 0xa0
    || nat_beq c 0x1680
    || leb 0x2000 c && leb c 0x200a
    || nat_beq c 0x2028
    || nat_beq c 0x2029
    || nat_beq c 0x202f
    || nat_beq c 0x205f
    || nat_beq c 0x3000

unfoldable pub lstrip : String → String
lstrip String.[] = String.[]
lstrip (String.◌∷◌ c s) = if is_space (code c) then lstrip s else String.◌∷◌ c s

unfoldable pub rstrip : String → String
rstrip String.[] = String.[]
rstrip (String.◌∷◌ c s) =
    let rest = rstrip s in
    elim rest [
      | String.[] ↦ if is_space (code c) then String.[] else String.◌∷◌ c String.[]
      | String.◌∷◌ d t ↦ String.◌∷◌ c (String.◌∷◌ d t)
    ]

-- `s.strip()`
unfoldable pub strip : String → String
unfolding lstrip rstrip is_space
strip s = lstrip (rstrip s)

-- `not s`
abbrev pub is_empty : String → Bool
is_empty String.[] = true
is_empty (String.◌∷◌ c s) = false

unfoldable pub concat : String → String → String
concat String.[] t = t
concat (String.◌∷◌ c s) t = String.◌∷◌ c (concat s t)

-- `a <= b` on texts: by code points
unfoldable pub text_leb : String → String → Bool
text_leb String.[] t = true
text_leb (String.◌∷◌ c s) String.[] = false
text_leb (String.◌∷◌ c s) (String.◌∷◌ d t) =
    ltb (code c) (code d) || nat_beq (code c) (code d) && text_leb s t

-- the words of `s.split()`
unfoldable pub starts_word : String → Bool
starts_word String.[] = false
starts_word (String.◌∷◌ c s) = not (is_space (code c))

abbrev prefix_first : Char → List String → List String
prefix_first c [] = []
prefix_first c (w ∷ ws) = String.◌∷◌ c w ∷ ws

unfoldable pub words : String → List String
unfolding starts_word is_space
words String.[] = []
words (String.◌∷◌ c s) =
    let rest = words s in
    if is_space (code c)
    then rest
    else if starts_word s
    then prefix_first c rest
    else String.◌∷◌ c String.[] ∷ rest

-- `sep.join(words)`
unfoldable pub join : String → List String → String
unfolding concat
join sep [] = String.[]
join sep (w ∷ []) = w
join sep (w ∷ v ∷ ws) = concat w (concat sep (join sep (v ∷ ws)))

-- the digit n of those listed
abbrev pub digit_of : List String → ℕ → String
digit_of [] n = ""
digit_of (d ∷ ds) zero = d
digit_of (d ∷ ds) (suc n) = digit_of ds n

abbrev pub digit : ℕ → String
digit = digit_of ("0" ∷ "1" ∷ "2" ∷ "3" ∷ "4" ∷ "5" ∷ "6" ∷ "7" ∷ "8" ∷ "9" ∷ [])

-- the decimal digits of n, in as many rounds as n has at most
unfoldable pub decimal_in : ℕ → ℕ → String
unfolding concat
decimal_in zero n = digit n
decimal_in (suc rounds) n = elim (ltb n 10) [
  | true ↦ digit n
  | false ↦ concat (decimal_in rounds (n / 10)) (digit (n % 10))
]

-- `str(n)`
unfoldable pub decimal : ℤ → String
unfolding decimal_in concat
decimal (pos n) = decimal_in n n
decimal (negsuc n) = concat "-" (decimal_in (suc n) (suc n))

-- `s.endswith(suffix)`
unfoldable pub ends_with : String → String → Bool
ends_with suffix String.[] = is_empty suffix
ends_with suffix (String.◌∷◌ c s) = str_eq (String.◌∷◌ c s) suffix || ends_with suffix s

-- `s.rstrip("/")`
unfoldable pub rstrip_slash : String → String
rstrip_slash String.[] = String.[]
rstrip_slash (String.◌∷◌ c s) =
    let rest = rstrip_slash s in
    elim rest [
      | String.[] ↦ if nat_beq (code c) 47 then String.[] else String.◌∷◌ c String.[]
      | String.◌∷◌ d t ↦ String.◌∷◌ c (String.◌∷◌ d t)
    ]

-- `s[n:]` and `s[:n]`, for an n that is not negative
unfoldable pub drop_text : ℕ → String → String
drop_text zero s = s
drop_text (suc n) String.[] = String.[]
drop_text (suc n) (String.◌∷◌ c s) = drop_text n s

unfoldable pub take_text : ℕ → String → String
take_text zero s = String.[]
take_text (suc n) String.[] = String.[]
take_text (suc n) (String.◌∷◌ c s) = String.◌∷◌ c (take_text n s)

-- `s.rstrip(".")`
unfoldable pub rstrip_dot : String → String
rstrip_dot String.[] = String.[]
rstrip_dot (String.◌∷◌ c s) =
    let rest = rstrip_dot s in
    elim rest [
      | String.[] ↦ if nat_beq (code c) 46 then String.[] else String.◌∷◌ c String.[]
      | String.◌∷◌ d t ↦ String.◌∷◌ c (String.◌∷◌ d t)
    ]

-- `s.removesuffix(suffix)`, for a suffix that is not empty
unfoldable pub remove_suffix : String → String → String
remove_suffix suffix String.[] = String.[]
remove_suffix suffix (String.◌∷◌ c s) =
    if str_eq (String.◌∷◌ c s) suffix then String.[] else String.◌∷◌ c (remove_suffix suffix s)

-- `s.replace("\xa0", " ")`
unfoldable pub replace_nbsp : String → String
unfolding concat
replace_nbsp String.[] = String.[]
replace_nbsp (String.◌∷◌ c s) =
    let rest = replace_nbsp s in
    if nat_beq (code c) 0xa0 then concat " " rest else String.◌∷◌ c rest

-- `s.split("/")`
unfoldable pub split_slash : String → List String
split_slash String.[] = String.[] ∷ []
split_slash (String.◌∷◌ c s) =
    let rest = split_slash s in
    if nat_beq (code c) 47 then String.[] ∷ rest else prefix_first c rest

-- `s.split("__")`
unfoldable pub split_double : String → List String
split_double String.[] = String.[] ∷ []
split_double (String.◌∷◌ c String.[]) = String.◌∷◌ c String.[] ∷ []
split_double (String.◌∷◌ c (String.◌∷◌ d s)) =
    let after = split_double s in
    let within = split_double (String.◌∷◌ d s) in
    if nat_beq (code c) 95 && nat_beq (code d) 95 then String.[] ∷ after else prefix_first c within

-- `s.startswith(prefix)`
unfoldable pub starts_with : String → String → Bool
starts_with String.[] s = true
starts_with (String.◌∷◌ c prefix) String.[] = false
starts_with (String.◌∷◌ c prefix) (String.◌∷◌ d s) =
    nat_beq (code c) (code d) && starts_with prefix s
