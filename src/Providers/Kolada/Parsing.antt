-- ===== src/Providers/Kolada/Parsing.antt =====
-- providers/adapters/kolada/parsing.py: the records of the catalogue and of the observations.
use nordicintel_harvest.Core.Values.{as_text}
use Prim.Native.Char.{code}
use nordicintel_harvest.Prelude.{
  nat_beq, Bool, ◌&&◌, String, Option, none, some, List, [], ◌∷◌, string_eq, add, if◌then◌else◌,
}
use nordicintel_harvest.Prelude.Int.{int_eq}
use nordicintel_harvest.Prelude.Text.{concat, strip, is_empty, words, join, text_leb}
use nordicintel_harvest.Prelude.Sort.{sorted}
use nordicintel_harvest.Core.Errors.{Result, ok, err, ◌>>=◌, ◌>>◌, raise_if, value_error}
use nordicintel_harvest.Core.Json.{Value, arr, obj, Fields, get, items}

pub record KpiGroup : Type 0 where
  pub group_id : String
  pub title : String
  pub member_ids : List String

pub record KpiInfo : Type 0 where
  pub kpi_id : String
  pub title : String
  pub description : Option String
  pub is_divided_by_gender : Bool
  pub municipality_type : String
  pub publication_date : Option Value
  pub prel_publication_date : Option Value
  pub publ_period : Option Value
  pub has_ou_data : Bool
  pub operating_area : Option String
  pub perspective : Option String
  pub auspice : Option String
  pub raw_description : Option String
  pub groups : List KpiGroup

pub record MunicipalityInfo : Type 0 where
  pub municipality_id : String
  pub title : String
  pub kind : String

pub record OuInfo : Type 0 where
  pub ou_id : String
  pub title : String
  pub municipality_id : String

-- `value.replace(r"\n", " ")`: a backslash and an n become a space
unfoldable pub replace_newlines : String → String
replace_newlines String.[] = String.[]
replace_newlines (String.◌∷◌ c String.[]) = String.◌∷◌ c String.[]
replace_newlines (String.◌∷◌ c (String.◌∷◌ d s)) =
    let rest = replace_newlines s in
    let next = replace_newlines (String.◌∷◌ d s) in
    if nat_beq (code c) 92 && nat_beq (code d) 110 then concat " " rest else String.◌∷◌ c next

unfoldable pub normalize_text : String → String
unfolding replace_newlines words join
normalize_text value = join " " (words (replace_newlines value))

abbrev pub is_blank_text : String → Bool
is_blank_text s = is_empty (strip s)

-- the id of one member of a group
unfoldable pub member_id_of : Value → Option String
unfolding get
member_id_of (obj o) = as_text (get "member_id" o)
member_id_of _ = none

unfoldable pub collect_members : List Value → List String → Result (List String)
unfolding member_id_of add strip
collect_members [] ids = ok ids
collect_members (v ∷ vs) ids = elim (member_id_of v) [
  | none ↦ err value_error
  | some member_id ↦
      raise_if (is_blank_text member_id) value_error
      >> collect_members vs (add ids (strip member_id))
]

-- the members of a group, given as a list
unfoldable pub members_of : Option Value → Result (List Value)
unfolding items
members_of (some (arr l)) = ok (items l)
members_of _ = err value_error

-- a text that is not blank
unfoldable pub required_text : Option Value → Result String
required_text v = elim (as_text v) [
  | none ↦ err value_error
  | some s ↦ raise_if (is_blank_text s) value_error >> ok s
]

unfoldable pub parse_kpi_group : Fields → Result KpiGroup
unfolding required_text members_of collect_members sorted text_leb strip get
parse_kpi_group raw = required_text (get "id" raw) >>= λ group_id.
    required_text (get "title" raw) >>= λ title. members_of (get "members" raw) >>= λ members.
    collect_members members [] >>= λ ids.
    ok (record { group_id = strip group_id; title = strip title; member_ids = sorted text_leb ids })
