-- ===== src/Providers/Kolada/Presence.antt =====
-- providers/adapters/kolada/parsing.py: the years and the areas or units that carry a value.
use nordicintel_harvest.Prelude.{
  Bool, false, not, ◌&&◌, String, Option, none, some, List, [], ◌∷◌, string_eq, add, any,
  if◌then◌else◌, is_some,
}
use nordicintel_harvest.Prelude.Int.{ℤ, int_eq}
use nordicintel_harvest.Core.Errors.{Result, ok, ◌>>=◌}
use nordicintel_harvest.Core.Json.{Value, bool, arr, obj, Fields, get, items}
use nordicintel_harvest.Core.Values.{Builtins, text_of, int_of, get_present}

abbrev is_true : Option Value → Bool
is_true (some (bool b)) = b
is_true _ = false

-- a value that is there and not deleted
unfoldable pub carries_value : Value → Bool
unfolding get_present get
carries_value (obj o) = is_some (get_present "value" o) && not (is_true (get "isdeleted" o))
carries_value _ = false

-- the period and the id of an entry that has a value
unfoldable pub observation : String → Fields → Option (Value × Value)
unfolding get_present get items carries_value
observation id_key entry = elim (get_present "period" entry) [
  | none ↦ none
  | some period ↦ elim (get_present id_key entry) [
    | none ↦ none
    | some entity_id ↦ elim (get "values" entry) [
      | some (arr l) ↦ if any carries_value (items l) then some (period, entity_id) else none
      | _ ↦ none
    ]
  ]
]

-- one turn of the loop over the entries
unfoldable pub observe :
    Builtins → Option (Value × Value) → List ℤ × List String → Result (List ℤ × List String)
unfolding int_of text_of add
observe py none found = ok found
observe py (some (period, entity_id)) (years, ids) =
    int_of py period >>= λ year. ok (add years year, add ids (text_of py entity_id))

unfoldable pub extract_from :
    Builtins → String → List Fields → List ℤ × List String → Result (List ℤ × List String)
unfolding observation observe
extract_from py id_key [] found = ok found
extract_from py id_key (entry ∷ entries) found =
    observe py (observation id_key entry) found >>= extract_from py id_key entries

unfoldable pub extract_presence : Builtins → String → List Fields → Result (List ℤ × List String)
unfolding extract_from
extract_presence py id_key entries = extract_from py id_key entries ([], [])
