-- ===== src/Providers/PxWebV1/Read.antt =====
-- providers/adapters/pxweb_v1/adapter.py: what is read of one variable of a payload.
use nordicintel_harvest.Prelude.{
  map_snoc, true, false, ◌≡◌, refl, sym, ap, ◌∙◌, String, Option, none, some, List, [], ◌∷◌, ◌++◌,
  map, string_eq, contains, get_or, arith, if◌then◌else◌, Bool-cases, inl, inr,
}
use mathlib.Core.List.{append-nil, append_assoc}
use nordicintel_harvest.Prelude.Dict.{Dict, keys, insert}
use nordicintel_harvest.Prelude.Text.{is_empty, strip}
use nordicintel_harvest.Core.Errors.{ok, >>=-eq-ok, ok-injective, checked-ok}
use nordicintel_harvest.Core.Json.{Value, obj, Fields, end, get, truthy}
use nordicintel_harvest.Core.Values.{Builtins, text_of, stripped}
use nordicintel_harvest.Schemas.Dimensions.{
  DimensionCategory, DatasetDimension, validate_category, validate_dimension,
}
use nordicintel_harvest.Schemas.Datasets.{positions_from}
use nordicintel_harvest.Providers.PxWebV1.Variables.{
  listed_items, label_or, next_texts, read_categories, variable_dimension,
}

-- the code of a variable: the text of its "code"
unfoldable pub code_in : Builtins → Value → String
unfolding get
code_in py (obj var) = elim (get "code" var) [ none ↦ "" | some raw ↦ strip (text_of py raw) ]
code_in py v = ""

-- the codes of its values
unfoldable pub values_in : Builtins → Value → List String
unfolding get
values_in py (obj var) =
    map (λ v. strip (text_of py v)) (get_or (listed_items (get "values" var)) [])
values_in py v = []

pub new_entry :
    (k : String) (v : DatasetDimension) (d : Dict String DatasetDimension)
    → contains (keys d) k ≡ false
    → insert k v d ≡ d ++ (k, v) ∷ []
unfolding insert
new_entry k v [] h = refl
new_entry k v ((j, w) ∷ d) h = ground (arith, new_entry k v d)

truthy_code :
    (py : Builtins) (o : Option Value)
    → is_empty (elim o [ none ↦ strip "" | some v ↦ strip (if truthy v then text_of py v else "") ])
      ≡ false
    → (elim o [ none ↦ strip "" | some v ↦ strip (if truthy v then text_of py v else "") ])
      ≡ (elim o [ none ↦ "" | some raw ↦ strip (text_of py raw) ])
unfolding strip
truthy_code py none h = cc
truthy_code py (some v) h = elim (Bool-cases (truthy v)) [
  | inl e ↦ ap (λ b. strip (if b then text_of py v else "")) e
  | inr e ↦
      let empty : true ≡ false =
        ap (λ b. is_empty (strip (if b then text_of py v else ""))) (sym e) ∙ h in
      cc
]

pub stripped-code_in :
    (py : Builtins) (var : Fields)
    → is_empty (stripped py "code" "" var) ≡ false
    → stripped py "code" "" var ≡ code_in py (obj var)
unfolding stripped code_in
stripped-code_in py var h = truthy_code py (get "code" var) h

-- the categories are those of the values, in order
pub read_categories-values :
    (py : Builtins) (values value_texts : List Value) (before after : Dict String String)
    → read_categories py values value_texts before ≡ ok after
    → keys after ≡ keys before ++ map (λ v. strip (text_of py v)) values
unfolding read_categories
read_categories-values py [] value_texts before after h =
    ap keys (sym (ok-injective h)) ∙ sym (append-nil (keys before))
read_categories-values py (v ∷ values) value_texts before after h =
    let code = strip (text_of py v) in
    let entry : String × String = (code, label_or py code value_texts) in
    let (_, rest) =
      checked-ok _ (read_categories py values (next_texts value_texts) (before ++ entry ∷ [])) h in
    read_categories-values py values (next_texts value_texts) (before ++ entry ∷ []) after rest
    ∙ ap (λ l. l ++ map (λ u. strip (text_of py u)) values) (map_snoc (λ x. x.0) before entry)
    ∙ append_assoc (keys before) (code ∷ []) (map (λ u. strip (text_of py u)) values)

category_same : (c valid : DimensionCategory) → validate_category c ≡ ok valid → c ≡ valid
unfolding validate_category
category_same c valid h = ok-injective ((checked-ok _ (ok c) h).1)

dimension_same : (d valid : DatasetDimension) → validate_dimension d ≡ ok valid → d ≡ valid
unfolding validate_dimension
dimension_same d valid h = ok-injective ((checked-ok _ (ok d) h).1)

pub variable_dimension-labels :
    (label : String) (category_labels : Dict String String) (extension : Fields)
    (d : DatasetDimension)
    → variable_dimension label category_labels extension ≡ ok d
    → d.category.label ≡ category_labels
unfolding variable_dimension
variable_dimension-labels label category_labels extension d h =
    let given : DimensionCategory = record {
      index = positions_from 0 (keys category_labels) [];
      label = category_labels;
      child = none;
      coordinates = none;
      unit = none;
      note = none;
      extension = end;
    } in
    let dimension : DimensionCategory → DatasetDimension = λ c. record {
      label = label;
      category = c;
      note = none;
      extension = extension;
      link = none;
    } in
    let (category, valid, made) =
      >>=-eq-ok (validate_category given) (λ c. validate_dimension (dimension c)) h in
    ap (λ x. x.category.label) (sym (dimension_same (dimension category) d made))
    ∙ ap (λ c. c.label) (sym (category_same given category valid))
