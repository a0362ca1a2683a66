-- ===== src/TestTool/Attributes/Form.antt =====
-- What `parseAttributesFromForm` makes of the form.
use concordium_web3id.Common.{
  ◌≡◌, ◌↔◌, All, String, Bool, true, false, Option, none, some, List, [], ◌∷◌, ok, Result-cases,
  Option-cases, is_ok, is_some, ◌||◌, >>=-eq-ok, str_eq, eq_iff, if◌then◌else◌, find, find-assign,
  refl, arith, inl, inr,
}
use mathlib.Core.Option
use concordium_web3id.TestTool.Attributes.{
  AttributeDetails, Value, Parsed, value_of, parse_step, parse_from, parse_attributes_from_form,
  handle_attribute_change,
}

-- The type and the text that one entry gives for a tag.
abbrev pub entry : String → AttributeDetails → Option (String × String)
entry tag d = elim d.value [
  | none ↦ none
  | some v ↦ if str_eq d.tag tag then some (d.type, v) else none
]

-- What the form gives for a tag: the type and the text of the last entry with the tag that has one.
abbrev pub entered : String → List AttributeDetails → Option (String × String)
entered tag [] = none
entered tag (d ∷ ds) = elim (entered tag ds) [ some v ↦ some v | none ↦ entry tag d ]

-- The type of the last entry with a tag.
abbrev pub last_type : String → List AttributeDetails → Option String
last_type tag [] = none
last_type tag (d ∷ ds) = elim (last_type tag ds) [
  | some t ↦ some t
  | none ↦ if str_eq d.tag tag then some d.type else none
]

-- A text that the user enters for a tag is what the form gives for it from then on, under the type
-- of its last entry and if it has one; every other tag keeps what it had.
pub entered-handle_attribute_change :
    (i v tag : String) (ds : List AttributeDetails)
    → entered tag (handle_attribute_change i v ds)
      ≡ (if str_eq tag i then Option.map (λ t. (t, v)) (last_type tag ds) else entered tag ds)
unfolding handle_attribute_change
entered-handle_attribute_change i v tag [] = ground arith
entered-handle_attribute_change i v tag (d ∷ ds) = grind (
  arith,
  eq_iff d.tag i,
  eq_iff d.tag tag,
  eq_iff tag i,
  entered-handle_attribute_change i v tag ds,
)

module _ {Big : Type 0} (big_int : String → Option Big) (is_date : String → Bool) where
  abbrev pub meant : Option (String × String) → Option (Value Big)
  meant none = none
  meant (some (type, v)) = value_of big_int is_date type v

  or_before : Option (Value Big) → Option (String × String) → Option (Value Big)
  or_before before none = before
  or_before before (some e) = meant (some e)

  parse_step-find :
      (d : AttributeDetails) (tag : String) (p : Parsed Big) {q : Parsed Big}
      → parse_step big_int is_date d p ≡ ok q
      → find tag q.attributes ≡ or_before (find tag p.attributes) (entry tag d)
  unfolding parse_step or_before
  parse_step-find d tag p e = elim (Option-cases d.value) [
    | inl nothing ↦ grind arith
    | inr (v, given) ↦ elim (Option-cases (value_of big_int is_date d.type v)) [
      | inl throws ↦ ground arith
      | inr (a, read) ↦ grind (arith, find-assign d.tag tag a p.attributes)
    ]
  ]

  parse_from-find :
      (ds : List AttributeDetails) (tag : String) (p : Parsed Big) {q : Parsed Big}
      → parse_from big_int is_date ds p ≡ ok q
      → find tag q.attributes ≡ or_before (find tag p.attributes) (entered tag ds)
  unfolding parse_from or_before
  parse_from-find [] tag p e = ground arith
  parse_from-find (d ∷ ds) tag p e =
      let (r, first, rest) =
        >>=-eq-ok (parse_step big_int is_date d p) (λ r. parse_from big_int is_date ds r) e in
      grind (arith, parse_step-find d tag p first, parse_from-find ds tag r rest)

  -- If the form is read, each tag has in the credential the value that the form gives for it, read
  -- by its type, and no tag has one that the form does not give.
  pub parse_attributes_from_form-find :
      (ds : List AttributeDetails) (tag : String) {q : Parsed Big}
      → parse_attributes_from_form big_int is_date ds ≡ ok q
      → find tag q.attributes ≡ meant (entered tag ds)
  unfolding parse_attributes_from_form or_before
  parse_attributes_from_form-find ds tag e =
      grind
        (arith, parse_from-find ds tag (record { attributes = []; messages = []; warnings = [] }) e)

  -- Whether an entry can be read: unless its type is numeric and it has a text that is no number.
  abbrev pub is_readable : AttributeDetails → Bool
  is_readable d = elim d.value [
    | none ↦ true
    | some v ↦
        if str_eq d.type "number" || str_eq d.type "integer" then is_some (big_int v) else true
  ]

  text_not_number : (t : String) → t ≡ "string" → (str_eq t "number" || str_eq t "integer") ≡ false
  text_not_number t e = rw e refl

  parse_step-is_ok :
      (d : AttributeDetails) (p : Parsed Big)
      → is_ok (parse_step big_int is_date d p) ≡ is_readable d
  unfolding parse_step value_of
  parse_step-is_ok d p = grind (arith, eq_iff d.type "string", text_not_number d.type)

  parse_from-is_ok :
      (ds : List AttributeDetails) (p : Parsed Big)
      → (is_ok (parse_from big_int is_date ds p) ≡ true) ↔ All (λ d. is_readable d ≡ true) ds
  unfolding parse_from
  parse_from-is_ok [] p = ground arith
  parse_from-is_ok (d ∷ ds) p =
      let step = parse_step-is_ok d p in
      elim (Result-cases (parse_step big_int is_date d p)) [
        | inl (q, returned) ↦ grind (arith, parse_from-is_ok ds q)
        | inr (q, threw) ↦ grind arith
      ]

  -- The form is read unless an entry of a numeric type has a text that is no number, which throws.
  pub parse_attributes_from_form_iff :
      (ds : List AttributeDetails)
      → (is_ok (parse_attributes_from_form big_int is_date ds) ≡ true)
        ↔ All (λ d. is_readable d ≡ true) ds
  unfolding parse_attributes_from_form
  parse_attributes_from_form_iff ds =
      parse_from-is_ok ds (record { attributes = []; messages = []; warnings = [] })
