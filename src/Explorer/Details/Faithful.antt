-- ===== src/Explorer/Details/Faithful.antt =====
-- What the dialog of ProofDetails.tsx shows of the atomic statements that the proof explorer makes.
use concordium_web3id.Common.{
  All, not-is_blank, ◌≡◌, ◌≢◌, String, true, false, Option, some, List, [], ◌∷◌, refl, map, arith,
  str_eq, eq_iff,
}
use concordium_web3id.Common.Json.{
  Json, string, number, array, object, Items, nil, cons, Fields, end, field,
}
use concordium_web3id.Explorer.Builders.{
  Value, text, timestamp, AtomicStatement, reveal_attribute, attribute_in_range, attribute_in_set,
  attribute_not_in_set,
}
use concordium_web3id.Explorer.Details.Rows.{
  when, Row, row, badges, StatementTypes, join, format_value, format_values, format_set,
  reveal_rows, range_rows, set_rows, render_statement, member, draw, child,
}

module _ {N : Type 0} (show_number : N → String) where
  -- A value and a statement as the presentation has them.
  abbrev pub value_json : Value N → Json
  value_json (text s) = string s
  value_json (Value.number n) = number false (show_number n)
  value_json (timestamp t) =
      object (field "type" (string "date-time") (field "timestamp" (string t) end))

  abbrev pub items_json : List (Value N) → Items
  items_json [] = nil
  items_json (v ∷ vs) = cons (value_json v) (items_json vs)

  abbrev typed : String → String → Fields → Json
  typed type tag rest = object (field "type" (string type) (field "attributeTag" (string tag) rest))

  abbrev pub statement_json : StatementTypes → AtomicStatement N → Json
  statement_json types (reveal_attribute tag) = typed types.reveal_attribute tag end
  statement_json types (attribute_in_range tag lower upper) =
      typed types.attribute_in_range tag
        (field "lower" (value_json lower) (field "upper" (value_json upper) end))
  statement_json types (attribute_in_set tag set) =
      typed types.attribute_in_set tag (field "set" (array (items_json set)) end)
  statement_json types (attribute_not_in_set tag set) =
      typed types.attribute_not_in_set tag (field "set" (array (items_json set)) end)

  module _ (date : Json → String) where
    -- The text of a value: that of its date for a timestamp.
    abbrev pub value_text : Value N → String
    value_text (text s) = s
    value_text (Value.number n) = show_number n
    value_text (timestamp t) = date (string t)

    abbrev IsDated : Value N → Type 0
    IsDated (timestamp t) = t ≢ ""
    IsDated v = Unit

    -- The rows of a statement: its kind, its attribute and its values.
    abbrev pub rows_of : AtomicStatement N → List Row
    rows_of (reveal_attribute tag) =
        badges "Type:" (("bg-info", "Reveal Attribute") ∷ []) ∷ row "Attribute:" tag ∷ []
    rows_of (attribute_in_range tag lower upper) =
        badges "Type:" (("bg-warning text-dark", "Attribute In Range") ∷ [])
        ∷ row "Attribute:" tag
        ∷ row "Lower Bound:" (value_text lower)
        ∷ row "Upper Bound:" (value_text upper)
        ∷ []
    rows_of (attribute_in_set tag set) =
        badges "Type:" (("bg-success", "Attribute In Set") ∷ [])
        ∷ row "Attribute:" tag
        ∷ row "Set:" (join (map value_text set))
        ∷ []
    rows_of (attribute_not_in_set tag set) =
        badges "Type:" (("bg-danger", "Attribute Not In Set") ∷ [])
        ∷ row "Attribute:" tag
        ∷ row "Set:" (join (map value_text set))
        ∷ []

    -- Every timestamp of a statement has a text.
    abbrev pub AreDated : AtomicStatement N → Type 0
    AreDated (reveal_attribute tag) = Unit
    AreDated (attribute_in_range tag lower upper) = IsDated lower × IsDated upper
    AreDated (attribute_in_set tag set) = All IsDated set
    AreDated (attribute_not_in_set tag set) = All IsDated set

    module _ (stringify : Json → Option String) where
      format_value-value_json :
          (v : Value N)
          → IsDated v
          → format_value date stringify (some (value_json v)) ≡ some (value_text v)
      unfolding format_value
      format_value-value_json (text s) h = refl
      format_value-value_json (Value.number n) h = refl
      format_value-value_json (timestamp t) h = ground (arith, not-is_blank t h)

      format_values-items_json :
          (vs : List (Value N))
          → All IsDated vs
          → format_values date stringify (items_json vs) ≡ some (map value_text vs)
      unfolding format_values
      format_values-items_json [] h = refl
      format_values-items_json (v ∷ vs) h =
          rw (format_value-value_json v h.0, format_values-items_json vs h.1) refl

-- The four names differ.
pub record AreDistinct (types : StatementTypes) : Type 0 where
  pub reveal_range : types.attribute_in_range ≢ types.reveal_attribute
  pub reveal_in : types.attribute_in_set ≢ types.reveal_attribute
  pub range_in : types.attribute_in_set ≢ types.attribute_in_range
  pub reveal_not_in : types.attribute_not_in_set ≢ types.reveal_attribute
  pub range_not_in : types.attribute_not_in_set ≢ types.attribute_in_range
  pub in_not_in : types.attribute_not_in_set ≢ types.attribute_in_set

str_eq_self : (s : String) → str_eq s s ≡ true
str_eq_self s = (eq_iff s s).1 refl

str_eq-ne : (s t : String) → s ≢ t → str_eq s t ≡ false
str_eq-ne s t h = ground (arith, eq_iff s t, h)

-- If the names of the four types differ, a statement that the proof explorer builds, none of whose
-- timestamps is empty, is drawn without an error, as its kind, its attribute and all its values, a
-- timestamp as its date.
pub render_statement-built :
    {N : Type 0} (show_number : N → String) (date : Json → String)
    (stringify : Json → Option String) (types : StatementTypes) (s : AtomicStatement N)
    → AreDistinct types
    → AreDated show_number date s
    → render_statement date stringify types (some (statement_json show_number types s))
      ≡ some (rows_of show_number date s)
unfolding render_statement reveal_rows range_rows set_rows draw child member format_set when
render_statement-built show_number date stringify types (reveal_attribute tag) d h =
    rw (str_eq_self types.reveal_attribute) refl
render_statement-built show_number date stringify types (attribute_in_range tag lower upper) d h =
    rw
      (
        str_eq-ne _ _ d.reveal_range,
        str_eq_self types.attribute_in_range,
        format_value-value_json show_number date stringify lower h.0,
        format_value-value_json show_number date stringify upper h.1,
      )
      refl
render_statement-built show_number date stringify types (attribute_in_set tag set) d h =
    rw
      (
        str_eq-ne _ _ d.reveal_in,
        str_eq-ne _ _ d.range_in,
        str_eq_self types.attribute_in_set,
        format_values-items_json show_number date stringify set h,
      )
      refl
render_statement-built show_number date stringify types (attribute_not_in_set tag set) d h =
    rw
      (
        str_eq-ne _ _ d.reveal_not_in,
        str_eq-ne _ _ d.range_not_in,
        str_eq-ne _ _ d.in_not_in,
        str_eq_self types.attribute_not_in_set,
        format_values-items_json show_number date stringify set h,
      )
      refl
