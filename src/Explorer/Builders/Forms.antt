-- ===== src/Explorer/Builders/Forms.antt =====
-- What the forms of Web3IdStatementBuilders.tsx send, over sequences of inputs.
use concordium_web3id.Common.{
  ◌≡◌, ◌↔◌, ◌⊎◌, inl, inr, refl, ap, sym, ◌∙◌, String, Bool-cases, true, false, Option,
  Option-cases, none, some, List, [], ◌∷◌, map, arith,
}
use concordium_web3id.Explorer.Builders.{
  ◌>>=◌, AttributeOption, text, attribute_in_range, is_numeric, is_date_time, typed_value, InRange,
  initial_range, select_range, type_lower, type_upper, add_range, InSet, draw_set, set_value,
  typed_values, split_comma, trim,
}

-- A keystroke in one of the two inputs of `AttributeInRange`, with the whole new text.
pub data Edit : Type 0 where
  lower upper : String → Edit

unfoldable pub edit : Edit → InRange → InRange
unfolding type_lower type_upper
edit (lower s) d = type_lower s d
edit (upper s) d = type_upper s d

abbrev pub edit_all : List Edit → InRange → InRange
edit_all [] d = d
edit_all (e ∷ es) d = edit_all es (edit e d)

-- What is typed last into an input, if anything; `t` is what is typed before.
abbrev pub later : Option String → String → String
later none t = t
later (some s) t = s

abbrev pub last_lower : List Edit → Option String
last_lower [] = none
last_lower (lower t ∷ es) = some (later (last_lower es) t)
last_lower (upper t ∷ es) = last_lower es

abbrev pub last_upper : List Edit → Option String
last_upper [] = none
last_upper (lower t ∷ es) = last_upper es
last_upper (upper t ∷ es) = some (later (last_upper es) t)

-- A bound after the inputs, under the type of the selected attribute if something was typed.
abbrev bound : Option String → String × Option String → Option String → String × Option String
bound none b type = b
bound (some s) b type = (s, type)

bound-later :
    (m : Option String) (t : String) (b : String × Option String) (type : Option String)
    → bound m (t, type) type ≡ bound (some (later m t)) b type
bound-later none t b type = refl
bound-later (some s) t b type = refl

edit_all-form :
    (es : List Edit) (d : InRange)
    → edit_all es d ≡ record {
      lower = bound (last_lower es) d.lower d.selected.1;
      upper = bound (last_upper es) d.upper d.selected.1;
      selected = d.selected;
    }
unfolding edit
edit_all-form [] d = refl
edit_all-form (lower s ∷ es) d =
    rw (sym (bound-later (last_lower es) s d.lower d.selected.1))
      (edit_all-form es (edit (lower s) d))
edit_all-form (upper s ∷ es) d =
    rw (sym (bound-later (last_upper es) s d.upper d.selected.1))
      (edit_all-form es (edit (upper s) d))

-- The form once something was typed into both inputs.
edit_all-typed :
    (es : List Edit) (d : InRange) {l u : String}
    → last_lower es ≡ some l
    → last_upper es ≡ some u
    → edit_all es d
      ≡ record { lower = (l, d.selected.1); upper = (u, d.selected.1); selected = d.selected }
edit_all-typed es d el eu = edit_all-form es d ∙ rw (el, eu) refl

module _ {N : Type 0} (big_int : String → Option N) where
  -- After an attribute is selected and both bounds are then typed, in whatever order and however
  -- often corrected, the form sends a range statement for the attribute's label whose bounds are the
  -- texts typed last, read under the attribute's type.
  pub range_of_selection :
      (o : AttributeOption) (d : InRange) (es : List Edit) {l u : String}
      → last_lower es ≡ some l
      → last_upper es ≡ some u
      → add_range big_int (edit_all es (select_range (some o) d)) ≡ (do
        x ← typed_value big_int l o.type
        y ← typed_value big_int u o.type
        some (attribute_in_range o.label x y ∷ []))
  unfolding add_range select_range
  range_of_selection o d es el eu =
      ap (add_range big_int) (edit_all-typed es (select_range (some o) d) el eu)

  -- For the attribute that is selected at the start the form takes its label for its type: unless
  -- the label happens to be the name of a type, both bounds are sent as texts, whatever the
  -- attribute's type, and the statement names the attribute's value and not its label.
  pub default_range_type_ignored :
      (o : AttributeOption) (es : List Edit) {l u : String}
      → is_numeric (some o.label) ≡ false
      → is_date_time (some o.label) ≡ false
      → last_lower es ≡ some l
      → last_upper es ≡ some u
      → add_range big_int (edit_all es (initial_range o))
        ≡ some (attribute_in_range o.value (text l) (text u) ∷ [])
  unfolding add_range initial_range typed_value
  default_range_type_ignored o es n t el eu =
      ap (add_range big_int) (edit_all-typed es (initial_range o) el eu) ∙ rw n (rw t refl)

  -- One of the texts is not a number.
  pub data HasBad : List String → Type 0 where
    here : {s : String} {ss : List String} → big_int s ≡ none → HasBad (s ∷ ss)
    there : {s : String} {ss : List String} → HasBad ss → HasBad (s ∷ ss)

  HasBad-cases : {s : String} {ss : List String} → HasBad (s ∷ ss) → (big_int s ≡ none) ⊎ HasBad ss
  HasBad-cases (here e) = inl e
  HasBad-cases (there h) = inr h

  set_value-none :
      (s : String) (type : Option String)
      → set_value big_int s type ≡ none
      → (is_numeric type ≡ true) × (big_int s ≡ none)
  unfolding set_value
  set_value-none s type e = elim (Bool-cases (is_numeric type)) [
    | inl yes_ ↦ elim (Option-cases (big_int s)) [
      | inl bad ↦ (yes_, bad)
      | inr (n, read) ↦ ground arith
    ]
    | inr no_ ↦ elim (Bool-cases (is_date_time type)) [
      | inl date ↦ ground arith
      | inr plain ↦ ground arith
    ]
  ]

  typed_values-none :
      (ss : List String) (type : Option String)
      → typed_values big_int ss type ≡ none
      → (is_numeric type ≡ true) × HasBad ss
  unfolding typed_values
  typed_values-none [] type e = cc
  typed_values-none (s ∷ ss) type e = elim (Option-cases (set_value big_int s type)) [
    | inl bad ↦ let (numeric, bad') = set_value-none s type bad in (numeric, here bad')
    | inr (v, read) ↦ elim (Option-cases (typed_values big_int ss type)) [
      | inl later ↦ let (numeric, bad) = typed_values-none ss type later in (numeric, there bad)
      | inr (vs, read') ↦ cc
    ]
  ]

  typed_values-HasBad :
      (ss : List String) (type : Option String)
      → is_numeric type ≡ true
      → HasBad ss
      → typed_values big_int ss type ≡ none
  unfolding typed_values set_value
  typed_values-HasBad [] type n h = elim h [ ]
  typed_values-HasBad (s ∷ ss) type n h = elim (HasBad-cases h) [
    | inl bad ↦ ground arith
    | inr later ↦ ground (arith, typed_values-HasBad ss type n later)
  ]

  -- `AttributeInSet` throws while it is drawn, and with it the page, exactly when the selected
  -- attribute is numeric and a trimmed part between the commas is not a number.
  pub draw_set_throws_iff :
      (d : InSet)
      → (draw_set big_int d ≡ none)
        ↔ ((is_numeric d.selected.1 ≡ true) × HasBad (map trim (split_comma d.set)))
  unfolding draw_set
  draw_set_throws_iff d = (
    typed_values-none (map trim (split_comma d.set)) d.selected.1,
    λ h. typed_values-HasBad (map trim (split_comma d.set)) d.selected.1 h.0 h.1,
  )
