-- ===== src/TestTool/Attributes/Types.antt =====
-- The types of the attributes that `parseAttributesFromForm` puts into a credential.
use mathlib.Core.Path.{subst}
use mathlib.Core.Option.{some-injective}
use concordium_web3id.Explorer.Builders.{trim}
use concordium_web3id.Common.{
  ◌≡◌, ◌≢◌, ◌⊎◌, inl, inr, sym, ◌∙◌, String, Bool, true, false, Option, none, some, List, ok,
  str_eq, eq_iff, ne_of_str_eq, Bool-cases, Option-cases, find, refl,
}
use concordium_web3id.TestTool.Attributes.{
  AttributeDetails, Value, text, big, date_time, Parsed, value_of, parse_attributes_from_form,
}
use concordium_web3id.TestTool.Attributes.Form.{entered, meant, parse_attributes_from_form-find}

-- A value is of a type of the schema: a number of the numeric types, a date with its time of
-- `date-time`, a text of any other.
pub data HasType (Big : Type 0) (type : String) : Value Big → Type 0 where
  a_number : (n : Big) → (type ≡ "number") ⊎ (type ≡ "integer") → HasType Big type (big n)
  a_date : (s : String) → type ≡ "date-time" → HasType Big type (date_time s)
  a_text :
      (s : String)
      → type ≢ "number"
      → type ≢ "integer"
      → type ≢ "date-time"
      → HasType Big type (text s)

is_type : (s t : String) → str_eq s t ≡ true → s ≡ t
is_type s t e = (eq_iff s t).0 e

other_type : (type s t : String) → str_eq type s ≡ true → str_eq s t ≡ false → type ≢ t
other_type type s t e f g = ne_of_str_eq s t f (sym (is_type type s e) ∙ g)

given :
    {Big : Type 0} (type : String) (x a : Value Big)
    → some x ≡ some a
    → HasType Big type x
    → HasType Big type a
given {Big} type x a e h = subst (HasType Big type) (some-injective x a e) h

module _ {Big : Type 0} (big_int : String → Option Big) (is_date : String → Bool) where
  number-HasType :
      (type v : String) (a : Value Big)
      → (type ≡ "number") ⊎ (type ≡ "integer")
      → elim (big_int v) [ none ↦ none | some n ↦ some (big n) ] ≡ some a
      → HasType Big type a
  number-HasType type v a numeric e = elim (Option-cases (big_int v)) [
    | inl throws ↦ cc (rw throws at e)
    | inr (n, read) ↦ given type (big n) a (rw read at e) (a_number n numeric)
  ]

  value_of-HasType :
      (type v : String) (a : Value Big)
      → value_of big_int is_date type v ≡ some a
      → HasType Big type a
  unfolding value_of
  value_of-HasType type v a e = elim (Bool-cases (str_eq type "string")) [
    | inl same ↦ given type (text v) a (rw same at e) (
        a_text v (other_type type "string" "number" same refl)
          (other_type type "string" "integer" same refl)
          (other_type type "string" "date-time" same refl))
    | inr no_string ↦ elim (Bool-cases (str_eq type "number")) [
      | inl same ↦
          number-HasType type v a (inl (is_type type "number" same)) (rw (no_string, same) at e)
      | inr no_number ↦ elim (Bool-cases (str_eq type "integer")) [
        | inl same ↦
            number-HasType type v a (inr (is_type type "integer" same))
              (rw (no_string, no_number, same) at e)
        | inr no_integer ↦ elim (Bool-cases (str_eq type "date-time")) [
          | inl same ↦
              given type (date_time (trim v)) a (rw (no_string, no_number, no_integer, same) at e)
                (a_date (trim v) (is_type type "date-time" same))
          | inr no_date ↦
              given type (text v) a (rw (no_string, no_number, no_integer, no_date) at e) (
                a_text v (ne_of_str_eq type "number" no_number)
                  (ne_of_str_eq type "integer" no_integer) (ne_of_str_eq type "date-time" no_date))
        ]
      ]
    ]
  ]

  -- If the form is read, every attribute of the credential is one that the form gives, and its value
  -- is of the type that the schema has for it: a number of the numeric types, a date for `date-time`,
  -- and a text for every other type.
  pub parse_attributes_from_form-HasType :
      (ds : List AttributeDetails) (tag : String) {q : Parsed Big} (a : Value Big)
      → parse_attributes_from_form big_int is_date ds ≡ ok q
      → find tag q.attributes ≡ some a
      → (type : String) × (s : String) × (entered tag ds ≡ some (type, s)) × HasType Big type a
  parse_attributes_from_form-HasType ds tag {q} a e found =
      let read : meant big_int is_date (entered tag ds) ≡ some a =
        sym (parse_attributes_from_form-find big_int is_date ds tag e) ∙ found in
      elim (Option-cases (entered tag ds)) [
        | inl nothing ↦ cc (rw nothing at read)
        | inr ((type, s), here) ↦ (type, s, here, value_of-HasType type s a (rw here at read))
      ]
