-- ===== src/Explorer/Builders.antt =====
-- The forms of test-tools/proof-explorer/src/components/statements/Web3IdStatementBuilders.tsx: the
-- state of each, what its inputs do to it, and the atomic statement that its button adds.
-- `BigInt(s)` is the argument `big_int`, `none` where it throws; so is `none` for a form that throws.
pub mod Forms
use concordium_web3id.Common.{
  ℕ, String, Bool, true, false, ◌||◌, Option, none, some, List, [], ◌∷◌, map, str_eq, is_blank,
  if◌then◌else◌, ◌==◌, ◌&&◌,
}
use concordium_web3id.Numbers.{is_space}
use Prim.Native.Char.{Char, code}

-- One conversion after another, unless one throws.
infixl 5 ◌>>=◌
abbrev pub ◌>>=◌ : {A B : Type 0} → Option A → (A → Option B) → Option B
some value >>= next = next value
none >>= next = none

-- An entry of `attributeOptions`.
pub record AttributeOption : Type 0 where
  pub value : String
  pub label : String
  pub type : Option String

-- A value in a statement: `string | bigint | TimestampAttribute`.
pub data Value (N : Type 0) : Type 0 where
  text : String → Value N
  number : N → Value N
  timestamp : String → Value N

pub data AtomicStatement (N : Type 0) : Type 0 where
  reveal_attribute : (tag : String) → AtomicStatement N
  attribute_in_range : (tag : String) (lower upper : Value N) → AtomicStatement N
  attribute_in_set : (tag : String) (set : List (Value N)) → AtomicStatement N
  attribute_not_in_set : (tag : String) (set : List (Value N)) → AtomicStatement N

abbrev pub is_numeric : Option String → Bool
is_numeric none = false
is_numeric (some t) = str_eq t "number" || str_eq t "integer"

abbrev pub is_date_time : Option String → Bool
is_date_time none = false
is_date_time (some t) = str_eq t "date-time"

module _ {N : Type 0} (big_int : String → Option N) where
  -- The value that a text stands for under an attribute's type.
  unfoldable pub typed_value : String → Option String → Option (Value N)
  typed_value s type =
      if is_numeric type
      then (do n ← big_int s; some (number n))
      else if is_date_time type
      then some (timestamp s)
      else some (text s)

  -- `RevealAttribute`, whose state is the selected label.
  abbrev pub initial_reveal : AttributeOption → String
  initial_reveal o = o.label

  abbrev pub select_reveal : Option AttributeOption → String → String
  select_reveal none selected = selected
  select_reveal (some o) selected = o.label

  abbrev pub add_reveal : String → List (AtomicStatement N)
  add_reveal selected = reveal_attribute selected ∷ []

-- `AttributeInRange`
pub record InRange : Type 0 where
  pub lower : String × Option String
  pub upper : String × Option String
  pub selected : String × Option String

unfoldable pub initial_range : AttributeOption → InRange
initial_range o = record {
  lower = ("", none);
  upper = ("", none);
  selected = (o.value, some o.label);
}

unfoldable pub select_range : Option AttributeOption → InRange → InRange
select_range none d = d
select_range (some o) d = record d { selected = (o.label, o.type) }

unfoldable pub type_lower : String → InRange → InRange
type_lower s d = record d { lower = (s, d.selected.1) }

unfoldable pub type_upper : String → InRange → InRange
type_upper s d = record d { upper = (s, d.selected.1) }

module _ {N : Type 0} (big_int : String → Option N) where
  unfoldable pub add_range : InRange → Option (List (AtomicStatement N))
  unfolding typed_value
  add_range d = do
    lower ← typed_value big_int d.lower.0 d.lower.1
    upper ← typed_value big_int d.upper.0 d.upper.1
    some (attribute_in_range d.selected.0 lower upper ∷ [])

-- `s.split(',')`
unfoldable pub split_comma : String → List String
split_comma String.[] = "" ∷ []
split_comma (String.◌∷◌ c s) = elim (split_comma s) [
  | [] ↦ String.◌∷◌ c "" ∷ []
  | p ∷ ps ↦ if code c == 44 then "" ∷ p ∷ ps else String.◌∷◌ c p ∷ ps
]

-- `s.trim()`
unfoldable pub trim_left : String → String
unfolding is_space
trim_left String.[] = ""
trim_left (String.◌∷◌ c s) = elim (is_space (code c)) [
  | true ↦ trim_left s
  | false ↦ String.◌∷◌ c s
]

unfoldable pub trim_right : String → String
unfolding is_space
trim_right String.[] = ""
trim_right (String.◌∷◌ c s) =
    let rest = trim_right s in if is_space (code c) && is_blank rest then "" else String.◌∷◌ c rest

abbrev pub trim : String → String
trim s = trim_left (trim_right s)

-- `AttributeInSet`
pub record InSet : Type 0 where
  pub set : String
  pub selected : String × Option String

abbrev pub initial_set : AttributeOption → InSet
initial_set o = record { set = ""; selected = (o.value, o.type) }

abbrev pub select_set : Option AttributeOption → InSet → InSet
select_set none d = d
select_set (some o) d = record d { selected = (o.label, o.type) }

abbrev pub type_set : String → InSet → InSet
type_set s d = record d { set = s }

module _ {N : Type 0} (big_int : String → Option N) where
  -- The value of one trimmed part of the set.
  unfoldable pub set_value : String → Option String → Option (Value N)
  unfolding trim_left trim_right
  set_value s type =
      if is_numeric type
      then (do n ← big_int s; some (number n))
      else if is_date_time type
      then some (timestamp (trim s))
      else some (text s)

  -- The values of all parts, unless one throws.
  unfoldable pub typed_values : List String → Option String → Option (List (Value N))
  unfolding set_value
  typed_values [] type = some []
  typed_values (s ∷ ss) type = do v ← set_value s type; vs ← typed_values ss type; some (v ∷ vs)

  -- `proof_set`, which the form computes whenever it is drawn: `none` stands for the error thrown
  -- while drawing.
  unfoldable pub draw_set : InSet → Option (List (Value N))
  unfolding split_comma trim_left trim_right typed_values
  draw_set d = typed_values (map trim (split_comma d.set)) d.selected.1

  -- The button of a form that is drawn with the values `proof_set`.
  abbrev pub add_set : Bool → List (Value N) → InSet → List (AtomicStatement N)
  add_set true proof_set d = attribute_in_set d.selected.0 proof_set ∷ []
  add_set false proof_set d = attribute_not_in_set d.selected.0 proof_set ∷ []
