-- ===== src/Explorer/Details/Rows.antt =====
-- test-tools/proof-explorer/src/components/ProofDetails.tsx: the rows that the structured view draws
-- for a statement, a part of a proof and a credential, which come as JSON values; a `bigint` is a
-- number here. `none` stands for an error thrown while drawing, as React throws one for an object
-- among the children. `date` is `new Date(…).toLocaleString()`, which for an invalid date is the text
-- "Invalid Date" and no error; `stringify` is `JSON.stringify`, which throws on a `bigint`.
use Prim.Native.String.{◌++◌ as str_append}
use concordium_web3id.Common.{
  ℕ, suc, String, Bool, true, false, ◌&&◌, ◌||◌, Option, none, some, List, [], ◌∷◌, ◌++◌, ltb,
  if◌then◌else◌, str_eq, length, is_blank,
}
use concordium_web3id.Common.Json.{
  Json, null, bool, number, string, array, object, Items, nil, cons, get, is_truthy,
}
use concordium_web3id.Explorer.Builders.{◌>>=◌}
use concordium_web3id.Explorer.Details.{utf16, take, Truncated, whole, start, expanded}

-- A row of the view: a label with a text, with badges (each with its class) or with a text that may
-- be cut; a label with a preformatted text; the title of a section; a falsy value that stands for itself.
pub data Row : Type 0 where
  row : (label value : String) → Row
  badges : (label : String) → List (String × String) → Row
  long : (label : String) → Truncated → Row
  pre : (label value : String) → Row
  title : String → Row
  bare : String → Row

-- The names that `StatementTypes` of the web SDK has for the four types.
pub record StatementTypes : Type 0 where
  pub reveal_attribute : String
  pub attribute_in_range : String
  pub attribute_in_set : String
  pub attribute_not_in_set : String

-- `x.k` for a key that neither texts nor numbers have: it throws on `undefined` and `null`.
unfoldable pub member : String → Option Json → Option (Option Json)
member k none = none
member k (some null) = none
member k x = some (get k x)

-- A value among the children of an element.
unfoldable mutual
  pub child : Json → Option String
  child null = some ""
  child (bool b) = some ""
  child (number zero text) = some text
  child (string s) = some s
  child (array items) = children items
  child (object fields) = none

  pub children : Items → Option String
  children nil = some ""
  children (cons x rest) = do
    first ← child x
    others ← children rest
    some (str_append first others)

unfoldable pub draw : Option Json → Option String
unfolding child
draw none = some ""
draw (some x) = child x

-- `{x && rows}`: a falsy value is drawn itself.
unfoldable pub when : Option Json → Option (List Row) → Option (List Row)
unfolding draw
when x rows =
    if is_truthy x
    then rows
    else (do text ← draw x; some (if is_blank text then [] else bare text ∷ []))

abbrev pub count : Items → ℕ
count nil = 0
count (cons x rest) = suc (count rest)

-- `TruncatedText`, whose two buttons set whether it is expanded.
unfoldable pub truncated_text :
    (is_expanded : Bool) → (max_length : ℕ) → Option Json → Option Truncated
unfolding draw
truncated_text is_expanded max none = some (whole [])
truncated_text is_expanded max (some null) = some (whole [])
truncated_text is_expanded max (some (string s)) =
    let units = utf16 s in
    some (
      if ltb max (length units)
      then if is_expanded then expanded units else start (take max units) (length units)
      else whole units)
truncated_text is_expanded max (some (array items)) =
    if ltb max (count items)
    then none
    else (do text ← draw (some (array items)); some (whole (utf16 text)))
truncated_text is_expanded max (some x) =
    if is_truthy (some x) then none else (do text ← draw (some x); some (whole (utf16 text)))

-- The class of `TypeBadge` for a type in small letters.
abbrev pub badge_class : String → String
badge_class t =
    if str_eq t "verifiablepresentation" || str_eq t "verifiable presentation"
    then "bg-primary"
    else if str_eq t "verifiablecredential" || str_eq t "verifiable credential"
    then "bg-success"
    else if str_eq t "web3idproof" || str_eq t "revealattribute"
    then "bg-info"
    else if str_eq t "attributeinrange"
    then "bg-warning text-dark"
    else if str_eq t "attributeinset"
    then "bg-success"
    else if str_eq t "attributenotinset"
    then "bg-danger"
    else "bg-secondary"

-- `String(x)`, for what is no array
abbrev pub to_text : Option Json → String
to_text none = "undefined"
to_text (some null) = "null"
to_text (some (bool true)) = "true"
to_text (some (bool false)) = "false"
to_text (some (number zero text)) = text
to_text (some (string s)) = s
to_text (some _) = "[object Object]"

-- `.join(', ')`
abbrev pub join : List String → String
join [] = ""
join (s ∷ []) = s
join (s ∷ t ∷ ts) = str_append s (str_append ", " (join (t ∷ ts)))

abbrev pub equals : Option Json → String → Bool
equals (some (string s)) t = str_eq s t
equals x t = false

module _ (to_lower : String → String) where
  -- `TypeBadge`
  unfoldable pub badge : Json → Option (String × String)
  badge (string s) = some (badge_class (to_lower s), s)
  badge x = none

  unfoldable pub badge_list : Items → Option (List (String × String))
  unfolding badge
  badge_list nil = some []
  badge_list (cons x rest) = do b ← badge x; bs ← badge_list rest; some (b ∷ bs)

module _ (date : Json → String) (stringify : Json → Option String) where
  -- `value.timestamp`, where it and the type make a timestamp
  abbrev pub timestamp_of : Json → Option Json
  timestamp_of x =
      let t = get "timestamp" (some x) in
      if equals (get "type" (some x)) "date-time" && is_truthy t then t else none

  abbrev pub object_text : Json → Option String
  object_text x = elim (timestamp_of x) [ some t ↦ some (date t) | none ↦ stringify x ]

  -- `formatValue`
  unfoldable pub format_value : Option Json → Option String
  format_value none = some "—"
  format_value (some null) = some "—"
  format_value (some (object fields)) = object_text (object fields)
  format_value (some (array items)) = stringify (array items)
  format_value x = some (to_text x)

  unfoldable pub format_values : Items → Option (List String)
  unfolding format_value
  format_values nil = some []
  format_values (cons x rest) = do s ← format_value (some x); ss ← format_values rest; some (s ∷ ss)

  -- `Array.isArray(set) ? set.map(formatValue).join(', ') : formatValue(set)`
  unfoldable pub format_set : Option Json → Option String
  unfolding format_values
  format_set (some (array items)) = do ss ← format_values items; some (join ss)
  format_set x = format_value x

  abbrev pub heading : String → String → Option Json → Option (List Row)
  heading class name tag = do
    t ← draw tag
    some (badges "Type:" ((class, name) ∷ []) ∷ row "Attribute:" t ∷ [])

  unfoldable pub reveal_rows : Option Json → Option (List Row)
  unfolding draw when format_value
  reveal_rows x = do
    head ← heading "bg-info" "Reveal Attribute" (get "attributeTag" x)
    value ←
        when (get "revealed" x)
          (do s ← format_value (get "revealed" x); some (row "Revealed Value:" s ∷ []))
    some (head ++ value)

  unfoldable pub range_rows : Option Json → Option (List Row)
  unfolding draw format_value
  range_rows x = do
    head ← heading "bg-warning text-dark" "Attribute In Range" (get "attributeTag" x)
    lower ← format_value (get "lower" x)
    upper ← format_value (get "upper" x)
    some (head ++ row "Lower Bound:" lower ∷ row "Upper Bound:" upper ∷ [])

  unfoldable pub set_rows : String → String → Option Json → Option (List Row)
  unfolding draw format_set
  set_rows class name x = do
    head ← heading class name (get "attributeTag" x)
    s ← format_set (get "set" x)
    some (head ++ row "Set:" s ∷ [])

  -- The `default` of `renderStatement`.
  unfoldable pub other_rows : Option Json → Option Json → Option (List Row)
  unfolding draw
  other_rows type x = do
    t ← draw type
    s ← elim x [ none ↦ some "" | some j ↦ stringify j ]
    some (badges "Type:" (("bg-secondary", t) ∷ []) ∷ pre "" s ∷ [])

  abbrev pub rows_by_type : StatementTypes → Option Json → Option Json → Option (List Row)
  rows_by_type types type x =
      if equals type types.reveal_attribute
      then reveal_rows x
      else if equals type types.attribute_in_range
      then range_rows x
      else if equals type types.attribute_in_set
      then set_rows "bg-success" "Attribute In Set" x
      else if equals type types.attribute_not_in_set
      then set_rows "bg-danger" "Attribute Not In Set" x
      else other_rows type x

  -- `renderStatement`
  unfoldable pub render_statement : StatementTypes → Option Json → Option (List Row)
  unfolding member reveal_rows range_rows set_rows other_rows
  render_statement types x = do type ← member "type" x; rows_by_type types type x
