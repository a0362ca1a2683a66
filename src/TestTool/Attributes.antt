-- ===== src/TestTool/Attributes.antt =====
-- The attributes of a credential in test-tools/issuer-front-end/src/Main.tsx: read from the schema
-- (`extractFromSchema`), filled in by the user (`handleAttributeChange`) and put into the credential
-- (`parseAttributesFromForm`). Arguments stand for the runtime: `big_int` for `BigInt(s)`, `none`
-- where it throws, and `is_date` for whether `new Date(s)` is a date.
pub mod Form
pub mod Types
use concordium_web3id.Common.{
  String, Bool, true, false, Option, none, some, List, [], ◌∷◌, ◌++◌, ◌&&◌, ◌||◌, Result, ok, err,
  str_eq, includes, if◌then◌else◌, assign, ◌>>=◌,
}
use concordium_web3id.Explorer.Builders.{trim}

pub record AttributeDetails : Type 0 where
  pub tag : String
  pub type : String
  pub value : Option String
  pub required : Bool

-- A value of `Attributes`.
pub data Value (Big : Type 0) : Type 0 where
  text : String → Value Big
  big : Big → Value Big
  date_time : (timestamp : String) → Value Big

-- An entry of the schema's `properties`: its `type` and its `properties.type.const`, a text unless
-- one of these fields is missing.
pub record Property : Type 0 where
  pub type : String
  pub const : Option String

-- What went wrong on the way to the schema: the response's code, or a field that is missing.
pub data SchemaError : Type 0 where
  unable_to_get : (status : String) → SchemaError
  type_error : SchemaError

-- The response: its status if it is not ok, else the attributes of the schema, `properties` and
-- `required`, unless they are missing.
pub data Response : Type 0 where
  refused : (status : String) → Response
  malformed : Response
  schema : (properties : List (String × Property)) (required : List String) → Response

-- The type of an entry, taken from inside if it is an object.
abbrev pub property_type : Property → Result SchemaError String
property_type p =
    if str_eq p.type "object"
    then elim p.const [ none ↦ err type_error | some type ↦ ok type ]
    else ok p.type

unfoldable pub details_of :
    List String → List (String × Property) → Result SchemaError (List AttributeDetails)
details_of required [] = ok []
details_of required ((key, p) ∷ ps) = do
  type ← property_type p
  rest ← details_of required ps
  ok (record { tag = key; type = type; value = none; required = includes required key } ∷ rest)

unfoldable pub extract_from_schema : Response → Result SchemaError (List AttributeDetails)
unfolding details_of
extract_from_schema (refused status) = err (unable_to_get status)
extract_from_schema malformed = err type_error
extract_from_schema (schema properties required) = details_of required properties

-- `handleAttributeChange`: every entry with the tag takes the text.
unfoldable pub handle_attribute_change :
    String → String → List AttributeDetails → List AttributeDetails
handle_attribute_change i v [] = []
handle_attribute_change i v (d ∷ ds) =
    (if str_eq d.tag i
      then record { tag = d.tag; type = d.type; value = some v; required = d.required }
      else d)
    ∷ handle_attribute_change i v ds

-- The messages given to `setParsingError`.
pub data Message : Type 0 where
  not_a_date : (text : String) → Message
  unsupported : (tag type : String) → Message

-- The object under construction, the messages, and the tags that `console.warn` named.
pub record Parsed (Big : Type 0) : Type 0 where
  pub attributes : List (String × Value Big)
  pub messages : List Message
  pub warnings : List String

module _ {Big : Type 0} (big_int : String → Option Big) (is_date : String → Bool) where
  -- The value that a text stands for; nothing if `BigInt` throws.
  unfoldable pub value_of : (type text : String) → Option (Value Big)
  value_of type v =
      if str_eq type "string"
      then some (text v)
      else if str_eq type "number" || str_eq type "integer"
      then elim (big_int v) [ none ↦ none | some n ↦ some (big n) ]
      else if str_eq type "date-time"
      then some (date_time (trim v))
      else some (text v)

  unfoldable pub messages_of : (tag type text : String) → List Message
  messages_of tag type v =
      if str_eq type "string" || str_eq type "number" || str_eq type "integer"
      then []
      else if str_eq type "date-time"
      then (if is_date (trim v) then [] else not_a_date (trim v) ∷ [])
      else unsupported tag type ∷ []

  -- One round of the loop; `err` if `BigInt` throws, with what was done before.
  unfoldable pub parse_step : AttributeDetails → Parsed Big → Result (Parsed Big) (Parsed Big)
  unfolding value_of messages_of
  parse_step d p = elim d.value [
    | none ↦ ok (record {
      attributes = p.attributes;
      messages = p.messages;
      warnings = if d.required then p.warnings ++ d.tag ∷ [] else p.warnings;
    })
    | some v ↦ elim (value_of d.type v) [
      | none ↦ err p
      | some a ↦ ok (record {
        attributes = assign d.tag a p.attributes;
        messages = p.messages ++ messages_of d.tag d.type v;
        warnings = p.warnings;
      })
    ]
  ]

  unfoldable pub parse_from : List AttributeDetails → Parsed Big → Result (Parsed Big) (Parsed Big)
  unfolding parse_step
  parse_from [] p = ok p
  parse_from (d ∷ ds) p = parse_step d p >>= λ q. parse_from ds q

  -- `parseAttributesFromForm`
  unfoldable pub parse_attributes_from_form :
      List AttributeDetails → Result (Parsed Big) (Parsed Big)
  unfolding parse_from
  parse_attributes_from_form ds =
      parse_from ds (record { attributes = []; messages = []; warnings = [] })
