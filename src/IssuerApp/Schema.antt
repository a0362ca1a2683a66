-- ===== src/IssuerApp/Schema.antt =====
-- issuer-front-end/src/CreateSchemaAndMetadataFiles.tsx: `addAttribute`, which changes the page's
-- list of attributes and, in place, the credential schema, and the button that clears the list. Of
-- the schema only the two parts that change are kept. A title whose key is `__proto__` is left out:
-- assigning that key makes no entry.
pub mod Invariant
use Prim.Native.Char.{code}
use concordium_web3id.Common.{
  ℕ, String, Bool, true, false, ◌||◌, Option, none, some, List, [], ◌∷◌, ◌++◌, Result, ok, err,
  ◌==◌, if◌then◌else◌, str_eq, includes, is_some,
}

-- The schema of an attribute: that of a date-time is an object with a constant type and a timestamp.
pub data AttributeSchema : Type 0 where
  plain : (title type description : String) → AttributeSchema
  date_time : (title description : String) → AttributeSchema

abbrev pub Entries : Type 0
Entries = List (String × AttributeSchema)

-- `attributes` and `…attributes.properties`, `…attributes.required` of `credentialSchema`.
pub record Page : Type 0 where
  pub attributes : Entries
  pub properties : Entries
  pub required : List String

abbrev pub empty_page : Page
empty_page = record { attributes = []; properties = []; required = [] }

-- `title.replaceAll(' ', '')`
unfoldable pub remove_spaces : String → String
remove_spaces String.[] = ""
remove_spaces (String.◌∷◌ c s) = elim (code c == 32) [
  | true ↦ remove_spaces s
  | false ↦ String.◌∷◌ c (remove_spaces s)
]

-- What every object has from its prototype.
abbrev pub inherited : List String
inherited =
    "constructor" ∷ "__defineGetter__" ∷ "__defineSetter__" ∷ "hasOwnProperty" ∷ "__lookupGetter__"
    ∷ "__lookupSetter__" ∷ "isPrototypeOf" ∷ "propertyIsEnumerable" ∷ "toString" ∷ "valueOf"
    ∷ "__proto__" ∷ "toLocaleString" ∷ []

unfoldable pub is_inherited : String → Bool
is_inherited key = includes inherited key

-- `attributes.forEach((value) => { if (value[key] !== undefined) throw … })`, where each value has
-- one key of its own
unfoldable pub is_duplicate : String → Entries → Bool
is_duplicate key [] = false
is_duplicate key ((k, v) ∷ rest) = str_eq k key || is_inherited key || is_duplicate key rest

-- `result[key] = item[key]`
unfoldable pub put : String → AttributeSchema → Entries → Entries
put key v [] = (key, v) ∷ []
put key v ((k, w) ∷ rest) = if str_eq k key then (key, v) ∷ rest else (k, w) ∷ put key v rest

-- `.reduce(function arrayToObject …, result)`
unfoldable pub array_to_object : Entries → Entries → Entries
array_to_object result [] = result
array_to_object result ((k, v) ∷ rest) = array_to_object (put k v result) rest

abbrev pub new_attribute : (title description type : String) → AttributeSchema
new_attribute title description type =
    if str_eq type "date-time" then date_time title description else plain title type description

unfoldable pub add_attribute :
    (title description : String) (is_required : Bool) (type : String) → Page → Result String Page
add_attribute title description is_required type p =
    let key = remove_spaces title in
    let attributes = p.attributes ++ (key, new_attribute title description type) ∷ [] in
    if is_duplicate key p.attributes
    then err title
    else ok (record {
      attributes = attributes;
      properties = array_to_object [] attributes;
      required = if is_required then p.required ++ key ∷ [] else p.required;
    })

-- The button "Clear attributes": `setAttributes([])`.
unfoldable pub clear_attributes : Page → Page
clear_attributes p = record p { attributes = [] }
