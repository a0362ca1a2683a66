-- ===== src/Explorer/AccountForms.antt =====
-- test-tools/proof-explorer/src/components/statements/AccountStatementBuilders.tsx: the forms for
-- account and identity credentials, by what their inputs hold and what their buttons ask of the web
-- SDK's `IdStatementBuilder`. The builder and the enumeration `AttributesKeys` come in as functions.
pub mod Sets
use Prim.Native.String.{◌++◌ as str_append}
use concordium_web3id.Common.{
  ℕ, String, Bool, true, false, Option, none, some, List, [], ◌∷◌, map, Result, ok, err, ◌>>=◌,
  if◌then◌else◌,
}
use concordium_web3id.Numbers.{SignedInt, codes, parse_int}
use concordium_web3id.Explorer.Builders.{split_comma, trim_left, trim_right, trim}

-- The one call of the builder; a bound is `parseInt` of a text, `none` where that is no integer.
pub data Call (Key : Type 0) : Type 0 where
  maximum_age : (bound : Option SignedInt) → Call Key
  minimum_age : (bound : Option SignedInt) → Call Key
  age_in_range : (lower upper : Option SignedInt) → Call Key
  document_expiry_no_earlier_than : (lower : String) → Call Key
  membership : (key : Key) (set : List String) → Call Key
  non_membership : (key : Key) (set : List String) → Call Key
  eu_nationality : Call Key
  eu_residency : Call Key

-- A form with its properties and the texts in its inputs.
pub data Form : Type 0 where
  age_bound : (younger : Bool) (bound : String) → Form
  age_in_range : (lower upper : String) → Form
  document_expiry_no_earlier : (lower : String) → Form
  document_issuer_in : (set : String) → Form
  attribute_in : (attribute : String) (member : Bool) (set : String) → Form
  eu_attribute_in : (nationality : Bool) → Form

-- The form as it is first drawn: the initial values of its `useState`.
unfoldable pub initial : Form → Form
initial (age_bound younger bound) = age_bound younger "18"
initial (Form.age_in_range lower upper) = Form.age_in_range "18" "64"
initial (document_expiry_no_earlier lower) = document_expiry_no_earlier "20250505"
initial (document_issuer_in set) = document_issuer_in ""
initial (attribute_in attribute member set) = attribute_in attribute member ""
initial (eu_attribute_in nationality) = eu_attribute_in nationality

-- The new text of an input, of the first or of the second of a form.
unfoldable pub change : (second : Bool) → String → Form → Form
change second s (age_bound younger bound) = age_bound younger s
change false s (Form.age_in_range lower upper) = Form.age_in_range s upper
change true s (Form.age_in_range lower upper) = Form.age_in_range lower s
change second s (document_expiry_no_earlier lower) = document_expiry_no_earlier s
change second s (document_issuer_in set) = document_issuer_in s
change second s (attribute_in attribute member set) = attribute_in attribute member s
change second s (eu_attribute_in nationality) = eu_attribute_in nationality

-- `set.split(',').map((e) => e.trim())`
unfoldable pub parts : String → List String
unfolding split_comma trim_left trim_right
parts set = map trim (split_comma set)

module _ {Key : Type 0} where
  -- The buttons "Add" of `AgeBound`, `AgeInRange`, `DocumentExpiryNoEarlier`, `DocumentIssuerIn` and
  -- `EUAttributeIn`.
  unfoldable pub age_bound_call : (younger : Bool) (bound : String) → Call Key
  unfolding parse_int
  age_bound_call true bound = maximum_age (parse_int (codes bound))
  age_bound_call false bound = minimum_age (parse_int (codes bound))

  unfoldable pub age_in_range_call : (lower upper : String) → Call Key
  unfolding parse_int
  age_in_range_call lower upper =
      Call.age_in_range (parse_int (codes lower)) (parse_int (codes upper))

  abbrev pub document_expiry_call : (lower : String) → Call Key
  document_expiry_call lower = document_expiry_no_earlier_than lower

  unfoldable pub document_issuer_in_call : (id_doc_issuer : Key) (set : String) → Call Key
  unfolding parts
  document_issuer_in_call id_doc_issuer set = membership id_doc_issuer (parts set)

  abbrev pub eu_attribute_call : (nationality : Bool) → Call Key
  eu_attribute_call true = eu_nationality
  eu_attribute_call false = eu_residency

module _ {Key : Type 0} (entry : String → Option Key) where
  unfoldable pub to_attributes_keys : String → Result String Key
  to_attributes_keys key = elim (entry key) [
    | some k ↦ ok k
    | none ↦ err (str_append "Unkown attributes key: " key)
  ]

  -- What the buttons "Add" of `AttributeIn` call.
  unfoldable pub attribute_in_call :
      (attribute : String) (member : Bool) (set : String) → Result String (Call Key)
  unfolding to_attributes_keys parts
  attribute_in_call attribute true set =
      to_attributes_keys attribute >>= λ key. ok (membership key (parts set))
  attribute_in_call attribute false set =
      to_attributes_keys attribute >>= λ key. ok (non_membership key (parts set))

  -- What each button "Add" calls; `id_doc_issuer` is `AttributesKeys.idDocIssuer`.
  unfoldable pub call_of : Key → Form → Result String (Call Key)
  unfolding age_bound_call age_in_range_call document_issuer_in_call attribute_in_call
  call_of id_doc_issuer (age_bound younger bound) = ok (age_bound_call younger bound)
  call_of id_doc_issuer (Form.age_in_range lower upper) = ok (age_in_range_call lower upper)
  call_of id_doc_issuer (document_expiry_no_earlier lower) = ok (document_expiry_call lower)
  call_of id_doc_issuer (document_issuer_in set) = ok (document_issuer_in_call id_doc_issuer set)
  call_of id_doc_issuer (attribute_in attribute member set) = attribute_in_call attribute member set
  call_of id_doc_issuer (eu_attribute_in nationality) = ok (eu_attribute_call nationality)

  -- The button: the statements that are handed on, or what was thrown.
  unfoldable pub press :
      {A : Type 0} (build : Call Key → Result String (List A)) (id_doc_issuer : Key)
      → Form
      → Result String (List A)
  unfolding call_of
  press build id_doc_issuer form = call_of id_doc_issuer form >>= build
