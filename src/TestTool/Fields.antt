-- ===== src/TestTool/Fields.antt =====
-- The inputs of test-tools/issuer-front-end/src/Main.tsx whose handlers only set a text, the two
-- switches, and how an attribute's input is labelled.
pub mod Typed
use concordium_web3id.Registry.Types.{Index}
use concordium_web3id.Common.{
  ℕ, String, Bool, true, false, not, ◌||◌, Option, List, [], ◌∷◌, ◌==◌, str_eq, if◌then◌else◌,
}
use concordium_web3id.TestTool.Attributes.{AttributeDetails}
use concordium_web3id.TestTool.Buttons.{Inputs}

-- The texts that have a `useState` and a handler of their own.
pub data Field : Type 0 where
  auxiliary_data seed reason public_key issuer_meta_data updated_issuer_meta_data : Field
  updated_credential_schema credential_meta_data updated_credential_meta_data : Field
  credential_type credential_schema valid_from_date valid_until_date : Field

abbrev pub number : Field → ℕ
number auxiliary_data = 0
number seed = 1
number reason = 2
number public_key = 3
number issuer_meta_data = 4
number updated_issuer_meta_data = 5
number updated_credential_schema = 6
number credential_meta_data = 7
number updated_credential_meta_data = 8
number credential_type = 9
number credential_schema = 10
number valid_from_date = 11
number valid_until_date = 12

pub record Fields : Type 0 where
  pub text : Field → String
  pub holder_revocable : Bool
  pub has_expiry_date : Bool

-- The texts at the start, over the three examples of constants.ts.
unfoldable pub initial_text : (issuer credential schema : String) → Field → String
initial_text issuer credential schema auxiliary_data = "83fe0d"
initial_text issuer credential schema seed = "myRandomSeedString"
initial_text issuer credential schema reason = "ThisIsTheReason"
initial_text issuer credential schema public_key =
    "8fe0dc02ffbab8d30410233ed58b44a53c418b368ae91cdcdbcdb9e79358be82"
initial_text issuer credential schema issuer_meta_data = issuer
initial_text issuer credential schema updated_issuer_meta_data = ""
initial_text issuer credential schema updated_credential_schema = ""
initial_text issuer credential schema credential_meta_data = credential
initial_text issuer credential schema updated_credential_meta_data = ""
initial_text issuer credential schema credential_type = "myCredentialType"
initial_text issuer credential schema credential_schema = schema
initial_text issuer credential schema valid_from_date = "2022-06-12T07:30"
initial_text issuer credential schema valid_until_date = "2025-06-12T07:30"

unfoldable pub initial : (issuer credential schema : String) → Fields
unfolding initial_text
initial issuer credential schema = record {
  text = initial_text issuer credential schema;
  holder_revocable = true;
  has_expiry_date = true;
}

-- The handlers `change…Handler` and `handle…Change`, by the field that each sets.
unfoldable pub change : Field → String → Fields → Fields
change g s f = record f { text = λ h. if number g == number h then s else f.text h }

-- The two switches.
unfoldable pub switch_holder_revocable : Fields → Fields
switch_holder_revocable f = record f { holder_revocable = not f.holder_revocable }

unfoldable pub switch_expiry_date : Fields → Fields
switch_expiry_date f = record f { has_expiry_date = not f.has_expiry_date }

-- What the buttons for the contract read of the inputs.
unfoldable pub inputs_of :
    (account : String) (index : Option Index) (verify_key : Option String) → Fields → Inputs
inputs_of account index verify_key f = record {
  account = account;
  index = index;
  public_key = f.text public_key;
  auxiliary_data = f.text auxiliary_data;
  reason = f.text reason;
  issuer_meta_data = f.text issuer_meta_data;
  updated_issuer_meta_data = f.text updated_issuer_meta_data;
  updated_credential_schema = f.text updated_credential_schema;
  updated_credential_meta_data = f.text updated_credential_meta_data;
  verify_key = verify_key;
  schema_url = f.text credential_schema;
  credential_type = f.text credential_type;
}

-- `attributeInputPlaceHolder`
unfoldable pub attribute_input_place_holder : AttributeDetails → String
attribute_input_place_holder details =
    if str_eq details.type "date-time"
    then "2023-08-30T06:22:46Z"
    else if str_eq details.type "number" || str_eq details.type "integer"
    then "1234"
    else "myString"

-- `renderAddPrompt`: the words before the attribute's tag, each with whether it is highlighted.
unfoldable pub render_add_prompt : AttributeDetails → List (String × Bool)
render_add_prompt details =
    if details.required
    then ("Add", false) ∷ ("required", true) ∷ ("attribute", false) ∷ []
    else ("Add", false) ∷ []
