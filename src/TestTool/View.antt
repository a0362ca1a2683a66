-- ===== src/TestTool/View.antt =====
-- The page that test-tools/issuer-front-end/src/Main.tsx draws: its boxes, with their inputs, buttons
-- and errors, over the state that the other modules of TestTool change. Left out are the style, the
-- explanations on top of the column on the right, and the notes below the boxes.
pub mod Issuer
pub mod Credential
pub mod Entries
pub mod Whole
pub mod Offers
pub mod Typing
use Prim.Native.String.{◌++◌ as str_append}
use concordium_web3id.Common.{
  ℕ, String, Bool, true, false, not, ◌&&◌, ◌||◌, Option, none, some, List, [], ◌∷◌, ◌++◌, map,
  is_blank, is_some, ◌==◌,
}
use concordium_web3id.Common.View.{Node, text, input, switch, button, error_alert, when}
use concordium_web3id.TestTool.Attributes.{Message, not_a_date, unsupported}
use concordium_web3id.TestTool.Register.{Scenario, Shown}
use concordium_web3id.TestTool.Contract.{Page}
use concordium_web3id.TestTool.Buttons.{Form}
use concordium_web3id.TestTool.Entry.{Entry}
use concordium_web3id.TestTool.Account.{Account}
use concordium_web3id.TestTool.Fields.{Field, Fields, number}

-- What the connector to the wallet gives: `activeConnectorError`, whether there are a type of
-- connector and a connector, `connectError`, and the texts and the state of the two buttons.
pub record Connector : Type 0 where
  pub error : String
  pub has_type : Bool
  pub has_connector : Bool
  pub connect_error : String
  pub is_browser_wallet : Bool
  pub is_connecting : Bool
  pub is_disabled : Bool

-- The state of the page. Nothing sets `isWaitingForTransaction` to true, so it is left out.
pub record Screen (Keys State : Type 0) : Type 0 where
  pub connector : Connector
  pub connected : Bool
  pub account : String
  pub fields : Fields
  pub keys : Option Keys
  pub form : Form
  pub contract : Page
  pub shown : Shown
  pub entry : Entry State
  pub balance : Account

-- The inputs whose handler sets a text that is theirs: those of Fields, the key that is entered, and
-- the type and the schema that are entered by hand.
pub data TextInput : Type 0 where
  field : Field → TextInput
  revocation_key manual_type manual_schema : TextInput

-- The inputs: besides these, the contract's index and an attribute of the form (of
-- `WRONG_ATTRIBUTES` in step 13).
pub data Target : Type 0 where
  own : TextInput → Target
  contract_index : Target
  attribute : (wrong : Bool) → (tag : String) → Target

-- The buttons and the two switches, by what their handlers call.
pub data Button : Type 0 where
  select_connector connect create_issuer_keys create_new_issuer : Button
  add_key clear_keys : Button
  register : Scenario → Button
  issue_delayed view_entry revoke restore : Button
  update_issuer_metadata update_credential_schema update_credential_metadata : Button
  expiry_switch revocable_switch : Button

abbrev pub Nodes : Type 0
Nodes = List (Node Target Button)

-- `TestBox`
abbrev pub test_box : (header : String) → Nodes → Nodes
test_box header children = text header ∷ children

-- An `input` whose handler sets a field, below its label.
abbrev pub labelled : (label : String) → Field → Fields → Nodes
labelled label g fs = text label ∷ input (fs.text g) (own (field g)) ∷ []

-- `{message && <div role="alert">Error: {message}.</div>}`
abbrev pub error_of : String → Nodes
error_of message = when (not (is_blank message)) (error_alert message ∷ [])

-- The message that `parsingError` stands for.
abbrev pub message_text : Message → String
message_text (not_a_date s) = str_append "Unable to parse string \"" (str_append s "\" as a date.")
message_text (unsupported tag type) = str_append "Attribute " (
    str_append tag (
      str_append " has type "
        (str_append type ". Only the types string/number/integer and date-time are supported.")))

abbrev pub option_text : Option String → String
option_text none = ""
option_text (some s) = s

-- `handleManual…`: the two inputs of step 11 for the type and the schema.
unfoldable pub change_manual_type : String → Page → Page
change_manual_type s p = record p { manual_type = some s }

unfoldable pub change_manual_schema : String → Page → Page
change_manual_schema s p = record p { manual_schema = some s }
