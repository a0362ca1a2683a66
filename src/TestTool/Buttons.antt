-- ===== src/TestTool/Buttons.antt =====
-- The buttons of test-tools/issuer-front-end/src/Main.tsx that call one function of
-- writing_to_blockchain.ts with what the page holds (steps 2 and 6 to 10), and the revocation keys.
-- `json_stringify` and `json_parse` are the runtime's `JSON`.
pub mod Keys
use concordium_web3id.Common.{
  ℕ, String, Bool, not, Option, none, some, List, [], ◌∷◌, ◌++◌, Result, ok, err, ◌>>=◌, ◌>>◌,
  throw_if, is_blank, includes, utf16_length, ◌==◌, if◌then◌else◌,
}
use Prim.Native.String.{◌++◌ as str_append}
use concordium_web3id.Registry.Types.{Index, Error, MetadataUrl, Transaction}
use concordium_web3id.Registry.Writing.{
  unhashed, create_new_issuer, update_credential_schema, update_credential_metadata,
  update_issuer_metadata, revoke_credential, restore_credential,
}
use concordium_web3id.TestTool.Hex.{hex_to_bytes}

-- What these handlers read of the page.
pub record Inputs : Type 0 where
  pub account : String
  pub index : Option Index
  pub public_key : String
  pub auxiliary_data : String
  pub reason : String
  pub issuer_meta_data : String
  pub updated_issuer_meta_data : String
  pub updated_credential_schema : String
  pub updated_credential_meta_data : String
  pub verify_key : Option String
  pub schema_url : String
  pub credential_type : String

module _ {Schema Keys : Type 0} where
  unfoldable pub press_revoke : Inputs → Result Error (Transaction Schema Keys)
  unfolding revoke_credential hex_to_bytes
  press_revoke i =
      revoke_credential i.account i.public_key i.index (hex_to_bytes i.auxiliary_data) i.reason

  unfoldable pub press_restore : Inputs → Result Error (Transaction Schema Keys)
  unfolding restore_credential
  press_restore i = restore_credential i.account i.public_key i.index i.reason

  unfoldable pub press_update_issuer_metadata : Inputs → Result Error (Transaction Schema Keys)
  unfolding update_issuer_metadata
  press_update_issuer_metadata i =
      update_issuer_metadata i.account i.index i.updated_issuer_meta_data

  unfoldable pub press_update_credential_schema : Inputs → Result Error (Transaction Schema Keys)
  unfolding update_credential_schema
  press_update_credential_schema i =
      update_credential_schema i.account i.index i.updated_credential_schema

  unfoldable pub press_update_credential_metadata : Inputs → Result Error (Transaction Schema Keys)
  unfolding update_credential_metadata
  press_update_credential_metadata i =
      update_credential_metadata i.account i.index i.updated_credential_meta_data i.public_key

-- `issuerKeys?.verifyKey || ''`
abbrev pub key_or_blank : Option String → String
key_or_blank none = ""
key_or_blank (some key) = key

-- The "Create New Issuer" button; `example` is `EXAMPLE_CREDENTIAL_SCHEMA`.
unfoldable pub press_create :
    {Keys : Type 0} (json_parse : String → Option Keys) (json_stringify : List String → String)
    (module_ref example : String)
    → Inputs
    → (revocation_keys : List String) → Result Error (Transaction MetadataUrl Keys)
press_create json_parse json_stringify module_ref example i keys =
    create_new_issuer json_parse module_ref i.account i.issuer_meta_data (key_or_blank i.verify_key)
      (unhashed (if is_blank i.schema_url then example else i.schema_url)) (json_stringify keys)
      i.credential_type

-- The form of the revocation keys.
pub record Form : Type 0 where
  pub revocation_keys : List String
  pub revocation_key_input : String
  pub user_input_error : String

-- `addRevokationKey`: the new list, or the message of the error. The function's last test, that the
-- key is not empty, holds wherever it is reached.
unfoldable pub add_revokation_key : List String → String → Result String (List String)
add_revokation_key keys key = do
  throw_if (includes keys key) (str_append "Duplicate revocation key: " key)
  throw_if (not (utf16_length key == 64)) "Revocation key should have a length of 64"
  ok (keys ++ key ∷ [])

unfoldable pub key_added : Result String (List String) → Form → Form
key_added (ok keys) f = record {
  revocation_keys = keys;
  revocation_key_input = "";
  user_input_error = "";
}
key_added (err message) f = record {
  revocation_keys = f.revocation_keys;
  revocation_key_input = f.revocation_key_input;
  user_input_error = message;
}

unfoldable pub submit_key : Form → Form
submit_key f = key_added (add_revokation_key f.revocation_keys f.revocation_key_input) f

unfoldable pub type_key : String → Form → Form
type_key input f = record {
  revocation_keys = f.revocation_keys;
  revocation_key_input = input;
  user_input_error = f.user_input_error;
}

unfoldable pub clear_keys : Form → Form
clear_keys f = record { revocation_keys = []; revocation_key_input = ""; user_input_error = "" }
