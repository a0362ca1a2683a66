-- ===== src/IssuerApp/Deploy.antt =====
-- issuer-front-end/src/DeployCredentialContract.tsx, with `createNewIssuer` of
-- issuer-front-end/src/writing_to_blockchain.ts. The wallet, the node and `JSON.parse` come in as
-- functions or as the events that they cause.
pub mod Page
pub mod View
pub mod Shown
use Prim.Native.String.{◌++◌ as str_append}
use concordium_web3id.Common.{
  ℕ, String, Bool, true, false, not, Option, none, some, List, [], ◌∷◌, ◌++◌, Result, ok, err,
  ◌>>=◌, ◌>>◌, throw_if, ◌==◌, if◌then◌else◌, utf16_length, includes,
}
use concordium_web3id.Registry.Types.{
  Error, error, syntax_error, MetadataUrl, Transaction, init_registry, init_contract,
}
use concordium_web3id.Registry.Writing.{unhashed, required, or_throw, needs_64}

-- `createNewIssuer`: what it passes to `connection.signAndSendTransaction`, or what it throws.
unfoldable pub create_new_issuer :
    {Keys : Type 0} (json_parse : String → Option Keys) (module_ref account : String)
    (issuer_meta_data issuer_key credential_schema : Option String) (revocation_keys : String)
    (credential_type : Option String)
    → Result Error (Transaction MetadataUrl Keys)
create_new_issuer json_parse module_ref account url key schema keys type = do
  url' ← required url "Set issuerMetaData"
  schema' ← required schema "Set credentialSchema"
  type' ← required type "Set credentialType"
  key' ← required key "Set issuerKey"
  needs_64 key' "issuerKey needs a length of 64"
  parsed ← or_throw (json_parse keys) syntax_error
  ok (record {
    account = account;
    payload = init_contract 0 module_ref "credential_registry" 30000;
    parameter = init_registry (unhashed url') type' key' (unhashed schema') (some account) parsed;
  })

-- `addRevokationKey`: the new list, or the message of the error. The function's last test, that the
-- key is not empty, holds wherever it is reached.
unfoldable pub add_revokation_key : List String → Option String → Result String (List String)
add_revokation_key keys none = err "Set revocation key"
add_revokation_key keys (some key) = do
  throw_if (includes keys key) (str_append "Duplicate revocation key: " key)
  throw_if (not (utf16_length key == 64)) "Revocation key should have a length of 64"
  ok (keys ++ key ∷ [])

-- A block item's status: finalized with the index of the contract that it initialised, if it did.
pub data Report : Type 0 where
  pending : Report
  finalized : Option String → Report

pub record Deploy : Type 0 where
  pub contract_index_error : String
  pub view_error : String
  pub waiting : Bool
  pub contract_index : String
  pub tx_hash : String
  pub revocation_keys : List String
  pub show : Bool
  pub error : String

abbrev pub initial : Deploy
initial = record {
  contract_index_error = "";
  view_error = "";
  waiting = false;
  contract_index = "";
  tx_hash = "";
  revocation_keys = [];
  show = false;
  error = "";
}

-- The button "Create New Issuer": first what it does at once, then how the transaction ends.
unfoldable pub submit : Deploy → Deploy
submit d = record d { tx_hash = ""; error = ""; contract_index = ""; waiting = true }

unfoldable pub settled : Result String String → Deploy → Deploy
settled (ok hash) d = record d { tx_hash = hash }
settled (err message) d = record d { error = message; waiting = false }

-- One answer of the node to the periodic query for the transaction.
unfoldable pub polled : Result String (Option Report) → Deploy → Deploy
polled (err message) d = record d { view_error = message }
polled (ok none) d = d
polled (ok (some pending)) d = record d { view_error = "" }
polled (ok (some (finalized (some index)))) d = record d {
  view_error = "";
  waiting = false;
  contract_index_error = "";
  contract_index = index;
}
polled (ok (some (finalized none))) d = record d {
  view_error = "";
  waiting = false;
  contract_index_error = "Contract initialization failed";
}

-- The buttons for the revocation keys; a failing addition is reported by `alert`.
unfoldable pub add_key : Option String → Deploy → Deploy
add_key key d = elim (add_revokation_key d.revocation_keys key) [
  | ok keys ↦ record d { revocation_keys = keys }
  | err message ↦ d
]

unfoldable pub clear_keys : Deploy → Deploy
clear_keys d = record d { revocation_keys = [] }

-- `handleClose`
unfoldable pub handle_close : Deploy → Deploy
handle_close d = record d { show = false }
