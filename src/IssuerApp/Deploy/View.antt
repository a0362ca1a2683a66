-- ===== src/IssuerApp/Deploy/View.antt =====
-- What issuer-front-end/src/DeployCredentialContract.tsx draws, without the explanations below the
-- inputs. `required` says on which inputs of the form react-hook-form reports an error, `keys_text`
-- is `JSON.stringify` with its indentation.
use Prim.Native.String.{◌++◌ as str_append}
use concordium_web3id.Common.{
  String, Bool, not, List, [], ◌∷◌, ◌++◌, is_empty, is_blank, if◌then◌else◌,
}
use concordium_web3id.Common.View.{Node, text, link, free_input, alert, button, when, error_alert}
use concordium_web3id.IssuerApp.Deploy.{Deploy}

pub data Field : Type 0 where
  issuer_public_key issuer_metadata_url credential_type credential_schema_url : Field
  revokation_key : Field

pub data Button : Type 0 where
  close : Button
  add_revocation_keys clear_revocation_keys : Button
  create_new_issuer : Button

abbrev pub Nodes : Type 0
Nodes = List (Node Field Button)

-- The modal.
unfoldable pub dialog : Deploy → Nodes
dialog d = when d.show (text "Error" ∷ text d.error ∷ button "Close" close ∷ [])

-- An input of the form, with the alert that it is required.
abbrev pub group : (required : Field → Bool) → (label message : String) → Field → Nodes
group required label message f =
    text label ∷ free_input "" f ∷ when (required f) (alert message ∷ [])

unfoldable pub form : (required : Field → Bool) → Nodes
form required =
    group required "Issuer Public Key" "Issuer Public Key is required" issuer_public_key
    ++ group required "Issuer metadata URL" "Issuer metadata URL is required" issuer_metadata_url
    ++ group required "Credential type" "Credential type is required" credential_type
    ++ group required "Credential schema URL" "Credential schema URL is required"
        credential_schema_url
    ++ text "Revocation keys (optional)"
      ∷ free_input "" revokation_key
      ∷ button "Add Revocation Keys" add_revocation_keys
      ∷ button "Clear Revocation Keys" clear_revocation_keys
      ∷ button "Create New Issuer" create_new_issuer
      ∷ []

unfoldable pub keys_shown : (keys_text : List String → String) → List String → Nodes
keys_shown keys_text keys = when (not (is_empty keys)) (text (keys_text keys) ∷ [])

unfoldable pub errors_shown : Deploy → Nodes
errors_shown d =
    when (not (is_blank d.contract_index_error)) (error_alert d.contract_index_error ∷ [])
    ++ when (not (is_blank d.view_error)) (error_alert d.view_error ∷ [])

-- The link to the explorer of the chain.
unfoldable pub hash_shown : (is_testnet : Bool) → (tx_hash : String) → Nodes
hash_shown is_testnet tx_hash = when (not (is_blank tx_hash)) (
    text "Transaction hash:"
    ∷ link tx_hash (
        str_append "https://" (
          str_append (if is_testnet then "testnet." else "")
            (str_append "ccdscan.io/?dcount=1&dentity=transaction&dhash=" tx_hash)))
    ∷ [])

unfoldable pub progress : Deploy → Nodes
progress d =
    when d.waiting (text "Waiting for transaction to finalize" ∷ [])
    ++ when (not (is_blank d.contract_index))
        (text "Smart Contract Index:" ∷ text d.contract_index ∷ [])

unfoldable pub view :
    (required : Field → Bool) (keys_text : List String → String) (is_testnet : Bool) (d : Deploy)
    → Nodes
view required keys_text is_testnet d =
    dialog d
    ++ form required
    ++ keys_shown keys_text d.revocation_keys
    ++ errors_shown d
    ++ hash_shown is_testnet d.tx_hash
    ++ progress d
