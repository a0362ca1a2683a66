-- ===== src/Explorer/Right.antt =====
-- The column on the right of test-tools/proof-explorer/src/components/ProofExplorer.tsx: its buttons,
-- the anchor's part, and the parts of `SubmitProofV1` and `SubmitProof`
-- (services/verification-service-v1.tsx and verification-service.tsx). The list of statements at its
-- end is Display's. `message_text` is the text of a message, `thrown_text` of a thrown value.
pub mod Buttons
use Prim.Native.String.{◌++◌ as str_append}
use concordium_web3id.Common.{
  String, Bool, true, false, Option, none, some, List, [], ◌∷◌, ◌++◌, is_some, if◌then◌else◌,
}
use concordium_web3id.Common.View.{Node, text, input, switch, alert, button, when}
use concordium_web3id.Explorer.Types.{
  SubjectClaimsType, account_or_identity_claims, only_account_claims, only_identity_claims,
}
use concordium_web3id.Explorer.Thrown.{Thrown}
use concordium_web3id.Explorer.Wallet.{chain_id, chain_id_old, namespace, method_v0, method_v1}
use concordium_web3id.Explorer.Submit.{Message}
use concordium_web3id.Explorer.Submit.Panel.{Panel, lines}
use concordium_web3id.Explorer.Anchor.{Submission, connect_first, completed, failed}
use concordium_web3id.Explorer.Flow.{Flow}

pub data Button : Type 0 where
  connect_browser connect_mobile_v0 connect_mobile_v1 : Button
  start_new clear_last clear_messages : Button
  public_info_switch submit_anchor : Button
  service_switch audit_info_switch prove_v1 prove_v0 : Button
  view_details_v1 view_details_v0 : Button

-- The one input: the type of the claims.
pub data Input : Type 0 where
  claims_type : Input

abbrev pub Nodes : Type 0
Nodes = List (Node Input Button)

-- The texts of the options.
abbrev pub type_label : SubjectClaimsType → String
type_label account_or_identity_claims = "Account or Identity"
type_label only_account_claims = "Account only"
type_label only_identity_claims = "Identity only"

-- A button for mobile wallets with the constants that it uses.
abbrev pub mobile_button : (label : String) → Button → (chain method : String) → Nodes
mobile_button label b chain method =
    button label b
    ∷ text (str_append "`WALLET_CONNECT_SESSION_NAMESPACE=" (str_append namespace "`"))
    ∷ text (str_append "`CHAIN_ID=" (str_append chain "`"))
    ∷ text (str_append "Methods: " method)
    ∷ []

-- Whether a wallet is connected, with its account; an account that is missing is drawn as nothing.
abbrev pub connection : (provider : Option (Option String)) → Nodes
connection none = text "Not connected" ∷ []
connection (some none) = text "Connected to " ∷ []
connection (some (some account)) = text (str_append "Connected to " account) ∷ []

unfoldable pub wallets : (provider : Option (Option String)) → Nodes
wallets provider =
    button "Connect Browser Wallet" connect_browser
      ∷ mobile_button "Connect Mobile Wallets for V0 Flow (inaudible flow)" connect_mobile_v0
          chain_id_old method_v0
    ++ mobile_button "Connect Mobile Wallets or ID App for V1 Flow (audible flow)" connect_mobile_v1
        chain_id method_v1
    ++ connection provider

unfoldable pub statement_buttons : Nodes
statement_buttons =
    button "Start a new credential statement" start_new
    ∷ button "Clear last credential statement" clear_last
    ∷ button "Clear messages" clear_messages
    ∷ []

-- `anchorSubmissionResult`
abbrev pub submission_text : (thrown_text : Thrown → String) → Submission → String
submission_text thrown_text connect_first =
    "Please connect a browser wallet provider before running the simulation."
submission_text thrown_text (completed hash) =
    str_append "Simulation completed successfully with anchor transaction hash: " hash
submission_text thrown_text (failed e) = str_append "Error during simulation: " (thrown_text e)

abbrev pub result_shown : (thrown_text : Thrown → String) → Option Submission → Nodes
result_shown thrown_text none = []
result_shown thrown_text (some s) = alert (submission_text thrown_text s) ∷ []

unfoldable pub anchor_part :
    {A Address N H : Type 0} (thrown_text : Thrown → String) → Flow A Address N H → Nodes
anchor_part thrown_text f =
    text "VerifiablePresentionV1 flow for identity credentials"
    ∷ text "Select Credential Type Source:"
    ∷ input (type_label f.claims_type) claims_type
    ∷ switch f.with_public_info public_info_switch
    ∷ text (
        if f.with_public_info
        then "Added some dummy public info to VRA anchor"
        else "No public info in VRA anchor")
    ∷ button "Submit Anchor Transaction" submit_anchor
    ∷ result_shown thrown_text f.anchoring.submission_result

-- The list of messages, an accepted one with its button if there is a proof.
abbrev pub line_nodes : (message_text : Message → String) → Button → List (Message × Bool) → Nodes
line_nodes message_text details [] = []
line_nodes message_text details ((m, has_button) ∷ ls) =
    text (message_text m) ∷ when has_button (button "View Details" details ∷ [])
    ++ line_nodes message_text details ls

module _ {P : Type 0} (message_text : Message → String) where
  unfoldable pub submit_part_v1 :
      {A Address N H : Type 0} (connected : Bool) → Flow A Address N H → Panel P → Nodes
  unfolding lines
  submit_part_v1 connected f p =
      when connected (
        switch f.use_verifier_service service_switch
        ∷ text (
            if f.use_verifier_service
            then "Use verifier service"
            else "Do not use verifier service")
        ∷ switch f.with_audit_info audit_info_switch
        ∷ text (
            if f.with_audit_info
            then "With public info in VAA anchor"
            else "No public info in VAA anchor")
        ∷ button "ProveV1" prove_v1
        ∷ [])
      ++ line_nodes message_text view_details_v1 (lines p)

  unfoldable pub submit_part : (connected : Bool) → Panel P → Nodes
  unfolding lines
  submit_part connected p =
      when connected (button "Prove" prove_v0 ∷ [])
      ++ line_nodes message_text view_details_v0 (lines p)

-- The column, without the list of statements.
unfoldable pub right :
    {A Address N H P Q : Type 0} (message_text : Message → String) (thrown_text : Thrown → String)
    (provider : Option (Option String))
    → Flow A Address N H
    → (v1 : Panel P) → (v0 : Panel Q) → Nodes
right message_text thrown_text provider f v1 v0 =
    wallets provider
    ++ statement_buttons
    ++ anchor_part thrown_text f
    ++ submit_part_v1 message_text (is_some provider) f v1
    ++ text "VerifiablePresention flow for account/web3id credentials"
      ∷ submit_part message_text (is_some provider) v0
