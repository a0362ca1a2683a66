-- ===== src/TestTool/View/Issuer.antt =====
-- The top of the test tool's page and its boxes for an issuer: steps 1 to 3 of
-- test-tools/issuer-front-end/src/Main.tsx. `show` is a number in a template, `show_keys` the
-- runtime's `JSON.stringify`.
use concordium_web3id.Registry.Types.{Index}
use concordium_web3id.Common.{
  String, Bool, not, ◌&&◌, Option, none, some, List, [], ◌∷◌, ◌++◌, map, is_blank, is_empty,
  if◌then◌else◌,
}
use Prim.Native.String.{◌++◌ as str_append}
use concordium_web3id.Common.View.{text, input, action, button, alert, when}
use concordium_web3id.TestTool.Buttons.{Form}
use concordium_web3id.TestTool.Account.{connector_label}
use concordium_web3id.TestTool.Fields.{
  Fields, seed, issuer_meta_data, credential_type, credential_schema,
}
use concordium_web3id.TestTool.View.{
  own, Connector, revocation_key, contract_index, select_connector, connect, create_issuer_keys,
  create_new_issuer, add_key, clear_keys, Nodes, test_box, labelled, error_of,
}

-- `{connectError && …}` and `{activeConnectorError && …}`
abbrev connector_errors : Connector → Nodes
connector_errors c =
    when (not (is_blank c.error))
      (alert (str_append "Connector Error: " (str_append c.error ".")) ∷ [])
    ++ when (is_blank c.error && c.has_type && not c.has_connector)
        (text "Loading connector..." ∷ [])
    ++ when (not (is_blank c.connect_error))
        (alert (str_append "Connect Error: " (str_append c.connect_error ".")) ∷ [])

-- The label of the button that connects.
abbrev pub connect_label : Connector → String
connect_label c =
    if c.is_connecting
    then "Connecting..."
    else if c.is_browser_wallet
    then "Connect Browser Wallet"
    else ""

-- Whether the page has the button that connects.
abbrev pub can_connect : (connected : Bool) → Connector → Bool
can_connect connected c = not connected && c.has_type && c.has_connector

unfoldable pub top : (connected : Bool) → Connector → Nodes
top connected c =
    text "Web3ID Testing Front End"
      ∷ action (connector_label connected "Browser Wallet") c.is_disabled select_connector
      ∷ connector_errors c
    ++ when (can_connect connected c) (button (connect_label c) connect ∷ [])

module _ {Keys : Type 0} (show_keys : Keys → String) where
  abbrev pub keys_shown : Option Keys → Nodes
  keys_shown none = []
  keys_shown (some ks) = text "Issuer Keys:" ∷ text (show_keys ks) ∷ []

  -- Step 1.
  unfoldable pub keys_box : Fields → Option Keys → Nodes
  keys_box fs keys = test_box "Step 1: Create Issuer Keys" (
      labelled "Add `Seed`:" seed fs
      ++ button "Create Issuer Keys" create_issuer_keys ∷ keys_shown keys)

-- The keys that were added.
abbrev added_keys : List String → Nodes
added_keys ks =
    when (not (is_empty ks))
      (text "You have added the following `revocationKeys`:" ∷ map (λ k. text k) ks)

-- Step 2.
unfoldable pub issuer_box : Fields → Form → Nodes
issuer_box fs form = test_box "Step 2: Create New Issuer" (
    labelled "Add `IssuerMetadata`:" issuer_meta_data fs
    ++ labelled "Add `CredentialType`:" credential_type fs
    ++ labelled "Add `CredentialSchema`:" credential_schema fs
    ++ added_keys form.revocation_keys
    ++ error_of form.user_input_error
    ++ text "Add `RevocationKeys`:"
      ∷ input form.revocation_key_input (own revocation_key)
      ∷ button "Add" add_key
      ∷ button "Clear" clear_keys
      ∷ button "Create New Issuer" create_new_issuer
      ∷ [])

abbrev pub index_text : (show : Index → String) → Option Index → String
index_text show none = ""
index_text show (some n) = show n

abbrev pub index_note : (show : Index → String) → Option Index → Nodes
index_note show none = []
index_note show (some n) =
    text "You will be using this registry contract index:" ∷ text (show n) ∷ []

-- Step 3.
unfoldable pub contract_box :
    (show : Index → String) (index : Option Index) (fetching_error : String) → Nodes
contract_box show index fetching_error = test_box "Step 3: Input Smart Contract Index" (
    text "Input smart contract index created in the above step:"
      ∷ input (index_text show index) contract_index
      ∷ index_note show index
    ++ error_of fetching_error)
