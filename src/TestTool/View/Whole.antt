-- ===== src/TestTool/View/Whole.antt =====
-- The whole page of test-tools/issuer-front-end/src/Main.tsx: the boxes on the left, drawn if the
-- wallet is connected, and the column on the right, both only if there is an account.
use Prim.Native.String.{◌++◌ as str_append}
use concordium_web3id.Registry.Types.{Index}
use concordium_web3id.Common.{String, not, List, [], ◌∷◌, ◌++◌, is_blank, none, some, if◌then◌else◌}
use concordium_web3id.Common.View.{text, link, error_alert, when}
use concordium_web3id.TestTool.Account.{Account, Status, hint, failure, status}
use concordium_web3id.TestTool.Account
use concordium_web3id.IssuerApp.Balance.{show_balance}
use concordium_web3id.TestTool.Contract.{Metadata}
use concordium_web3id.TestTool.View.{Screen, Nodes, error_of}
use concordium_web3id.TestTool.View.Issuer.{top, keys_box, issuer_box, contract_box}
use concordium_web3id.TestTool.View.Credential.{
  regular_box, delayed_box, wrong_proof_box, wrong_attributes_box,
}
use concordium_web3id.TestTool.View.Entries.{
  entry_box, revoke_box, restore_box, issuer_metadata_box, schema_box, credential_metadata_box,
}

abbrev explorer_url : (entity key value : String) → String
explorer_url entity key value =
    str_append "https://testnet.ccdscan.io/?dcount=1&dentity="
      (str_append entity (str_append "&" (str_append key (str_append "=" value))))

-- The box for transactions: the hint or the error, and the link that follows the other errors.
abbrev pub hint_or_error : Status → Nodes
hint_or_error hint =
    text
      "IMPORTANT: After pressing a button on the left side that should send a transaction, the transaction hash or error returned by the wallet are displayed HERE."
    ∷ []
hint_or_error (failure message) = error_alert message ∷ []
hint_or_error (Account.link hash url) = []

abbrev pub link_of : Status → Nodes
link_of (Account.link hash url) = link hash url ∷ []
link_of _ = []

abbrev pub concat : List Nodes → Nodes
concat [] = []
concat (ns ∷ nss) = ns ++ concat nss

module _ {Keys State : Type 0} (show : Index → String) (show_keys : Keys → String)
    (show_state : State → String) (show_metadata : Metadata → String) where
  -- The column on the right; its amount has the points of the issuer front end.
  unfoldable pub column : Screen Keys State → Nodes
  unfolding status show_balance
  column s =
      let st = status s.shown.tx_hash s.shown.transaction_error in
      text "Connected account:"
        ∷ link s.account (explorer_url "account" "daddress" s.account)
        ∷ text "Your public key:"
        ∷ text s.balance.public_key
        ∷ text "Your account balance:"
        ∷ text (str_append (show_balance s.balance.balance) " CCD")
        ∷ text (
            str_append "Error or Transaction status"
              (if is_blank s.shown.tx_hash then ":" else " (May take a moment to finalize):"))
        ∷ hint_or_error st
      ++ error_of s.balance.view_error
      ++ error_of s.contract.view_error
      ++ link_of st
      ++ text "Smart contract state:"
        ∷ text (elim s.contract.smart_contract_state [ none ↦ "\"\"" | some m ↦ show_metadata m ])
        ∷ []

  -- The boxes on the left.
  abbrev pub boxes : Screen Keys State → List Nodes
  boxes s =
      keys_box show_keys s.fields s.keys
      ∷ issuer_box s.fields s.form
      ∷ contract_box show s.contract.index s.contract.fetching_error
      ∷ regular_box s.fields s.contract s.shown
      ∷ entry_box show_state s.fields s.entry
      ∷ revoke_box s.fields
      ∷ restore_box s.fields
      ∷ issuer_metadata_box s.fields
      ∷ schema_box s.fields
      ∷ credential_metadata_box s.fields
      ∷ (text "Negative Test Scenarios" ∷ delayed_box s.fields s.contract s.shown)
      ∷ wrong_proof_box s.fields s.contract s.shown
      ∷ wrong_attributes_box s.fields s.shown
      ∷ []

  unfoldable pub left : Screen Keys State → Nodes
  left s = concat (boxes s)

  unfoldable pub main : Screen Keys State → Nodes
  main s =
      top s.connected s.connector
      ++ when (not (is_blank s.account)) (when s.connected (left s) ++ column s)
      ++ link "Source code"
          "https://github.com/Concordium/concordium-web3id/tree/main/test-tools/issuer-front-end"
        ∷ []
