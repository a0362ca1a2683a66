-- ===== src/TestTool/Account.antt =====
-- The account on the page of the test tool, test-tools/issuer-front-end/src/Main.tsx: the queries
-- for it, the box for the status of transactions, and the button of WalletConnectorTypeButton.tsx.
use Prim.Native.String.{◌++◌ as str_append}
use concordium_web3id.Common.{
  String, Bool, true, false, Option, none, some, Result, ok, err, is_blank, if◌then◌else◌,
}

-- `accountBalance`, `browserPublicKey` and `viewErrorAccountBalance`.
pub record Account : Type 0 where
  pub balance : String
  pub public_key : String
  pub view_error : String

-- An account's amount as decimal digits, and the first key of its first credential: looking for it
-- throws with a message if there is none.
pub record AccountInfo : Type 0 where
  pub amount : String
  pub key : Result String String

abbrev pub failed : String → Account
failed message = record { balance = ""; public_key = ""; view_error = message }

abbrev pub read : AccountInfo → Account
read info = elim info.key [
  | ok key ↦ record { balance = info.amount; public_key = key; view_error = "" }
  | err message ↦ failed message
]

-- The answer to a query for the account, with its `catch`.
unfoldable pub answered : Result String (Option AccountInfo) → Account → Account
answered (err message) a = failed message
answered (ok none) a = record a { view_error = "" }
answered (ok (some info)) a = read info

-- What the column on the right shows of a transaction: the hint, the wallet's error or the link.
pub data Status : Type 0 where
  hint : Status
  failure : String → Status
  link : (hash url : String) → Status

unfoldable pub status : (tx_hash transaction_error : String) → Status
status tx_hash transaction_error =
    if is_blank tx_hash
    then if is_blank transaction_error then hint else failure transaction_error
    else link tx_hash
        (str_append "https://testnet.ccdscan.io/?dcount=1&dentity=transaction&dhash=" tx_hash)

-- `connectorTypeStyle`: the colours of the background and the border, if any.
unfoldable pub connector_type_style : (is_selected is_connected : Bool) → Option (String × String)
connector_type_style is_selected true = some ("#823030", "1px solid #520C0C")
connector_type_style true false = some ("#174039", "1px solid #0c221f")
connector_type_style false false = none

-- The text of `WalletConnectionTypeButton`.
unfoldable pub connector_label : (is_connected : Bool) (name : String) → String
connector_label true name = str_append "Disconnect " name
connector_label false name = str_append "Use " name
