-- ===== src/IssuerApp/Shell.antt =====
-- issuer-front-end/src/Main.tsx: what step 3 of the page draws, from what the hooks of
-- `@concordium/react-components` give and the account as the node knows it.
use Prim.Native.String.{◌++◌ as str_append}
use concordium_web3id.Common.{
  String, Bool, not, ◌&&◌, Option, none, some, List, [], ◌∷◌, ◌++◌, is_blank, if◌then◌else◌,
}
use concordium_web3id.IssuerApp.Balance.{Account, show_balance}

-- The connector's error and the error of connecting (blank for none), whether a connector's type is
-- chosen and a connector is loaded, whether the Browser Wallet is connected, whether there is a
-- connection, its account, and the network's name.
pub record Wallet : Type 0 where
  pub connector_error : String
  pub has_connector_type : Bool
  pub has_connector : Bool
  pub connect_error : String
  pub is_connected : Bool
  pub has_connection : Bool
  pub account : Option String
  pub network : String

pub data Element : Type 0 where
  connector_failed : String → Element
  loading_connector : Element
  connect_failed : String → Element
  connect_button : Element
  wrong_network : (network other : String) → Element
  account_link : (account url : String) → Element
  balance : String → Element
  balance_failed : String → Element
  deploy_form : (account : String) (is_testnet : Bool) → Element

-- `{test && element}`
abbrev pub shown_if : Bool → Element → List Element
shown_if test e = if test then e ∷ [] else []

-- The address of an account in CCDScan.
abbrev pub scan_url : Bool → String → String
scan_url is_testnet account = str_append "https://" (
    str_append (if is_testnet then "testnet." else "")
      (str_append "ccdscan.io/?dcount=1&dentity=account&daddress=" account))

-- The part above the account.
unfoldable pub top : (is_testnet : Bool) → Wallet → Account → List Element
top is_testnet w a =
    shown_if (not (is_blank w.connector_error)) (connector_failed w.connector_error)
    ++ shown_if (is_blank w.connector_error && w.has_connector_type && not w.has_connector)
        loading_connector
    ++ shown_if (not (is_blank w.connect_error)) (connect_failed w.connect_error)
    ++ shown_if (not w.is_connected) connect_button
    ++ shown_if (w.has_connection && not a.exists)
        (wrong_network w.network (if is_testnet then "mainnet" else "testnet"))

unfoldable pub account_part : (is_testnet : Bool) → Wallet → Account → List Element
unfolding show_balance
account_part is_testnet w a = elim w.account [
  | none ↦ []
  | some account ↦
      if w.has_connection
      then account_link account (scan_url is_testnet account)
          ∷ balance (show_balance a.balance)
          ∷ shown_if (not (is_blank a.view_error)) (balance_failed a.view_error)
        ++ shown_if w.is_connected (deploy_form account is_testnet)
      else []
]

-- `Main`
unfoldable pub main : (is_testnet : Bool) → Wallet → Account → List Element
unfolding top account_part
main is_testnet w a = top is_testnet w a ++ account_part is_testnet w a
