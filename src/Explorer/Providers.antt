-- ===== src/Explorer/Providers.antt =====
-- The wallet that test-tools/proof-explorer/src/components/ProofExplorer.tsx uses: its three buttons
-- to connect, and the effect that disconnects the wallet before. Both providers are singletons, so
-- setting the one that is set already changes nothing. The disconnection that a change of the wallet
-- starts is run to its end before the next event.
pub mod Idle
use concordium_web3id.Common.{
  String, Bool, true, false, Option, none, some, List, [], ◌∷◌, Result, ok, err,
}
use concordium_web3id.Explorer.Thrown.{Thrown}
use concordium_web3id.Explorer.Browser.{BrowserWallet}
use concordium_web3id.Explorer.Browser
use concordium_web3id.Explorer.Wallet.{
  WalletConnect, disconnected, Pairing, Namespaces, connect, disconnect, session_update,
  session_delete,
}

pub data Which : Type 0 where
  browser mobile : Which

-- `provider`, the two singletons, and the errors that `toast.error` has shown, newest first.
pub record Providers : Type 0 where
  pub provider : Option Which
  pub browser_wallet : BrowserWallet
  pub wallet_connect : WalletConnect
  pub toasts : List Thrown

abbrev pub initial : Providers
initial = record {
  provider = none;
  browser_wallet = record { connected_account = none; emitted = [] };
  wallet_connect = disconnected;
  toasts = [];
}

-- The effect's cleanup for the provider before; the Browser Wallet has no `disconnect`.
unfoldable pub cleanup : Which → Result Thrown (Unit {0}) → Providers → Providers
unfolding disconnect
cleanup browser answer p = p
cleanup mobile answer p = record p { wallet_connect = (disconnect answer p.wallet_connect).0 }

-- `setProvider`, and the effect if the provider has changed; `answer` is how a disconnection ends.
unfoldable pub set_provider : Which → Result Thrown (Unit {0}) → Providers → Providers
unfolding cleanup
set_provider browser answer p = elim p.provider [
  | some mobile ↦ cleanup mobile answer (record p { provider = some browser })
  | some browser ↦ p
  | none ↦ record p { provider = some browser }
]
set_provider mobile answer p = elim p.provider [
  | some browser ↦ cleanup browser answer (record p { provider = some mobile })
  | some mobile ↦ p
  | none ↦ record p { provider = some mobile }
]

-- The button for the Browser Wallet behind `connect`, with its `catch`.
abbrev pub browser_connected :
    Result Thrown (Unit {0}) → BrowserWallet × Result Thrown (List String) → Providers → Providers
browser_connected answer (w, ok accounts) p =
    set_provider browser answer (record p { browser_wallet = w })
browser_connected answer (w, err thrown) p = record p {
  browser_wallet = w;
  toasts = thrown ∷ p.toasts;
}

-- The two buttons for mobile wallets: an error is not caught, and the provider is set even if the
-- wallet has given no account.
abbrev pub mobile_connected :
    Result Thrown (Unit {0})
    → WalletConnect × Result Thrown (Option (List String))
    → Providers
    → Providers
mobile_connected answer (w, ok accounts) p =
    set_provider mobile answer (record p { wallet_connect = w })
mobile_connected answer (w, err thrown) p = record p { wallet_connect = w }

pub data Event : Type 0 where
  browser_clicked : Result Thrown (List String) → Result Thrown (Unit {0}) → Event
  mobile_clicked : (use_old : Bool) → Result Thrown Pairing → Result Thrown (Unit {0}) → Event
  session_updated : Namespaces → Event
  session_deleted : Event

unfoldable pub react : Event → Providers → Providers
unfolding set_provider connect session_update session_delete Browser.connect
react (browser_clicked accounts answer) p =
    browser_connected answer (Browser.connect accounts p.browser_wallet) p
react (mobile_clicked use_old pairing answer) p =
    mobile_connected answer (connect use_old pairing p.wallet_connect) p
react (session_updated ns) p = record p { wallet_connect = session_update ns p.wallet_connect }
react session_deleted p = record p { wallet_connect = session_delete p.wallet_connect }

abbrev pub react_all : List Event → Providers → Providers
react_all [] p = p
react_all (v ∷ vs) p = react_all vs (react v p)
