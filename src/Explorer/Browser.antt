-- ===== src/Explorer/Browser.antt =====
-- `BrowserWalletProvider` of test-tools/proof-explorer/src/services/wallet-connection.ts: the account
-- that it keeps and the `accountChanged` events that it emits, newest first. What the extension's API
-- answers comes in as arguments; its two requests for a presentation are handed on unchanged.
use concordium_web3id.Common.{String, Option, none, some, List, [], ◌∷◌, Result, ok, err}

pub record BrowserWallet : Type 0 where
  pub connected_account : Option String
  pub emitted : List (Option String)

-- `onAccountChanged`
abbrev pub changed : Option String → BrowserWallet → BrowserWallet
changed account w = record { connected_account = account; emitted = account ∷ w.emitted }

-- The listener of `accountChanged`.
unfoldable pub account_changed : String → BrowserWallet → BrowserWallet
account_changed account w = changed (some account) w

-- The listener of `accountDisconnected`, with the account that the extension selected last; nothing
-- happens if the extension does not tell.
unfoldable pub account_disconnected :
    {E : Type 0} → Result E (Option String) → BrowserWallet → BrowserWallet
account_disconnected (ok newest) w = changed newest w
account_disconnected (err thrown) w = w

abbrev pub head : List String → Option String
head [] = none
head (a ∷ rest) = some a

-- `connect` keeps the first account and emits nothing.
unfoldable pub connect :
    {E : Type 0} → Result E (List String) → BrowserWallet → BrowserWallet × Result E (List String)
connect (ok accounts) w =
    (record { connected_account = head accounts; emitted = w.emitted }, ok accounts)
connect (err thrown) w = (w, err thrown)
