-- ===== src/Explorer/Wallet.antt =====
-- test-tools/proof-explorer/src/services/wallet-connection.ts: the provider over WalletConnect. What the
-- wallet libraries answer (`SignClient`, `WalletApi`) comes in as arguments; a provider's state holds
-- its fields and the `accountChanged` events that it emitted, newest first.
pub mod Sessions
use mathlib.Core.Option
use concordium_web3id.Common.{
  ℕ, String, Bool, true, false, not, Option, none, some, List, [], ◌∷◌, Result, ok, err, ◌>>=◌,
  if◌then◌else◌, is_blank, str_eq,
}
use concordium_web3id.Explorer.Thrown.{Thrown, error, rethrow}

abbrev pub chain_id : String
chain_id = "ccd:4221332d34e1694168c2a0c0b3fd0f27"

abbrev pub chain_id_old : String
chain_id_old = "ccd:testnet"

abbrev pub namespace : String
namespace = "ccd"

abbrev pub method_v0 : String
method_v0 = "request_verifiable_presentation"

abbrev pub method_v1 : String
method_v1 = "request_verifiable_presentation_v1"

-- `if (x)` for `x: string | undefined`: a text that is there and not empty.
abbrev pub truthy : Option String → Option String
truthy none = none
truthy (some s) = if is_blank s then none else some s

-- `s.split(':')`
split_colon : String → List String
split_colon String.[] = "" ∷ []
split_colon (String.◌∷◌ c s) = elim (split_colon s) [
  | [] ↦ []
  | p ∷ ps ↦ if str_eq (String.◌∷◌ c String.[]) ":" then "" ∷ p ∷ ps else (String.◌∷◌ c p) ∷ ps
]

-- `[, , account]`
abbrev third : List String → Option String
third (a ∷ b ∷ c ∷ rest) = some c
third _ = none

-- The accounts of each namespace of a session.
abbrev pub Namespaces : Type 0
Namespaces = List (String × List String)

abbrev find : String → Namespaces → Option (List String)
find k [] = none
find k ((j, v) ∷ m) = if str_eq j k then some v else find k m

-- `getAccount`: a session without the namespace, or without accounts, is a TypeError.
unfoldable pub get_account : Namespaces → Result Thrown (Option String)
unfolding split_colon
get_account ns = elim (find namespace ns) [
  | some (a ∷ rest) ↦ ok (third (split_colon a))
  | _ ↦ err (error "Cannot read properties of undefined")
]

-- `WalletConnectProvider`, with whether its QR code is on display.
pub record WalletConnect : Type 0 where
  pub connected_account : Option String
  pub topic : Option String
  pub chain : String
  pub emitted : List (Option String)
  pub qr_open : Bool

-- After the constructor.
abbrev pub disconnected : WalletConnect
disconnected = record {
  connected_account = none;
  topic = none;
  chain = chain_id;
  emitted = [];
  qr_open = false;
}

-- `onAccountChanged`
abbrev pub on_account_changed : Option String → WalletConnect → WalletConnect
on_account_changed account w = record w {
  connected_account = account;
  emitted = account ∷ w.emitted;
}

pub record Session : Type 0 where
  pub namespaces : Namespaces
  pub topic : String

-- `client.connect`: a URI to show, and how the approval ends.
pub record Pairing : Type 0 where
  pub uri : Option String
  pub approval : Result Thrown Session

abbrev accounts : Option String → Option (List String)
accounts account = Option.map (λ a. a ∷ []) account

-- The part of `connect` behind `await approval()`.
abbrev pub approved : Session → WalletConnect → WalletConnect × Result Thrown (Option (List String))
approved session w = elim (get_account session.namespaces) [
  | err e ↦ (w, err e)
  | ok account ↦ (
    record w { connected_account = account; topic = some session.topic; qr_open = false },
    ok (accounts account),
  )
]

-- `connect(methods, useOldWalletConnectConstants)`
unfoldable pub connect :
    Bool
    → Result Thrown Pairing
    → WalletConnect
    → WalletConnect × Result Thrown (Option (List String))
connect use_old answer w₀ =
    let w = record w₀ { chain = if use_old then chain_id_old else chain_id } in
    elim answer [
      | err e ↦ (w, err e)
      | ok pairing ↦ elim (truthy pairing.uri) [
        | none ↦ (w, ok (accounts w.connected_account))
        | some uri ↦ elim pairing.approval [
          | err e ↦ (record w { qr_open = true }, err e)
          | ok session ↦ approved session (record w { qr_open = true })
        ]
      ]
    ]

-- The argument of `client.request`.
pub record Request (P : Type 0) : Type 0 where
  pub topic : String
  pub method : String
  pub chain : String
  pub params : P

-- `requestVerifiablePresentation` and `requestVerifiablePresentationV1`, by their method: what is
-- sent, if anything, and what the caller gets. `decode` is the web SDK's parser of the answer, which
-- runs inside the `try`.
abbrev pub request :
    {P J A : Type 0}
    → String
    → (J → Result Thrown A)
    → P
    → (Request P → Result Thrown J)
    → WalletConnect
    → Option (Request P) × Result Thrown A
request {P} method decode params client w = elim (truthy w.topic) [
  | none ↦ (none, err (error "No connection"))
  | some topic ↦ elim (truthy w.connected_account) [
    | none ↦ (none, err (error "No connected account to send transaction."))
    | some account ↦
        let sent : Request P = record {
          topic = topic;
          method = method;
          chain = w.chain;
          params = params;
        } in
        (some sent, elim (client sent >>= decode) [ ok a ↦ ok a | err e ↦ rethrow e ])
  ]
]

module _ {P J A : Type 0} where
  unfoldable pub request_verifiable_presentation :
      (J → Result Thrown A)
      → P
      → (Request P → Result Thrown J)
      → WalletConnect
      → Option (Request P) × Result Thrown A
  request_verifiable_presentation = request method_v0

  unfoldable pub request_verifiable_presentation_v1 :
      (J → Result Thrown A)
      → P
      → (Request P → Result Thrown J)
      → WalletConnect
      → Option (Request P) × Result Thrown A
  request_verifiable_presentation_v1 = request method_v1

-- `disconnect`, with how `client.disconnect` ends.
unfoldable pub disconnect :
    Result Thrown (Unit {0}) → WalletConnect → WalletConnect × Result Thrown (Unit {0})
disconnect answer w = elim w.topic [
  | none ↦ (w, ok tt)
  | some t ↦ elim answer [
    | err e ↦ (w, err e)
    | ok done ↦
        (on_account_changed none (record w { connected_account = none; topic = none }), ok tt)
  ]
]

-- The listeners that the constructor registers: an update whose namespaces cannot be read throws.
unfoldable pub session_update : Namespaces → WalletConnect → WalletConnect
session_update ns w = elim (get_account ns) [
  | err e ↦ w
  | ok account ↦ on_account_changed account w
]

unfoldable pub session_delete : WalletConnect → WalletConnect
session_delete w = on_account_changed none (record w { topic = none })
