-- ===== src/SomeVerifier/Page/Prove.antt =====
-- `prove` of examples/some-verifier/frontend/src/components/Verify.tsx and `concordiumProvider` of
-- App.tsx. `hash`, the wallet, the SDK's addresses and statements, and the server come in as
-- functions; `timestamp` is the time as text.
use concordium_web3id.Common.{
  String, Bool, true, false, Option, none, some, List, Result, ok, err, ltb, if◌then◌else◌,
}
use concordium_web3id.SomeVerifier.Proofs.{
  Issuer, Call, request_proof, ConnectionErrorCode, not_found, rejected,
}
use concordium_web3id.SomeVerifier.Page.{
  Page, checked_count, with_error, with_open, too_few, check_step, issuers_of,
}

-- The server's answer to a proof: `text_read` is whether the body of a rejection is read.
pub data PostAnswer : Type 0 where
  accepted : PostAnswer
  refused : (text_read : Bool) → PostAnswer
  no_answer : PostAnswer

-- How `prove` ends once two options are set.
pub data Outcome : Type 0 where
  no_wallet : ConnectionErrorCode → Outcome
  creation_failed : Outcome
  proof_rejected : Outcome
  verified : Outcome

-- What follows the server's answer.
abbrev pub posted : PostAnswer → Outcome
posted accepted = verified
posted (refused true) = proof_rejected
posted (refused false) = creation_failed
posted no_answer = creation_failed

module _ {Address Thrown S P Api : Type 0}
    (create_address : String → String → Result Thrown Address)
    (get_statements : List (Call Address) → S)
    (request_verifiable_presentation : Api → String → S → Result Thrown P) (hash : String → String)
    (post : P → (timestamp : String) → PostAnswer) (telegram discord : Issuer) where
  -- `prove`, for the options that are set when it is pressed and the time at which the wallet is
  -- there: nothing if fewer than two options are set.
  unfoldable pub prove :
      Page → (provider : Result ConnectionErrorCode Api) → (timestamp : String) → Option Outcome
  prove p provider timestamp = if ltb (checked_count p) 2 then none else elim provider [
    | err code ↦ some (no_wallet code)
    | ok api ↦
        elim (request_proof create_address get_statements (request_verifiable_presentation api)
          (issuers_of telegram discord p) (hash timestamp) p.full_name_checked true) [
            | err thrown ↦ some creation_failed
            | ok proof ↦ some (posted (post proof timestamp))
          ]
  ]

-- What `prove` does to the page at once.
unfoldable pub pressed : Page → Page
pressed p = if ltb (checked_count p) 2 then with_error too_few p else p

-- The message of a `ConnectionError`.
abbrev pub connection_message : ConnectionErrorCode → String
connection_message not_found = "Wallet not found"
connection_message rejected = "Wallet connection rejected by user"

-- What `prove` does to the page as it ends; a rejection whose body is not read sets its own message
-- first, which the other one replaces.
unfoldable pub proved : Outcome → Page → Page
proved (no_wallet code) p = with_error (connection_message code) p
proved creation_failed p = with_error "Proof creation failed." p
proved proof_rejected p = with_error "The proof was rejected." p
proved verified p = with_open (some check_step) (with_error "" p)

-- `concordiumProvider` of App.tsx: the wallet that was connected before, or a new connection; a
-- wallet that is not found opens the dialog.
pub record App (Api : Type 0) : Type 0 where
  pub wallet_api : Option Api
  pub show_modal : Bool

unfoldable pub concordium_provider :
    {Api : Type 0}
    → Result ConnectionErrorCode Api
    → App Api
    → App Api × Result ConnectionErrorCode Api
concordium_provider connected a = elim a.wallet_api [
  | some api ↦ (a, ok api)
  | none ↦ elim connected [
    | ok api ↦ (record { wallet_api = some api; show_modal = a.show_modal }, ok api)
    | err not_found ↦ (record { wallet_api = none; show_modal = true }, err not_found)
    | err rejected ↦ (a, err rejected)
  ]
]
