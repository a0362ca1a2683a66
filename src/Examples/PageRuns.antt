-- ===== src/Examples/PageRuns.antt =====
-- Tests of the example verifier's page.
use concordium_web3id.Common.{
  ◌≡◌, ◌↔◌, refl, String, true, false, none, some, List, [], ◌∷◌, Result, ok,
}
use concordium_web3id.SomeVerifier.Proofs.{Issuer, Call, request_proof}
use concordium_web3id.SomeVerifier.Page.{
  Page, initial, too_few, with_checked, issuers_of, change_telegram, set_checked, submit_handler,
}
use concordium_web3id.SomeVerifier.Page.Prove.{PostAnswer, accepted, verified, prove}
use concordium_web3id.SomeIssuer.Issuance.{
  Request, telegram, discord, IssueRequest, Response, issued, Wallet, NodeAnswer, finalized, wait,
  returned,
}
use concordium_web3id.SomeIssuer.Issuance.Outcome.{IsIssued}
use concordium_web3id.SomeIssuer.Discord.{success}
use concordium_web3id.SomeVerifier.Logins.{
  Logins, site_of, request_credential, telegram_login, on_discord_window_message,
}
use concordium_web3id.SomeVerifier.Logins.Session.{telegram_login_iff}
use concordium_web3id.SomeVerifier.Page.Session.{
  Event, submitted, telegram_changed, react, react_all,
}
use concordium_web3id.SomeVerifier.Page.Verified.{IsProved, prove-verified}

abbrev events : List Event
events = telegram_changed ∷ submitted ∷ []

abbrev page : Page
page = with_checked true true true initial

session_run : (react_all events initial).proof_error ≡ too_few
unfolding initial react change_telegram set_checked submit_handler
session_run = refl

abbrev platform_issuer : String → Issuer
platform_issuer index = record { url = "https://example.org"; index = index; subindex = "0" }

abbrev address : String → String → Result String String
address index subindex = ok index

abbrev all_calls : List (Call String) → List (Call String)
all_calls calls = calls

abbrev wallet : String → String → List (Call String) → Result String String
wallet api challenge calls = ok challenge

abbrev hashed : String → String
hashed timestamp = "sha256"

abbrev agreeing : String → String → PostAnswer
agreeing proof timestamp = accepted

prove_run :
    prove address all_calls wallet hashed agreeing
      (platform_issuer "5463")
      (platform_issuer "5464")
      page
      (ok "api")
      "2024-01-01"
    ≡ some verified
unfolding prove initial request_proof issuers_of
prove_run = refl

prove-verified_example :
    IsProved address all_calls wallet hashed agreeing
      (platform_issuer "5463")
      (platform_issuer "5464")
      page
      (ok "api")
      "2024-01-01"
prove-verified_example =
    prove-verified address all_calls wallet hashed agreeing (platform_issuer "5463")
      (platform_issuer "5464") page (ok "api") "2024-01-01" prove_run

abbrev logins : Logins
logins = record { page = initial; telegram_pending = false; discord_pending = false }

abbrev login : Request String
login = telegram "user" "182" "someone"

abbrev server : IssueRequest String → Response String
server r = issued "c0ffee" r.holder_id

abbrev credential_wallet : Result String (Wallet String)
credential_wallet =
    ok (record { offer = λ c url. ok "did:ccd:testnet:pkc:1fd2a5"; receive = λ proof. ok tt })

abbrev node : String → List NodeAnswer
node tx_hash = finalized ∷ []

not_yet : initial.telegram_issued ≡ false
unfolding initial
not_yet = refl

telegram_login_iff_example :
    ((telegram_login
        (request_credential "testnet"
          (platform_issuer "5463")
          "now"
          "later"
          login
          credential_wallet
          server
          node)
        logins).page.telegram_issued
      ≡ true)
    ↔ ((w : Wallet String) × (tx_hash : String) × (credential_wallet ≡ ok w)
        × IsIssued (site_of "testnet" (platform_issuer "5463")) "now" "later" login server w tx_hash
        × ((wait (node tx_hash)).0 ≡ returned))
telegram_login_iff_example =
    telegram_login_iff "testnet" (platform_issuer "5463") "now" "later" login server
      credential_wallet node logins not_yet

-- Without a login a message without a state is taken for the answer to one.
stateless_test :
    on_discord_window_message {T = String} "https://example.org/" none
      (record { origin = "https://example.org"; state = none; content = success "182" "someone" })
    ≡ ok (some (discord "182" "someone"))
unfolding on_discord_window_message
stateless_test = refl
