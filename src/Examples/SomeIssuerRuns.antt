-- ===== src/Examples/SomeIssuerRuns.antt =====
-- Tests of the example issuer.
use concordium_web3id.Common.{
  ◌≡◌, ◌↔◌, refl, String, none, some, List, [], ◌∷◌, ◌++◌, Result, ok, All,
}
use concordium_web3id.SomeIssuer.Issuance.{
  Request, discord, Site, IssueRequest, Response, issued, Wallet, NodeAnswer, finalized, not_found,
  returned, wait, request_credential, notified, on_submit, on_finalized,
}
use concordium_web3id.SomeIssuer.Issuance.Waiting.{unknown, wait_ends}
use concordium_web3id.SomeIssuer.Issuance.Outcome.{
  shown, blank, done_with, IsIssued, request_credential_shown_iff,
}
use concordium_web3id.SomeIssuer.Toast
use concordium_web3id.SomeIssuer.Toast.Seconds.{waiting}
use concordium_web3id.SomeIssuer.Discord.{
  Message, success, open_discord_verification, on_discord_window_message,
}
use concordium_web3id.SomeIssuer.Discord.Session.{
  Event, react, opened, received, accepted, logins, IsAnswer, accepted_safe,
}

wait_ends_example : wait (unknown 3 ++ finalized ∷ []) ≡ (returned, 4)
wait_ends_example = wait_ends 3 finalized [] refl

abbrev holder : String
holder = "1fd2a5"

abbrev site : Site
site = record {
  url = "https://issuer.example.org/";
  network = "testnet";
  index = "5463";
  subindex = "0";
}

abbrev request : Request String
request = discord "182" "someone"

abbrev server : IssueRequest String → Response String
server r = issued "c0ffee" r.holder_id

abbrev wallet : Wallet String
wallet = record { offer = λ c url. ok "did:ccd:testnet:pkc:1fd2a5"; receive = λ proof. ok tt }

abbrev node : String → List NodeAnswer
node tx_hash = not_found ∷ finalized ∷ []

abbrev connected : Result String (Wallet String)
connected = ok wallet

request_credential_shown_iff_example :
    (shown (request_credential site "now" "later" request connected server node).notices blank
      ≡ done_with "c0ffee")
    ↔ ((w : Wallet String) × (connected ≡ ok w)
        × IsIssued site "now" "later" request server w "c0ffee"
        × ((wait (node "c0ffee")).0 ≡ returned))
request_credential_shown_iff_example =
    request_credential_shown_iff site "now" "later" request server connected node "c0ffee"

-- Two requests at once: the first one's finalization is shown for the second one's transaction.
mixed_up_test :
    shown (on_submit "first" ∷ on_submit "second" ∷ on_finalized ∷ []) blank ≡ done_with "second"
unfolding notified
mixed_up_test = refl

abbrev answer : Message
answer = record {
  source = 1;
  origin = "https://issuer.example.org";
  state = some "V1StGXR8";
  content = success "182" "someone";
}

abbrev session : List Event
session = opened "V1StGXR8" (some 1) ∷ received answer ∷ []

accepted_safe_example :
    All
      (IsAnswer site.url (logins session))
      (accepted site.url session (record { oauth2_state = none; oauth_window = none }))
accepted_safe_example = accepted_safe site.url session

-- The state is not used up: the same message makes a second request.
abbrev replayed : List Event
replayed = opened "V1StGXR8" (some 1) ∷ received answer ∷ received answer ∷ []

replayed_test :
    accepted site.url replayed (record { oauth2_state = none; oauth_window = none })
    ≡ answer ∷ answer ∷ []
unfolding accepted react open_discord_verification on_discord_window_message
replayed_test = refl

-- The seconds of the first transaction do not count for the second.
toast_run :
    Toast.status_toast "testnet" (
      Toast.react_all
        (Toast.noticed (on_submit "0123456789ab")
          ∷ Toast.second_passed
          ∷ Toast.noticed on_finalized
          ∷ Toast.second_passed
          ∷ Toast.noticed (on_submit "89abcdef0123")
          ∷ waiting 2)
        Toast.initial)
    ≡ Toast.body
        (Toast.scan_url "testnet" "89abcdef0123")
        "89abcdef01"
        (some "Awaiting finalization: ..")
unfolding Toast.status_toast Toast.react Toast.notice notified
toast_run = refl
