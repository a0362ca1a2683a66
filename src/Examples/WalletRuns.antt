-- ===== src/Examples/WalletRuns.antt =====
-- Tests of the wallet providers.
use concordium_web3id.Common.{
  ◌≡◌, ◌↔◌, String, true, false, none, some, [], ◌∷◌, refl, ok, err, Result,
}
use concordium_web3id.Explorer.Thrown.{Thrown, error_object, error}
use concordium_web3id.Explorer.Wallet.{
  get_account, WalletConnect, Request, disconnected, chain_id, method_v0, method_v1,
  request_verifiable_presentation, request_verifiable_presentation_v1,
}
use concordium_web3id.Explorer.Wallet.Sessions.{
  IsCarried, request_sent_iff, Event, connecting, deleted, happen, happen_all,
  no_request_when_closed,
}

abbrev same_text : String → Result Thrown String
same_text s = ok s

abbrev refusing : Request String → Result Thrown String
refusing r = err (error_object true "declined")

abbrev approving : Event
approving = connecting false (
    ok (record {
      uri = some "wc:1";
      approval = ok (record { namespaces = ("ccd", "ccd:testnet:3xyz" ∷ []) ∷ []; topic = "t1" });
    }))

abbrev live : WalletConnect
live = record {
  connected_account = some "3xyz";
  topic = some "t1";
  chain = chain_id;
  emitted = [];
  qr_open = false;
}

live_run : happen_all (approving ∷ []) disconnected ≡ live
unfolding happen get_account
live_run = refl

abbrev request_of_live : Request String
request_of_live = record { topic = "t1"; method = method_v0; chain = chain_id; params = "p" }

request_sent_iff_example :
    let w = happen_all (approving ∷ []) disconnected in
    (((request_verifiable_presentation same_text "p" refusing w).0 ≡ some request_of_live)
      ↔ IsCarried method_v0 chain_id "p" w request_of_live)
    × (((request_verifiable_presentation_v1 same_text "p" refusing w).0 ≡ some request_of_live)
        ↔ IsCarried method_v1 chain_id "p" w request_of_live)
request_sent_iff_example = request_sent_iff same_text "p" refusing (approving ∷ []) request_of_live

abbrev rejected : Event
rejected = connecting true (ok (record { uri = some "wc:2"; approval = err (error "no") }))

no_request_when_closed_example :
    let w =
      happen_all (rejected ∷ []) (happen deleted (happen_all (approving ∷ []) disconnected)) in
    (request_verifiable_presentation same_text "p" refusing w ≡ (none, err (error "No connection")))
    × (request_verifiable_presentation_v1 same_text "p" refusing w
        ≡ (none, err (error "No connection")))
no_request_when_closed_example =
    no_request_when_closed same_text "p" refusing (approving ∷ []) (rejected ∷ []) deleted tt
      ((λ s. cc), tt)
