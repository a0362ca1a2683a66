-- ===== src/Examples/FlowRuns.antt =====
-- Tests of the proof explorer's V1 flow.
use concordium_web3id.Common.{
  ◌≡◌, refl, String, none, some, List, [], ◌∷◌, ok, err, Result, true, false,
}
use concordium_web3id.Explorer.Types.{account_or_identity_claims, TopLevelStatement}
use concordium_web3id.Explorer.Claims.{get_subject_claims}
use concordium_web3id.Explorer.Statements.{start}
use concordium_web3id.Explorer.Anchor.{
  AnchorInput, browser, completed, create_anchor_and_submit, create_anchor_and_submit_service,
}
use concordium_web3id.Explorer.Anchor.Requests.{IsAnchored}
use concordium_web3id.Explorer.Submit.{
  submit_proof_v1, judge, Response, VerificationRequest, Posted,
}
use concordium_web3id.Explorer.Thrown.{Thrown, error}
use concordium_web3id.Explorer.Flow.{
  Flow, initial, react, prove_v1, render, click_anchor, service_switched,
}
use concordium_web3id.Explorer.Flow.Anchored.{request_matches_anchor}

abbrev stated : List (TopLevelStatement String String)
stated = TopLevelStatement.id [] ("adult" ∷ []) ∷ []

abbrev before : Flow String String String String
before = record initial { explorer = record start { statement = stated } }

abbrev wallet : VerificationRequest String String String → Result Thrown String
wallet r = ok "proof"

abbrev anchor : AnchorInput String String → Result Thrown String
anchor i = ok "anchor"

abbrev after : Flow String String String String
after = record before {
  nonce = some "first";
  anchoring = record { submission_result = some (completed "ab"); transaction_hash = some "ab" };
  use_verifier_service = false;
}

abbrev no_service :
    Posted (VerificationRequest String String String) String → Result Thrown Response
no_service r = err (error "offline")

request_matches_anchor_example :
    IsAnchored anchor
      (λ account b. ok "ab")
      (λ s. ok s)
      (browser (some "4UC8"))
      stated
      account_or_identity_claims
      "first"
      false
      "ab"
    × (wallet (record {
      context = "first";
      claims = get_subject_claims stated account_or_identity_claims;
      anchor = "ab";
    })
        ≡ ok "proof")
unfolding react render submit_proof_v1 judge create_anchor_and_submit_service click_anchor prove_v1
    create_anchor_and_submit get_subject_claims
request_matches_anchor_example =
    request_matches_anchor (λ i. none) (λ n. n) anchor (λ s. ok s) (λ s. none) wallet no_service
      (λ r p. ok true) before after "first" "third" (browser (some "4UC8")) (λ account b. ok "ab")
      (("second", service_switched) ∷ []) "ab" "proof"
      (record { messages = []; current_proof = none }) refl (tt, tt) refl refl
