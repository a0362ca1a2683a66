-- ===== src/Examples/SubmitRuns.antt =====
-- Tests of the submission of proofs.
use concordium_web3id.Common.{
  ◌≡◌, ◌↔◌, String, Bool, true, Option, none, some, List, [], ◌∷◌, refl, ok, err, Result,
}
use concordium_web3id.Common.Json.{Json}
use concordium_web3id.Explorer.Types.{TopLevelStatement, id, only_identity_claims}
use concordium_web3id.Explorer.Thrown.{Thrown, error}
use concordium_web3id.Explorer.Claims.{get_subject_claims}
use concordium_web3id.Explorer.Submit.{
  could_not_get_proof, View, accept, append, Response, VerificationRequest, Posted, submit_proof_v1,
}
use concordium_web3id.Explorer.Submit.Verdict.{
  Change, IsAccepted, submit_proof_v1_accepts_iff, submit_proof_v1-Change,
}

abbrev statements : List (TopLevelStatement String String)
statements = id (record { name = "A"; id = 3 } ∷ []) ("name" ∷ []) ∷ []

abbrev asked : VerificationRequest String String String
asked = record {
  context = "ctx";
  claims = get_subject_claims statements only_identity_claims;
  anchor = "hash";
}

abbrev proving : VerificationRequest String String String → Result Thrown String
proving r = ok "proof"

abbrev declining : VerificationRequest String String String → Result Thrown String
declining r = err (error "declined")

-- An answer with an OK status whose body is not JSON.
abbrev answer : Response
answer = record {
  is_ok = true;
  status = 200;
  status_text = "OK";
  text = ok "<html>";
  json = err (error "no JSON");
}

abbrev answering : Posted (VerificationRequest String String String) String → Result Thrown Response
answering p = ok answer

abbrev no_json : String → Option Json
no_json s = none

abbrev checking : VerificationRequest String String String → String → Result Thrown Bool
checking r p = ok true

abbrev empty_view : View String
empty_view = record { messages = []; current_proof = none }

submit_proof_v1_accepts_iff_example :
    (submit_proof_v1 no_json proving answering checking true true statements only_identity_claims
        "ctx"
        (some "hash")
        empty_view
      ≡ ok (accept "proof" empty_view))
    ↔ ((proving asked ≡ ok "proof")
        × IsAccepted no_json proving answering checking true true asked "proof")
submit_proof_v1_accepts_iff_example =
    submit_proof_v1_accepts_iff no_json proving answering checking true true statements
      only_identity_claims "ctx" "hash" "proof" empty_view (λ e. cc)

declined_run :
    submit_proof_v1 no_json declining answering checking true true statements only_identity_claims
      "ctx"
      (some "hash")
      empty_view
    ≡ ok (append (could_not_get_proof "declined") empty_view)
unfolding submit_proof_v1
declined_run = refl

submit_proof_v1-Change_example :
    Change empty_view (append (could_not_get_proof "declined") empty_view)
submit_proof_v1-Change_example =
    submit_proof_v1-Change no_json declining answering checking true true statements
      only_identity_claims "ctx" (some "hash") empty_view declined_run
