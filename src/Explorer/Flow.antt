-- ===== src/Explorer/Flow.antt =====
-- The V1 flow over the whole page test-tools/proof-explorer/src/components/ProofExplorer.tsx: the
-- statement, the type of claims, the anchor and the request for a proof, with the two switches of
-- `SubmitProofV1` (services/verification-service-v1.tsx). A call of the wallet is run to its end
-- before the next event. `random` is what `crypto.getRandomValues` would give in a render,
-- `create_context` is `VerificationRequestV1.createSimpleContext` with the two example ids.
pub mod Anchored
use concordium_web3id.Common.{
  String, Bool, true, false, not, Option, none, some, List, [], ◌∷◌, Result, ok, err,
}
use concordium_web3id.Common.Json.{Json}
use concordium_web3id.Explorer.Types.{
  SignedInt, SubjectClaimsType, account_or_identity_claims, TopLevelStatement,
}
use concordium_web3id.Explorer.Thrown.{Thrown}
use concordium_web3id.Explorer.Statements.{Explorer, start}
use concordium_web3id.Explorer.Statements.Session
use concordium_web3id.Explorer.Statements.Session.{handle}
use concordium_web3id.Explorer.Anchor.{Provider, AnchorInput, Anchoring, create_anchor_and_submit}
use concordium_web3id.Explorer.Submit.{View, VerificationRequest, Posted, Response, submit_proof_v1}

pub record Flow (A Address N H : Type 0) : Type 0 where
  pub explorer : Explorer A Address
  pub nonce : Option N
  pub claims_type : SubjectClaimsType
  pub with_public_info : Bool
  pub anchoring : Anchoring H
  pub use_verifier_service : Bool
  pub with_audit_info : Bool

abbrev pub initial : {A Address N H : Type 0} → Flow A Address N H
initial = record {
  explorer = start;
  nonce = none;
  claims_type = account_or_identity_claims;
  with_public_info = false;
  anchoring = record { submission_result = none; transaction_hash = none };
  use_verifier_service = true;
  with_audit_info = true;
}

-- `if (!nonceRef.current) { nonceRef.current = … }`
abbrev pub nonce_of : {N : Type 0} → N → Option N → N
nonce_of random none = random
nonce_of random (some nonce) = nonce

-- What the user does.
pub data Event (A B : Type 0) : Type 0 where
  edited : Session.Event A → Event A B
  claims_type_selected : SubjectClaimsType → Event A B
  public_info_switched service_switched audit_info_switched : Event A B
  anchor_clicked : Option Provider → (String → B → Result Thrown String) → Event A B

module _ {A Address N C B H : Type 0} (create_address : SignedInt → Option Address)
    (create_context : N → C) (create_anchor : AnchorInput C A → Result Thrown B)
    (from_hex_string : String → Result Thrown H) where
  -- A render keeps the nonce of the first one.
  unfoldable pub render : N → Flow A Address N H → Flow A Address N H
  render random f = record f { nonce = some (nonce_of random f.nonce) }

  -- The button "Submit Anchor Transaction".
  unfoldable pub click_anchor :
      (random : N)
      → Option Provider
      → (String → B → Result Thrown String)
      → Flow A Address N H
      → Flow A Address N H
  unfolding create_anchor_and_submit
  click_anchor random provider send f = record f {
    anchoring =
        create_anchor_and_submit create_anchor send from_hex_string provider f.explorer.statement
          f.claims_type (create_context (nonce_of random f.nonce)) f.with_public_info f.anchoring;
  }

  -- A render and an event; nothing once an update of the statement has thrown.
  unfoldable pub react : N → Event A B → Flow A Address N H → Option (Flow A Address N H)
  unfolding render click_anchor handle
  react random (edited v) f = elim (handle create_address v f.explorer) [
    | none ↦ none
    | some e ↦ some (record (render random f) { explorer = e })
  ]
  react random (claims_type_selected t) f = some (record (render random f) { claims_type = t })
  react random public_info_switched f =
      some (record (render random f) { with_public_info = not f.with_public_info })
  react random service_switched f =
      some (record (render random f) { use_verifier_service = not f.use_verifier_service })
  react random audit_info_switched f =
      some (record (render random f) { with_audit_info = not f.with_audit_info })
  react random (anchor_clicked provider send) f =
      some (click_anchor random provider send (render random f))

  abbrev pub react_all : List (N × Event A B) → Flow A Address N H → Option (Flow A Address N H)
  react_all [] f = some f
  react_all ((random, v) ∷ vs) f = elim (react random v f) [ none ↦ none | some g ↦ react_all vs g ]

  -- The button "ProveV1".
  unfoldable pub prove_v1 :
      {P : Type 0} (json_parse : String → Option Json)
      (wallet : VerificationRequest C H A → Result Thrown P)
      (fetch : Posted (VerificationRequest C H A) P → Result Thrown Response)
      (create_checked : VerificationRequest C H A → P → Result Thrown Bool) (random : N)
      → Flow A Address N H
      → View P
      → Result Thrown (View P)
  unfolding submit_proof_v1
  prove_v1 json_parse wallet fetch create_checked random f v =
      submit_proof_v1 json_parse wallet fetch create_checked f.use_verifier_service
        f.with_audit_info f.explorer.statement f.claims_type
        (create_context (nonce_of random f.nonce)) f.anchoring.transaction_hash v
