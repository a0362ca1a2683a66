-- ===== src/Explorer/Submit.antt =====
-- `submitProof` of test-tools/proof-explorer/src/services/verification-service-v1.tsx (the V1 flow)
-- and of verification-service.tsx (the V0 flow), over the list of messages and the proof on display.
-- The wallet, `fetch`, `JSON.parse` and the web SDK's own check come in as functions.
pub mod Verdict
pub mod Panel
use concordium_web3id.Common.{
  ℕ, String, Bool, true, false, not, Option, none, some, List, [], ◌∷◌, ◌++◌, Result, ok, err,
  ◌>>=◌, ◌>>◌, throw_if, if◌then◌else◌, is_blank, is_empty,
}
use concordium_web3id.Common.Json.{Json, get, or_else, is_truthy}
use concordium_web3id.Explorer.Types.{TopLevelStatement, SubjectClaimsType}
use concordium_web3id.Explorer.Thrown.{Thrown, error_object, error}
use concordium_web3id.Explorer.Claims.{
  SubjectClaims, CredentialStatement, get_subject_claims, credential_statements,
}

-- The messages, one constructor for each template.
pub data Message : Type 0 where
  could_not_get_proof : String → Message
  proof_ok : Message
  proof_not_ok_http : (status : ℕ) (detail : String) → Message
  proof_not_ok_failed : (message code : Option Json) → Message
  proof_not_ok_result : Message
  proof_not_ok_body : (status : ℕ) (body : Json) → Message

pub record View (P : Type 0) : Type 0 where
  pub messages : List Message
  pub current_proof : Option P

abbrev pub append : {P : Type 0} → Message → View P → View P
append m v = record v { messages = v.messages ++ m ∷ [] }

-- `setMessages(… 'Proof OK'); setProofData(proof)`
abbrev pub accept : {P : Type 0} → P → View P → View P
accept p v = record { messages = v.messages ++ proof_ok ∷ []; current_proof = some p }

-- An HTTP response: `text` and `json` may throw.
pub record Response : Type 0 where
  pub is_ok : Bool
  pub status : ℕ
  pub status_text : String
  pub text : Result Thrown String
  pub json : Result Thrown Json

-- `VerificationRequestV1.create(context, subjectClaims, anchorTransactionHash)`
pub record VerificationRequest (C H A : Type 0) : Type 0 where
  pub context : C
  pub claims : List (SubjectClaims A)
  pub anchor : H

-- The body that is posted to the verifier service.
pub record Posted (R P : Type 0) : Type 0 where
  pub audit_record_id : String
  pub public_info : Bool
  pub presentation : P
  pub verification_request : R

abbrev pub posted : {R P : Type 0} → Bool → R → P → Posted R P
posted info r p = record {
  audit_record_id = "12345";
  public_info = info;
  presentation = p;
  verification_request = r;
}

-- The `catch` around the wallet's call: only an `Error` leaves a message.
abbrev pub no_proof : {P : Type 0} → Thrown → View P → View P
no_proof (error_object has_code message) v = append (could_not_get_proof message) v
no_proof _ v = v

-- `try { raw = await resp.text(); body = JSON.parse(raw) } catch { body = undefined }`
abbrev pub raw : Response → String
raw r = elim r.text [ ok s ↦ s | err e ↦ "" ]

abbrev pub body : (String → Option Json) → Response → Option Json
body json_parse r = elim r.text [ ok s ↦ json_parse s | err e ↦ none ]

-- `raw || resp.statusText`
abbrev pub detail : Response → String
detail r = if is_blank (raw r) then r.status_text else raw r

-- `(body?.result ?? body)?.failed`
abbrev pub failure : Option Json → Option Json
failure b = get "failed" (or_else (get "result" b) b)

-- `errorMessage` after the call of the verifier service.
unfoldable pub service_error : (String → Option Json) → Response → Option Message
service_error json_parse r =
    if not r.is_ok
    then some (proof_not_ok_http r.status (detail r))
    else if is_truthy (failure (body json_parse r))
    then some (
        proof_not_ok_failed (get "message" (failure (body json_parse r)))
          (get "code" (failure (body json_parse r))))
    else none

-- The last steps: an error message, or the proof is accepted.
abbrev pub conclude : {P : Type 0} → P → Option Message → View P → View P
conclude p none v = accept p v
conclude p (some m) v = append m v

module _ {A C H P : Type 0} (json_parse : String → Option Json)
    (wallet : VerificationRequest C H A → Result Thrown P)
    (fetch : Posted (VerificationRequest C H A) P → Result Thrown Response)
    (create_checked : VerificationRequest C H A → P → Result Thrown Bool) where
  -- From the proof on: what `submitProof` still throws leaves the view as it is.
  unfoldable pub judge :
      (use_verifier_service with_public_info : Bool)
      → VerificationRequest C H A
      → P
      → View P
      → Result Thrown (View P)
  judge true info r p v = do
    response ← fetch (posted info r p)
    ok (conclude p (service_error json_parse response) v)
  judge false info r p v = do
    success ← create_checked r p
    ok (conclude p (if success then none else some proof_not_ok_result) v)

  unfoldable pub submit_proof_v1 :
      {Address : Type 0} (use_verifier_service with_public_info : Bool)
      → List (TopLevelStatement A Address)
      → SubjectClaimsType
      → C
      → Option H
      → View P
      → Result Thrown (View P)
  submit_proof_v1 service info statements type context none v = do
    throw_if (is_empty statements) (
        error
          "Create the statement in the column on the left and submit the anchor transaction first.")
    err (error "Submit an anchor transaction first.")
  submit_proof_v1 service info statements type context (some anchor) v = do
    throw_if (is_empty statements) (
        error
          "Create the statement in the column on the left and submit the anchor transaction first.")
    let request : VerificationRequest C H A = record {
      context = context;
      claims = get_subject_claims statements type;
      anchor = anchor;
    }
    elim (wallet request) [ err e ↦ ok (no_proof e v) | ok p ↦ judge service info request p v ]

-- The V0 flow; `wallet` draws the challenge itself.
unfoldable pub submit_proof_v0 :
    {A Address P : Type 0}
    → (List (CredentialStatement A Address) → Result Thrown P)
    → (P → Result Thrown Response)
    → List (TopLevelStatement A Address)
    → View P
    → Result Thrown (View P)
submit_proof_v0 wallet fetch statements v = do
  credentials ← credential_statements statements
  elim (wallet credentials) [
    | err e ↦ ok (no_proof e v)
    | ok p ↦ do
      response ← fetch p
      elim response.is_ok [
        | true ↦ ok (accept p v)
        | false ↦ do b ← response.json; ok (append (proof_not_ok_body response.status b) v)
      ]
  ]
