-- ===== src/Explorer/Submit/Verdict.antt =====
-- When a submission ends in "Proof OK", and what else it does to the view.
use mathlib.Core.List.{tail-eq_of_cons-eq}
use concordium_web3id.Common.{
  sym, ◌∙◌, ◌≡◌, ◌≢◌, ◌↔◌, String, Bool, Bool-cases, true, false, Option, none, some, List, [], ◌∷◌,
  ◌++◌, refl, ap, arith, inl, inr, Result, Result-cases, ok, get_last?, get_last?-append_one,
}
use concordium_web3id.Common.Json.{Json, is_truthy}
use concordium_web3id.Explorer.Types.{TopLevelStatement, SubjectClaimsType}
use concordium_web3id.Explorer.Thrown.{Thrown, error_object, plain_object, nullish, primitive}
use concordium_web3id.Explorer.Claims.{get_subject_claims}
use concordium_web3id.Explorer.Submit.{
  Message, proof_ok, proof_not_ok_result, could_not_get_proof, View, append, accept, Response,
  VerificationRequest, Posted, posted, no_proof, body, failure, service_error, conclude, judge,
  submit_proof_v1,
}

-- What one submission may do to the view: nothing, show a message that is not "Proof OK", or show
-- "Proof OK" and the proof together.
pub data Change {P : Type 0} (v v' : View P) : Type 0 where
  unchanged : v' ≡ v → Change v v'
  complained : (m : Message) → m ≢ proof_ok → v' ≡ append m v → Change v v'
  accepted : (p : P) → v' ≡ accept p v → Change v v'

service_error-ne-proof_ok :
    (json_parse : String → Option Json) (r : Response) → service_error json_parse r ≢ some proof_ok
unfolding service_error
service_error-ne-proof_ok json_parse r = ground arith

service_error-none :
    (json_parse : String → Option Json) (r : Response)
    → service_error json_parse r ≡ none
    → (r.is_ok ≡ true) × (is_truthy (failure (body json_parse r)) ≡ false)
unfolding service_error
service_error-none json_parse r = ground arith

conclude-Change :
    {P : Type 0} (p : P) (m : Option Message) (v : View P)
    → m ≢ some proof_ok
    → Change v (conclude p m v)
conclude-Change p none v h = accepted p refl
conclude-Change p (some m) v h = complained m (λ e. h (ap some e)) refl

no_proof-Change : {P : Type 0} (e : Thrown) (v : View P) → Change v (no_proof e v)
no_proof-Change (error_object c m) v = complained (could_not_get_proof m) (cc) refl
no_proof-Change (plain_object c m) v = unchanged refl
no_proof-Change nullish v = unchanged refl
no_proof-Change primitive v = unchanged refl

messages_differ : (l : List Message) → l ≢ l ++ proof_ok ∷ []
messages_differ [] e = cc
messages_differ (m ∷ l) e = messages_differ l (tail-eq_of_cons-eq e)

no_proof-ne-accept : {P : Type 0} (e : Thrown) (p : P) (v : View P) → no_proof e v ≢ accept p v
no_proof-ne-accept (error_object c m) p v e = cc (
  get_last?-append_one v.messages (could_not_get_proof m),
  get_last?-append_one v.messages proof_ok,
)
no_proof-ne-accept (plain_object c m) p v e = messages_differ v.messages (ap (λ w. w.messages) e)
no_proof-ne-accept nullish p v e = messages_differ v.messages (ap (λ w. w.messages) e)
no_proof-ne-accept primitive p v e = messages_differ v.messages (ap (λ w. w.messages) e)

-- A conclusion shows the proof as accepted only if there is no error message.
conclude-eq-accept :
    {P : Type 0} (p q : P) (m : Option Message) (v : View P)
    → m ≢ some proof_ok
    → conclude p m v ≡ accept q v
    → (m ≡ none) × (p ≡ q)
conclude-eq-accept p q none v h e = ground arith
conclude-eq-accept p q (some m) v h e =
    let ends : get_last? (v.messages ++ m ∷ []) ≡ get_last? (v.messages ++ proof_ok ∷ []) =
      ap (λ w. get_last? w.messages) e in
    let last : some m ≡ some proof_ok =
      sym (get_last?-append_one v.messages m) ∙ ends ∙ get_last?-append_one v.messages proof_ok in
    absurd (h last)

module _ {A C H P : Type 0} (json_parse : String → Option Json)
    (wallet : VerificationRequest C H A → Result Thrown P)
    (fetch : Posted (VerificationRequest C H A) P → Result Thrown Response)
    (create_checked : VerificationRequest C H A → P → Result Thrown Bool) where
  -- The verdict on a proof: with the verifier service, a response with an OK status whose body
  -- reports no failure; without it, success of the local check.
  abbrev pub IsAccepted : Bool → Bool → VerificationRequest C H A → P → Type 0
  IsAccepted true info request p =
      (r : Response) × (fetch (posted info request p) ≡ ok r)
      × (r.is_ok ≡ true)
      × (is_truthy (failure (body json_parse r)) ≡ false)
  IsAccepted false info request p = create_checked request p ≡ ok true

  judge_accepts :
      (service info : Bool) (request : VerificationRequest C H A) (p q : P) (v : View P)
      → judge json_parse wallet fetch create_checked service info request p v ≡ ok (accept q v)
      → IsAccepted service info request p × (p ≡ q)
  unfolding judge
  judge_accepts true info request p q v e = elim (Result-cases (fetch (posted info request p))) [
    | inl (r, answered) ↦
        let concluded : conclude p (service_error json_parse r) v ≡ accept q v = ground arith in
        let (quiet, same) =
          conclude-eq-accept p q _ v (service_error-ne-proof_ok json_parse r) concluded in
        let (good, passed) = service_error-none json_parse r quiet in
        ((r, answered, good, passed), same)
    | inr (thrown, failed) ↦ ground arith
  ]
  judge_accepts false info request p q v e = elim (Result-cases (create_checked request p)) [
    | inl (success, checked) ↦ elim (Bool-cases success) [
      | inl yes_ ↦ ground arith
      | inr no_ ↦
          let concluded : conclude p (some proof_not_ok_result) v ≡ accept q v = ground arith in
          cc (conclude-eq-accept p q (some proof_not_ok_result) v (cc) concluded).0
    ]
    | inr (thrown, failed) ↦ ground arith
  ]

  judge_complete :
      (service info : Bool) (request : VerificationRequest C H A) (p : P) (v : View P)
      → IsAccepted service info request p
      → judge json_parse wallet fetch create_checked service info request p v ≡ ok (accept p v)
  unfolding judge service_error
  judge_complete true info request p v (r, e, good, passed) = ground arith
  judge_complete false info request p v e = ground arith

  judge-Change :
      (service info : Bool) (request : VerificationRequest C H A) (p : P) (v : View P) {v' : View P}
      → judge json_parse wallet fetch create_checked service info request p v ≡ ok v'
      → Change v v'
  unfolding judge
  judge-Change true info request p v {v'} e = elim (Result-cases (fetch (posted info request p))) [
    | inl (r, answered) ↦
        let concluded : v' ≡ conclude p (service_error json_parse r) v = ground arith in
        rw concluded (conclude-Change p _ v (service_error-ne-proof_ok json_parse r))
    | inr (thrown, failed) ↦ cc (failed)
  ]
  judge-Change false info request p v {v'} e = elim (Result-cases (create_checked request p)) [
    | inl (true, checked) ↦ accepted p (ground arith)
    | inl (false, checked) ↦ complained proof_not_ok_result (cc) (ground arith)
    | inr (thrown, failed) ↦ cc (failed)
  ]

  -- With statements and an anchor, a submission shows the proof `p` and "Proof OK" exactly when the
  -- wallet gave `p` for the request with the claims of the statements, and the verdict accepts it.
  pub submit_proof_v1_accepts_iff :
      {Address : Type 0} (service info : Bool) (statements : List (TopLevelStatement A Address))
      (type : SubjectClaimsType) (context : C) (anchor : H) (p : P) (v : View P)
      → statements ≢ []
      → let request : VerificationRequest C H A = record {
        context = context;
        claims = get_subject_claims statements type;
        anchor = anchor;
      } in
        (submit_proof_v1 json_parse wallet fetch create_checked service info statements type context
            (some anchor)
            v
          ≡ ok (accept p v))
        ↔ ((wallet request ≡ ok p) × IsAccepted service info request p)
  unfolding submit_proof_v1
  submit_proof_v1_accepts_iff service info [] type context anchor p v filled = absurd (filled refl)
  submit_proof_v1_accepts_iff service info (s ∷ rest) type context anchor p v filled =
      let request : VerificationRequest C H A = record {
        context = context;
        claims = get_subject_claims (s ∷ rest) type;
        anchor = anchor;
      } in
      elim (Result-cases (wallet request)) [
        | inl (q, given) ↦ (
          λ e.
              let (verdict, same) = judge_accepts service info request q p v (ground arith) in
              (rw given (ap ok same), rw same at verdict),
          λ (given', verdict). rw given' (judge_complete service info request p v verdict),
        )
        | inr (thrown, refused) ↦
            (λ e. absurd (no_proof-ne-accept thrown p v (ground arith)), λ (given, verdict). cc)
      ]

  -- Whatever the wallet and the verifier do, a submission that does not throw leaves the view as it
  -- was, or adds one message that is not "Proof OK", or adds "Proof OK" and shows the proof.
  pub submit_proof_v1-Change :
      {Address : Type 0} (service info : Bool) (statements : List (TopLevelStatement A Address))
      (type : SubjectClaimsType) (context : C) (anchor : Option H) (v : View P) {v' : View P}
      → submit_proof_v1 json_parse wallet fetch create_checked service info statements type context
          anchor v
        ≡ ok v'
      → Change v v'
  unfolding submit_proof_v1
  submit_proof_v1-Change service info [] type context none v e = cc
  submit_proof_v1-Change service info [] type context (some anchor) v e = cc
  submit_proof_v1-Change service info (s ∷ rest) type context none v e = cc
  submit_proof_v1-Change service info (s ∷ rest) type context (some anchor) v {v'} e =
      let request : VerificationRequest C H A = record {
        context = context;
        claims = get_subject_claims (s ∷ rest) type;
        anchor = anchor;
      } in
      elim (Result-cases (wallet request)) [
        | inl (p, given) ↦ judge-Change service info request p v (ground arith)
        | inr (thrown, refused) ↦
            let left : v' ≡ no_proof thrown v = ground arith in rw left (no_proof-Change thrown v)
      ]

  -- A response with an OK status counts as a success when its body cannot be read or is not JSON: the
  -- verifier service has then not confirmed anything, and the proof is accepted all the same.
  pub unreadable_answer_accepted :
      (info : Bool) (request : VerificationRequest C H A) (p : P) (v : View P) (r : Response)
      → fetch (posted info request p) ≡ ok r
      → r.is_ok ≡ true
      → body json_parse r ≡ none
      → judge json_parse wallet fetch create_checked true info request p v ≡ ok (accept p v)
  unreadable_answer_accepted info request p v r answered good unread =
      judge_complete true info request p v (r, answered, good, rw unread)
