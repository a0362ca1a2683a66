-- ===== src/Explorer/Flow/Anchored.antt =====
-- The anchor and the request for a proof in the V1 flow of the proof explorer.
use mathlib.Core.Path.{subst}
use mathlib.Core.Option.{some-injective}
use concordium_web3id.Common.{
  Option-cases, inl, inr, ◌≡◌, ◌≢◌, refl, ap, ◌∙◌, String, Bool, Option, some, List, [], ◌∷◌, All,
  Result, ok,
}
use concordium_web3id.Common.Json.{Json}
use concordium_web3id.Explorer.Types.{SignedInt, SubjectClaimsType, TopLevelStatement}
use concordium_web3id.Explorer.Thrown.{Thrown}
use concordium_web3id.Explorer.Claims.{get_subject_claims}
use concordium_web3id.Explorer.Statements.{handle_add_top_level}
use concordium_web3id.Explorer.Statements.Session.{
  handle, add_statement, add_top_level, clear, load_idps, check, check_id_cred, edit_issuers,
}
use concordium_web3id.Explorer.Anchor.{Provider, AnchorInput}
use concordium_web3id.Explorer.Anchor.Requests.{IsAnchored, create_anchor_and_submit_iff}
use concordium_web3id.Explorer.Submit.{View, VerificationRequest, Posted, Response, accept}
use concordium_web3id.Explorer.Submit.Verdict.{submit_proof_v1_accepts_iff}
use concordium_web3id.Explorer.Flow.{
  Flow, nonce_of, Event, edited, claims_type_selected, public_info_switched, service_switched,
  audit_info_switched, anchor_clicked, render, click_anchor, react, react_all, prove_v1,
}

-- The event changes neither the statement nor the type of the claims nor the anchor.
abbrev pub KeepsClaims : {A B : Type 0} → Event A B → Type 0
KeepsClaims (edited (add_statement k a)) = ⊥
KeepsClaims (edited clear) = ⊥
KeepsClaims (claims_type_selected t) = ⊥
KeepsClaims (anchor_clicked provider send) = ⊥
KeepsClaims _ = Unit

module _ {A Address N C B H : Type 0} (create_address : SignedInt → Option Address)
    (create_context : N → C) (create_anchor : AnchorInput C A → Result Thrown B)
    (from_hex_string : String → Result Thrown H) where
  -- What a request for a proof is made from.
  record IsPending (n : N) (statements : List (TopLevelStatement A Address))
      (type : SubjectClaimsType) (h : H) (f : Flow A Address N H) : Type 0 where
    nonce : f.nonce ≡ some n
    stated : f.explorer.statement ≡ statements
    typed : f.claims_type ≡ type
    hash : f.anchoring.transaction_hash ≡ some h

  -- A state that agrees with a pending one on what a request is made from.
  carried :
      {n : N} {statements : List (TopLevelStatement A Address)} {type : SubjectClaimsType} {h : H}
      (random : N) (f f' : Flow A Address N H) {g : Flow A Address N H}
      → f'.nonce ≡ some (nonce_of random f.nonce)
      → f'.explorer.statement ≡ f.explorer.statement
      → f'.claims_type ≡ f.claims_type
      → f'.anchoring.transaction_hash ≡ f.anchoring.transaction_hash
      → IsPending n statements type h f
      → some f' ≡ some g
      → IsPending n statements type h g
  carried {n} {statements} {type} {h} random f f' {g} same_nonce same_statement same_type same_hash
        p e =
      subst (IsPending n statements type h) (some-injective f' g e) (record {
        nonce = same_nonce ∙ ap (λ m. some (nonce_of random m)) p.nonce;
        stated = same_statement ∙ p.stated;
        typed = same_type ∙ p.typed;
        hash = same_hash ∙ p.hash;
      })

  react-IsPending :
      (n : N) (statements : List (TopLevelStatement A Address)) (type : SubjectClaimsType) (h : H)
      (random : N) (v : Event A B) (f g : Flow A Address N H)
      → KeepsClaims v
      → react create_address create_context create_anchor from_hex_string random v f ≡ some g
      → IsPending n statements type h f
      → IsPending n statements type h g
  unfolding react render handle handle_add_top_level
  react-IsPending n st t h random (edited (add_statement k a)) f g keeps e p = absurd keeps
  react-IsPending n st t h random (edited add_top_level) f g keeps e p =
      carried random f _ refl refl refl refl p e
  react-IsPending n st t h random (edited clear) f g keeps e p = absurd keeps
  react-IsPending n st t h random (edited (load_idps l)) f g keeps e p =
      carried random f _ refl refl refl refl p e
  react-IsPending n st t h random (edited (check l)) f g keeps e p =
      carried random f _ refl refl refl refl p e
  react-IsPending n st t h random (edited (check_id_cred l)) f g keeps e p =
      carried random f _ refl refl refl refl p e
  react-IsPending n st t h random (edited (edit_issuers s)) f g keeps e p =
      carried random f _ refl refl refl refl p e
  react-IsPending n st t h random (claims_type_selected u) f g keeps e p = absurd keeps
  react-IsPending n st t h random public_info_switched f g keeps e p =
      carried random f _ refl refl refl refl p e
  react-IsPending n st t h random service_switched f g keeps e p =
      carried random f _ refl refl refl refl p e
  react-IsPending n st t h random audit_info_switched f g keeps e p =
      carried random f _ refl refl refl refl p e
  react-IsPending n st t h random (anchor_clicked provider send) f g keeps e p = absurd keeps

  -- "Submit Anchor Transaction" in a new render, and a session.
  abbrev submitted :
      N → Provider → (String → B → Result Thrown String) → Flow A Address N H → Flow A Address N H
  submitted random provider send f =
      click_anchor create_address create_context create_anchor from_hex_string random
        (some provider) send
        (render create_address create_context create_anchor from_hex_string random f)

  abbrev run : List (N × Event A B) → Flow A Address N H → Option (Flow A Address N H)
  run vs f = react_all create_address create_context create_anchor from_hex_string vs f

  run-IsPending :
      {n : N} {statements : List (TopLevelStatement A Address)} {type : SubjectClaimsType} {h : H}
      (vs : List (N × Event A B)) (f : Flow A Address N H) {g : Flow A Address N H}
      → All (λ e. KeepsClaims e.1) vs
      → run vs f ≡ some g
      → IsPending n statements type h f
      → IsPending n statements type h g
  run-IsPending {n} {statements} {type} {h} [] f {g} keeps e p =
      subst (IsPending n statements type h) (some-injective f g e) p
  run-IsPending {n} {statements} {type} {h} ((random, v) ∷ vs) f {g} keeps e p =
      elim (Option-cases
        (react create_address create_context create_anchor from_hex_string random v f)) [
          | inl thrown ↦ cc (rw (thrown, react_all) at e)
          | inr (f', reacted) ↦
              run-IsPending vs f' keeps.1 (rw (reacted, react_all) at e)
                (react-IsPending n statements type h random v f f' keeps.0 reacted p)
        ]

  module _ {P : Type 0} (json_parse : String → Option Json)
      (wallet : VerificationRequest C H A → Result Thrown P)
      (fetch : Posted (VerificationRequest C H A) P → Result Thrown Response)
      (create_checked : VerificationRequest C H A → P → Result Thrown Bool) where
    prove_v1_asks :
        {n : N} {statements : List (TopLevelStatement A Address)} {type : SubjectClaimsType} {h : H}
        (random : N) (g : Flow A Address N H) (p : P) (v : View P)
        → statements ≢ []
        → IsPending n statements type h g
        → prove_v1 create_address create_context create_anchor from_hex_string json_parse wallet
            fetch create_checked random g v
          ≡ ok (accept p v)
        → wallet (record {
          context = create_context n;
          claims = get_subject_claims statements type;
          anchor = h;
        })
          ≡ ok p
    unfolding prove_v1
    prove_v1_asks {n} {statements} {type} {h} random g p v filled pending e =
        ((submit_proof_v1_accepts_iff json_parse wallet fetch create_checked g.use_verifier_service
            g.with_audit_info statements type (create_context n) h p v filled).0
          (rw (pending.stated, pending.typed, pending.nonce, pending.hash) at e)).0

    -- In the V1 flow, let the anchor of the statement be submitted and leave the hash `h`, and after it
    -- neither the statement nor the type of the claims be changed and no other anchor be submitted.
    -- Then a proof that is shown as accepted was given by the wallet for a request with the hash `h`
    -- and with the very context and claims that were anchored, whatever the renders between them would
    -- have drawn as a nonce.
    pub request_matches_anchor :
        (f g : Flow A Address N H) (first random : N) (provider : Provider)
        (send : String → B → Result Thrown String) (vs : List (N × Event A B)) (h : H) (p : P)
        (v : View P)
        → (submitted first provider send f).anchoring.transaction_hash ≡ some h
        → All (λ e. KeepsClaims e.1) vs
        → run vs (submitted first provider send f) ≡ some g
        → prove_v1 create_address create_context create_anchor from_hex_string json_parse wallet
            fetch create_checked random g v
          ≡ ok (accept p v)
        → IsAnchored create_anchor send from_hex_string provider f.explorer.statement f.claims_type
            (create_context (nonce_of first f.nonce))
            f.with_public_info
            h
          × (wallet (record {
            context = create_context (nonce_of first f.nonce);
            claims = get_subject_claims f.explorer.statement f.claims_type;
            anchor = h;
          })
              ≡ ok p)
    unfolding render click_anchor
    request_matches_anchor f g first random provider send vs h p v done keeps reached accepted =
        let n = nonce_of first f.nonce in
        let (filled, made) =
          (create_anchor_and_submit_iff create_anchor send from_hex_string provider
              f.explorer.statement f.claims_type (create_context n) f.with_public_info f.anchoring
              h).0
            done in
        let anchored = submitted first provider send f in
        let pending : IsPending n f.explorer.statement f.claims_type h anchored = record {
          nonce = refl;
          stated = refl;
          typed = refl;
          hash = done;
        } in
        (
          made,
          prove_v1_asks random g p v filled (run-IsPending vs _ keeps reached pending) accepted,
        )
