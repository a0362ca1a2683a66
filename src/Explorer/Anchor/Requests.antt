-- ===== src/Explorer/Anchor/Requests.antt =====
-- When `createAnchorAndSubmit` leaves the hash of an anchor transaction.
use concordium_web3id.Common.{
  ◌≡◌, ◌≢◌, ◌↔◌, String, Bool, some, List, [], ◌∷◌, refl, arith, Result, Option-cases, Result-cases,
  ok, inl, inr,
}
use concordium_web3id.Explorer.Types.{TopLevelStatement, SubjectClaimsType}
use concordium_web3id.Explorer.Thrown.{Thrown}
use concordium_web3id.Explorer.Claims.{get_subject_claims}
use concordium_web3id.Explorer.Wallet.{truthy}
use concordium_web3id.Explorer.Anchor.{
  Provider, browser, wallet_connect, AnchorInput, Anchoring, create_anchor_and_submit_service,
  create_anchor_and_submit,
}

-- The wallet can send for that account.
abbrev pub CanSend : Provider → String → Type 0
CanSend (browser given) account = truthy given ≡ some account
CanSend wallet_connect account = ⊥

module _ {A Address C B H : Type 0} (create_anchor : AnchorInput C A → Result Thrown B)
    (send_transaction : String → B → Result Thrown String)
    (from_hex_string : String → Result Thrown H) where
  abbrev anchor_input :
      List (TopLevelStatement A Address) → SubjectClaimsType → C → Bool → AnchorInput C A
  anchor_input statements type context info = record {
    context = context;
    claims = get_subject_claims statements type;
    public_info = info;
  }

  -- The anchor of the statements' claims is made, sent for the account and its hash is read.
  abbrev pub IsAnchored :
      Provider → List (TopLevelStatement A Address) → SubjectClaimsType → C → Bool → H → Type 0
  IsAnchored provider statements type context info h =
      (account : String) × (anchor : B) × (hash : String) × CanSend provider account
      × (create_anchor (anchor_input statements type context info) ≡ ok anchor)
      × (send_transaction account anchor ≡ ok hash)
      × (from_hex_string hash ≡ ok h)

  IsAnchored-sound :
      (provider : Provider) (statements : List (TopLevelStatement A Address))
      (type : SubjectClaimsType) (context : C) (info : Bool) (s : Anchoring H) (h : H)
      → (create_anchor_and_submit create_anchor send_transaction from_hex_string
          (some provider)
          statements
          type
          context
          info
          s).transaction_hash
        ≡ some h
      → (statements ≢ []) × IsAnchored provider statements type context info h
  unfolding create_anchor_and_submit create_anchor_and_submit_service
  IsAnchored-sound provider [] type context info s h e = cc
  IsAnchored-sound wallet_connect (x ∷ rest) type context info s h e = ground arith
  IsAnchored-sound (browser given) (x ∷ rest) type context info s h e =
      elim (Result-cases (create_anchor (anchor_input (x ∷ rest) type context info))) [
        | inr (thrown, failed) ↦ ground arith
        | inl (anchor, made) ↦ elim (Option-cases (truthy given)) [
          | inl missing ↦ ground arith
          | inr (account, can) ↦ elim (Result-cases (send_transaction account anchor)) [
            | inr (thrown, failed) ↦ ground arith
            | inl (hash, sent) ↦ ((λ h. cc), (account, anchor, hash, can, made, sent, ground arith))
          ]
        ]
      ]

  -- With statements and a connected wallet, a submission leaves a transaction hash for later proofs
  -- exactly when the anchor of the statements' claims could be made, the browser wallet sent it for
  -- its account and the hash that came back is readable; else it leaves none, whatever was there.
  pub create_anchor_and_submit_iff :
      (provider : Provider) (statements : List (TopLevelStatement A Address))
      (type : SubjectClaimsType) (context : C) (info : Bool) (s : Anchoring H) (h : H)
      → ((create_anchor_and_submit create_anchor send_transaction from_hex_string
            (some provider)
            statements
            type
            context
            info
            s).transaction_hash
          ≡ some h)
        ↔ ((statements ≢ []) × IsAnchored provider statements type context info h)
  unfolding create_anchor_and_submit create_anchor_and_submit_service
  create_anchor_and_submit_iff provider [] type context info s h = (λ e. cc, λ r. absurd (r.0 refl))
  create_anchor_and_submit_iff wallet_connect (x ∷ rest) type context info s h =
      (λ e. ground arith, λ r. ground arith)
  create_anchor_and_submit_iff (browser given) (x ∷ rest) type context info s h = (
    IsAnchored-sound (browser given) (x ∷ rest) type context info s h,
    λ (filled, done). let (account, anchor, hash, can, made, sent, hex) = done in ground arith,
  )
