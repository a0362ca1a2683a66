-- ===== src/SomeVerifier/Page/Verified.antt =====
-- What a verification that the example verifier's page shows rests on.
use concordium_web3id.Common.{
  ℕ, ◌+◌, ◌≤◌, ◌≡◌, String, Bool, true, false, some, List, [], ◌∷◌, ◌++◌, Result, ok, err, ltb,
  refl, ap, suc, arith, length, length-append, Result-cases, inl, inr, Bool-cases, sym,
}
use concordium_web3id.SomeVerifier.Proofs.{
  Issuer, Call, for_verifiable_credentials, for_identity_credentials, request_proof,
  request_proof_lem, name_calls, IsAsked, ConnectionErrorCode,
}
use concordium_web3id.SomeVerifier.Page.{Page, count, checked_count, issuers_of}
use concordium_web3id.SomeVerifier.Page.Prove.{
  PostAnswer, accepted, refused, no_answer, verified, posted, prove,
}

calls_count :
    {Address Thrown : Type 0} (create_address : String → String → Result Thrown Address)
    (name : Bool) (issuers : List Issuer) (calls : List (Call Address))
    → IsAsked create_address name issuers calls
    → length calls ≡ length issuers
calls_count create_address name [] [] h = refl
calls_count create_address name [] (c ∷ cs) h = absurd h
calls_count create_address name (i ∷ is) [] h = absurd h
calls_count create_address name (i ∷ is) (for_identity_credentials idps at ∷ cs) h = absurd h
calls_count create_address name (i ∷ is) (for_verifiable_credentials [] at ∷ cs) h = absurd h
calls_count create_address name (i ∷ is) (for_verifiable_credentials (a ∷ b ∷ more) at ∷ cs) h =
    absurd h
calls_count create_address name (i ∷ is) (for_verifiable_credentials (a ∷ []) at ∷ cs) h =
    let (made, user_id, username, rest) = h in ap suc (calls_count create_address name is cs rest)

-- The issuers of the platforms that are chosen.
abbrev pub chosen : (telegram discord : Issuer) (with_telegram with_discord : Bool) → List Issuer
chosen telegram discord true true = telegram ∷ discord ∷ []
chosen telegram discord true false = telegram ∷ []
chosen telegram discord false true = discord ∷ []
chosen telegram discord false false = []

-- The full name is asked of an identity credential of any of the four identity providers, exactly if
-- it is chosen.
abbrev pub IsNameAsked : {Address : Type 0} → Bool → List (Call Address) → Type 0
IsNameAsked true (for_identity_credentials idps attributes ∷ []) =
    (idps ≡ 0 ∷ 1 ∷ 2 ∷ 3 ∷ []) × (attributes ≡ "firstName" ∷ "lastName" ∷ [])
IsNameAsked false [] = Unit
IsNameAsked _ _ = ⊥

name_calls-IsNameAsked :
    (Address : Type 0) (b : Bool) → IsNameAsked b (name_calls {Address = Address} b)
name_calls-IsNameAsked Address true = (refl, refl)
name_calls-IsNameAsked Address false = tt

issuers_of-chosen :
    (telegram discord : Issuer) (p : Page)
    → issuers_of telegram discord p ≡ chosen telegram discord p.telegram_checked p.discord_checked
unfolding issuers_of
issuers_of-chosen telegram discord p = elim (Bool-cases p.telegram_checked) [
  | inl t ↦ elim (Bool-cases p.discord_checked) [ inl d ↦ rw (t, d) refl | inr d ↦ rw (t, d) refl ]
  | inr t ↦ elim (Bool-cases p.discord_checked) [ inl d ↦ rw (t, d) refl | inr d ↦ rw (t, d) refl ]
]

length-name_calls :
    (Address : Type 0) (b : Bool) → length (name_calls {Address = Address} b) ≡ count b
length-name_calls Address true = refl
length-name_calls Address false = refl

-- One issuer for each platform that is chosen.
length-issuers_of :
    (telegram discord : Issuer) (p : Page)
    → length (issuers_of telegram discord p) ≡ count p.telegram_checked + count p.discord_checked
unfolding issuers_of
length-issuers_of telegram discord p = ground arith

asked_count :
    {Address Thrown : Type 0} (create_address : String → String → Result Thrown Address)
    (telegram discord : Issuer) (p : Page) (calls : List (Call Address))
    → IsAsked create_address true (issuers_of telegram discord p) calls
    → length (calls ++ name_calls p.full_name_checked) ≡ checked_count p
asked_count {Address} create_address telegram discord p calls asked = omega (
  arith,
  length-append calls (name_calls p.full_name_checked),
  calls_count create_address true (issuers_of telegram discord p) calls asked,
  length-issuers_of telegram discord p,
  length-name_calls Address p.full_name_checked,
)

two_chosen : (n : ℕ) → ltb n 2 ≡ false → 2 ≤ n
two_chosen n h = ground arith

posted_accepted : (a : PostAnswer) → posted a ≡ verified → a ≡ accepted
posted_accepted accepted e = refl
posted_accepted (refused true) e = ground arith
posted_accepted (refused false) e = ground arith
posted_accepted no_answer e = ground arith

module _ {Address Thrown S P Api : Type 0}
    (create_address : String → String → Result Thrown Address)
    (get_statements : List (Call Address) → S)
    (request_verifiable_presentation : Api → String → S → Result Thrown P) (hash : String → String)
    (post : P → (timestamp : String) → PostAnswer) (telegram discord : Issuer) where
  -- What a verification rests on.
  pub record IsProved (p : Page) (provider : Result ConnectionErrorCode Api) (timestamp : String)
      : Type 0 where
    pub api : Api
    pub proof : P
    pub calls : List (Call Address)
    pub names : List (Call Address)
    pub connected : provider ≡ ok api
    pub asked :
        IsAsked create_address true
          (chosen telegram discord p.telegram_checked p.discord_checked)
          calls
    pub named : IsNameAsked p.full_name_checked names
    pub obtained :
        request_verifiable_presentation api (hash timestamp) (get_statements (calls ++ names))
        ≡ ok proof
    pub agreed : post proof timestamp ≡ accepted
    pub enough : 2 ≤ length (calls ++ names)

  -- A verification rests on a proof from the connected wallet, for the hash of the time that is
  -- posted with it, which the server accepted. At least two statements are asked for: for Telegram's
  -- and Discord's issuer in this order, each if its platform is chosen, the user's id and name, and
  -- then the first and last name of an identity exactly if the full name is chosen.
  pub prove-verified :
      (p : Page) (provider : Result ConnectionErrorCode Api) (timestamp : String)
      → prove create_address get_statements request_verifiable_presentation hash post telegram
          discord p provider timestamp
        ≡ some verified
      → IsProved p provider timestamp
  unfolding prove
  prove-verified p (err code) timestamp e = ground arith
  prove-verified p (ok api) timestamp e =
      elim (Result-cases (
        request_proof create_address get_statements (request_verifiable_presentation api)
          (issuers_of telegram discord p) (hash timestamp) p.full_name_checked true)) [
            | inl (proof, returned) ↦
                let (calls, asked, obtained) =
                  request_proof_lem create_address get_statements
                    (request_verifiable_presentation api) (issuers_of telegram discord p)
                    (hash timestamp) p.full_name_checked true returned in
                record {
                  api = api;
                  proof = proof;
                  calls = calls;
                  names = name_calls p.full_name_checked;
                  connected = refl;
                  asked = rw (sym (issuers_of-chosen telegram discord p)) asked;
                  named = name_calls-IsNameAsked Address p.full_name_checked;
                  obtained = obtained;
                  agreed = posted_accepted (post proof timestamp) (grind arith);
                  enough =
                      rw (asked_count create_address telegram discord p calls asked)
                        (two_chosen (checked_count p) (ground arith));
                }
            | inr (t, threw) ↦ grind arith
          ]
