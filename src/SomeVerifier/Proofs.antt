-- ===== src/SomeVerifier/Proofs.antt =====
-- `connectWallet` and `requestProof` of examples/some-verifier/frontend/src/lib/util.ts. The wallet's
-- API and the web SDK's contract addresses and statements come in as functions; the statement builder
-- of the SDK is represented by the calls that the code makes of it.
use concordium_web3id.Common.{
  includes, >>=-eq-ok, ℕ, ◌≡◌, ◌⊎◌, inl, inr, refl, String, Bool, true, false, Option, none, some,
  List, [], ◌∷◌, ◌++◌, Result, ok, err, ◌>>=◌, if◌then◌else◌, Result-cases,
}

pub data ConnectionErrorCode : Type 0 where
  not_found rejected : ConnectionErrorCode

-- What was thrown: `none` is `undefined`.
abbrev connection_error : {A E : Type 0} → Option E → Result ConnectionErrorCode A
connection_error none = err not_found
connection_error (some e) = err rejected

unfoldable pub connect_wallet :
    {Api E : Type 0} (detect : Result (Option E) Api)
    (request_accounts : Api → Result (Option E) (Unit {0}))
    → Result ConnectionErrorCode Api
connect_wallet detect request_accounts =
    elim (detect >>= λ api. request_accounts api >>= λ done. ok api) [
      | ok api ↦ ok api
      | err e ↦ connection_error e
    ]

pub record Issuer : Type 0 where
  pub url : String
  pub index : String
  pub subindex : String

-- A call of the builder, with the attributes that its callback reveals.
pub data Call (Address : Type 0) : Type 0 where
  for_verifiable_credentials : List Address → (revealed : List String) → Call Address
  for_identity_credentials : (idps : List ℕ) (revealed : List String) → Call Address

abbrev pub revealed : Bool → List String
revealed reveal_username = if reveal_username then "userId" ∷ "username" ∷ [] else "userId" ∷ []

abbrev pub name_calls : {Address : Type 0} → Bool → List (Call Address)
name_calls reveal_name =
    if reveal_name
    then for_identity_credentials (0 ∷ 1 ∷ 2 ∷ 3 ∷ []) ("firstName" ∷ "lastName" ∷ []) ∷ []
    else []

module _ {Address Thrown : Type 0} (create_address : String → String → Result Thrown Address) where
  -- The loop over the issuers.
  unfoldable pub issuer_calls : Bool → List Issuer → Result Thrown (List (Call Address))
  issuer_calls reveal_username [] = ok []
  issuer_calls reveal_username (i ∷ rest) = do
    address ← create_address i.index i.subindex
    calls ← issuer_calls reveal_username rest
    ok (for_verifiable_credentials (address ∷ []) (revealed reveal_username) ∷ calls)

  unfoldable pub request_proof :
      {S P : Type 0} (get_statements : List (Call Address) → S)
      (request_verifiable_presentation : String → S → Result Thrown P)
      → List Issuer
      → (challenge : String) → (reveal_name reveal_username : Bool) → Result Thrown P
  unfolding issuer_calls
  request_proof get_statements request_verifiable_presentation issuers challenge reveal_name
        reveal_username =
      do
        calls ← issuer_calls reveal_username issuers
        request_verifiable_presentation challenge (get_statements (calls ++ name_calls reveal_name))

-- A wallet is connected exactly when it is found and grants access; a failure is reported as "not
-- found" exactly when `undefined` was thrown, and otherwise as rejected.
pub connect_wallet_lem :
    {Api E : Type 0} (detect : Result (Option E) Api)
    (request_accounts : Api → Result (Option E) (Unit {0}))
    → ((api : Api) × (connect_wallet detect request_accounts ≡ ok api)
        × (detect ≡ ok api)
        × (request_accounts api ≡ ok tt))
      ⊎ (((connect_wallet detect request_accounts ≡ err not_found)
            × ((detect ≡ err none)
                ⊎ ((api : Api) × (detect ≡ ok api) × (request_accounts api ≡ err none))))
          ⊎ ((connect_wallet detect request_accounts ≡ err rejected)
              × (e : E) × ((detect ≡ err (some e))
                  ⊎ ((api : Api) × (detect ≡ ok api) × (request_accounts api ≡ err (some e))))))
unfolding connect_wallet
connect_wallet_lem (err none) request_accounts = inr (inl (refl, inl refl))
connect_wallet_lem (err (some e)) request_accounts = inr (inr (refl, e, inl refl))
connect_wallet_lem (ok api) request_accounts = elim (Result-cases (request_accounts api)) [
  | inl (done, granted) ↦ inl (api, rw (granted, connect_wallet) refl, refl, granted)
  | inr (none, refused) ↦ inr (inl (rw (refused, connect_wallet) refl, inr (api, refl, refused)))
  | inr (some e, refused) ↦
      inr (inr (rw (refused, connect_wallet) refl, e, inr (api, refl, refused)))
]

-- The independent description of the builder calls: one per issuer, each with that issuer's own
-- contract and the attributes to reveal.
abbrev pub IsAsked :
    {Address Thrown : Type 0}
    → (String → String → Result Thrown Address)
    → Bool
    → List Issuer
    → List (Call Address)
    → Type 0
IsAsked create_address name [] [] = Unit
IsAsked create_address name (i ∷ is) (for_verifiable_credentials (a ∷ []) attributes ∷ calls) =
    (create_address i.index i.subindex ≡ ok a)
    × (includes attributes "userId" ≡ true)
    × (includes attributes "username" ≡ name)
    × IsAsked create_address name is calls
IsAsked create_address name _ _ = ⊥

revealed_asked :
    (name : Bool)
    → (includes (revealed name) "userId" ≡ true) × (includes (revealed name) "username" ≡ name)
revealed_asked true = (refl, refl)
revealed_asked false = (refl, refl)

issuer_calls-IsAsked :
    {Address Thrown : Type 0} (create_address : String → String → Result Thrown Address)
    (name : Bool) (issuers : List Issuer) {calls : List (Call Address)}
    → issuer_calls create_address name issuers ≡ ok calls
    → IsAsked create_address name issuers calls
unfolding issuer_calls
issuer_calls-IsAsked create_address name [] {calls} e = let same : calls ≡ [] = cc (e) in rw same tt
issuer_calls-IsAsked create_address name (i ∷ is) {calls} e =
    let (a, made, e1) = >>=-eq-ok (create_address i.index i.subindex) _ e in
    let (rest, later, e2) = >>=-eq-ok (issuer_calls create_address name is) _ e1 in
    let same : calls ≡ for_verifiable_credentials (a ∷ []) (revealed name) ∷ rest = cc (e2) in
    let (user_id, username) = revealed_asked name in
    rw same (made, user_id, username, issuer_calls-IsAsked create_address name is later)

-- A proof that `requestProof` returns is the wallet's answer for the given challenge to statements
-- that ask of the credential of each issuer, in order, for the user id, and for the user name exactly
-- if that is wanted, and then for first and last name if these are wanted.
pub request_proof_lem :
    {Address Thrown S P : Type 0} (create_address : String → String → Result Thrown Address)
    (get_statements : List (Call Address) → S) (wallet : String → S → Result Thrown P)
    (issuers : List Issuer) (challenge : String) (reveal_name reveal_username : Bool) {p : P}
    → request_proof create_address get_statements wallet issuers challenge reveal_name
        reveal_username
      ≡ ok p
    → (calls : List (Call Address)) × IsAsked create_address reveal_username issuers calls
      × (wallet challenge (get_statements (calls ++ name_calls reveal_name)) ≡ ok p)
unfolding request_proof
request_proof_lem create_address get_statements wallet issuers challenge reveal_name reveal_username
      e =
    let (calls, made, e1) = >>=-eq-ok (issuer_calls create_address reveal_username issuers) _ e in
    (calls, issuer_calls-IsAsked create_address reveal_username issuers made, e1)
