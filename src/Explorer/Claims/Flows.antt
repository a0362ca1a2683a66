-- ===== src/Explorer/Claims/Flows.antt =====
-- Which statements each of the two flows of test-tools/proof-explorer takes.
use concordium_web3id.Common.{
  ◌≡◌, ◌↔◌, Bool, true, false, List, [], ◌∷◌, map, refl, ap, arith, select, All, is_ok,
}
use concordium_web3id.Explorer.Types.{
  IdentityProvider, TopLevelStatement, account, id, web3id, SubjectClaimsType, atoms,
}
use concordium_web3id.Explorer.Claims.{
  did, get_subject_claims, credential_statements, source, network,
}

dids : (idps : List IdentityProvider) → All (λ d. d.network ≡ network) (map did idps)
dids [] = tt
dids (p ∷ ps) = (refl, dids ps)

module _ {A Address : Type 0} where
  abbrev pub is_identity : TopLevelStatement A Address → Bool
  is_identity (id idps s) = true
  is_identity _ = false

  -- The V1 flow claims exactly the identity statements, in order and with their atomic statements,
  -- each from the chosen sources and with issuers of the one network.
  pub get_subject_claims_lem :
      (l : List (TopLevelStatement A Address)) (type : SubjectClaimsType)
      → (map (λ c. c.statements) (get_subject_claims l type) ≡ map atoms (select is_identity l))
        × All
            (λ c. (c.source ≡ source type) × All (λ d. d.network ≡ network) c.issuers)
            (get_subject_claims l type)
  unfolding get_subject_claims
  get_subject_claims_lem [] type = (refl, tt)
  get_subject_claims_lem (id idps s ∷ rest) type =
      let (same, sound) = get_subject_claims_lem rest type in
      (ap (λ t. s ∷ t) same, ((refl, dids idps), sound))
  get_subject_claims_lem (account idps s ∷ rest) type = get_subject_claims_lem rest type
  get_subject_claims_lem (web3id issuers s ∷ rest) type = get_subject_claims_lem rest type

  -- The V0 flow accepts a list exactly when the V1 flow finds nothing in it to claim.
  pub flows_exclude :
      (l : List (TopLevelStatement A Address)) (type : SubjectClaimsType)
      → (is_ok (credential_statements l) ≡ true) ↔ (get_subject_claims l type ≡ [])
  unfolding credential_statements get_subject_claims
  flows_exclude [] type = ground arith
  flows_exclude (id idps s ∷ rest) type = ground arith
  flows_exclude (account idps s ∷ rest) type = ground (arith, flows_exclude rest type)
  flows_exclude (web3id issuers s ∷ rest) type = ground (arith, flows_exclude rest type)
