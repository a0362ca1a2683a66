-- ===== src/Explorer/Claims.antt =====
-- The two conversions of the statement under construction: `getSubjectClaims` of
-- test-tools/proof-explorer/src/components/ProofExplorer.tsx for the V1 flow, and the `map` at the
-- head of `submitProof` in src/services/verification-service.tsx for the V0 flow.
pub mod Flows
use concordium_web3id.Common.{ℕ, String, List, [], ◌∷◌, map, Result, ok, err, ◌>>=◌}
use concordium_web3id.Explorer.Types.{
  IdentityProvider, TopLevelStatement, account, id, web3id, SubjectClaimsType,
  account_or_identity_claims, only_account_claims, only_identity_claims,
}
use concordium_web3id.Explorer.Thrown.{Thrown, error}

pub data CredType : Type 0 where
  identity_credential account_credential : CredType

-- `new IdentityProviderDID(NETWORK, index)`
pub record ProviderDid : Type 0 where
  pub network : String
  pub index : ℕ

pub record SubjectClaims (A : Type 0) : Type 0 where
  pub source : List CredType
  pub statements : List A
  pub issuers : List ProviderDid

abbrev pub network : String
network = "Testnet"

abbrev pub source : SubjectClaimsType → List CredType
source account_or_identity_claims = identity_credential ∷ account_credential ∷ []
source only_account_claims = account_credential ∷ []
source only_identity_claims = identity_credential ∷ []

abbrev pub did : IdentityProvider → ProviderDid
did idp = record { network = network; index = idp.id }

-- The issuers of a credential statement of the V0 flow, by the type of its qualifier.
pub data IdQualifier (Address : Type 0) : Type 0 where
  cred : List ℕ → IdQualifier Address
  sci : List Address → IdQualifier Address

pub record CredentialStatement (A Address : Type 0) : Type 0 where
  pub statement : List A
  pub id_qualifier : IdQualifier Address

module _ {A Address : Type 0} where
  -- A statement of another type is reported on the console and left out.
  unfoldable pub get_subject_claims :
      List (TopLevelStatement A Address) → SubjectClaimsType → List (SubjectClaims A)
  get_subject_claims [] type = []
  get_subject_claims (id idps s ∷ rest) type =
      record { source = source type; statements = s; issuers = map did idps }
      ∷ get_subject_claims rest type
  get_subject_claims (_ ∷ rest) type = get_subject_claims rest type

  abbrev pub credential_statement :
      TopLevelStatement A Address → Result Thrown (CredentialStatement A Address)
  credential_statement (account idps s) =
      ok (record { statement = s; id_qualifier = cred (map (λ p. p.id) idps) })
  credential_statement (web3id issuers s) =
      ok (record { statement = s; id_qualifier = sci issuers })
  credential_statement (id idps s) =
      err (error "Identity credentials cannot be proven by this flow. Use V1 flow instead.")

  unfoldable pub credential_statements :
      List (TopLevelStatement A Address) → Result Thrown (List (CredentialStatement A Address))
  credential_statements [] = ok []
  credential_statements (s ∷ rest) = do
    c ← credential_statement s
    cs ← credential_statements rest
    ok (c ∷ cs)
