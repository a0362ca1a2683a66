-- ===== src/Explorer/Types.antt =====
-- test-tools/proof-explorer/src/types.ts, and the identifiers that its statements name.
pub use concordium_web3id.Numbers.{SignedInt}
use concordium_web3id.Common.{ℕ, String, List}

pub record IdentityProvider : Type 0 where
  pub name : String
  pub id : ℕ

-- The `type` of a statement; `undefined` is `none` of an `Option Kind`.
pub data Kind : Type 0 where
  account id web3id : Kind

-- `TopLevelStatement`, over the atomic statements `A` and the contract addresses `Address`, which
-- are types of the web SDK.
pub data TopLevelStatement (A Address : Type 0) : Type 0 where
  account : (idps : List IdentityProvider) (statement : List A) → TopLevelStatement A Address
  id : (id_cred_idps : List IdentityProvider) (statement : List A) → TopLevelStatement A Address
  web3id : (issuers : List Address) (statement : List A) → TopLevelStatement A Address

module _ {A Address : Type 0} where
  abbrev pub kind : TopLevelStatement A Address → Kind
  kind (account idps s) = Kind.account
  kind (id idps s) = Kind.id
  kind (web3id issuers s) = Kind.web3id

  -- `s.statement.statement`
  abbrev pub atoms : TopLevelStatement A Address → List A
  atoms (account idps s) = s
  atoms (id idps s) = s
  atoms (web3id issuers s) = s

pub data SubjectClaimsType : Type 0 where
  account_or_identity_claims only_account_claims only_identity_claims : SubjectClaimsType
