-- ===== src/Registry/Types.antt =====
-- What the functions of test-tools/issuer-front-end/src/writing_to_blockchain.ts hand to the wallet,
-- and what they throw.
use concordium_web3id.Numbers.{SignedInt}
use concordium_web3id.Common.{ℕ, String, Bool, Option, List, Result}

-- `error` is an `Error` thrown by this code, with its message; the others are thrown by the
-- runtime: `JSON.parse` on malformed text, `toISOString` on a date that did not parse.
pub data Error : Type 0 where
  error : String → Error
  syntax_error : Error
  range_error : Error

-- A contract index that is set: any number, with what `ContractAddress.create` of the web SDK returns
-- or throws for it. `Number(target.value)` may be NaN, negative or a fraction.
pub record Index : Type 0 where
  pub number : String
  pub address : Result Error ℕ

-- `{ hash: { None: [] }, url }`: the code never sets the hash.
pub record MetadataUrl : Type 0 where
  pub hash : Option String
  pub url : String

-- The contract parameter of each entry point, by the fields that the code sets.
pub data Parameter (Schema Keys : Type 0) : Type 0 where
  init_registry :
      (issuer_metadata : MetadataUrl) (credential_type issuer_key : String) (schema : Schema)
      (issuer_account : Option String) (revocation_keys : Keys)
      → Parameter Schema Keys
  schema_ref : MetadataUrl → Parameter Schema Keys
  credential_metadata : List (String × MetadataUrl) → Parameter Schema Keys
  issuer_metadata : MetadataUrl → Parameter Schema Keys
  revocation :
      (credential_id : String) (reason : Option String) (auxiliary_data : List (Option SignedInt))
      → Parameter Schema Keys
  restoration : (credential_id : String) (reason : Option String) → Parameter Schema Keys
  registration :
      (holder_id : String) (holder_revocable : Bool) (valid_from : String)
      (valid_until : Option String) (metadata_url : MetadataUrl)
      (auxiliary_data : List (Option SignedInt))
      → Parameter Schema Keys

-- `InitContractPayload` and `UpdateContractPayload`.
pub data Payload : Type 0 where
  init_contract : (amount : ℕ) (module_ref init_name : String) (max_energy : ℕ) → Payload
  update_contract :
      (amount : ℕ) (index subindex : ℕ) (receive_name : String) (max_energy : ℕ) → Payload

-- The arguments of `connection.signAndSendTransaction`.
pub record Transaction (Schema Keys : Type 0) : Type 0 where
  pub account : String
  pub payload : Payload
  pub parameter : Parameter Schema Keys
