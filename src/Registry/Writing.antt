-- ===== src/Registry/Writing.antt =====
-- test-tools/issuer-front-end/src/writing_to_blockchain.ts. Each function returns what it passes to
-- `connection.signAndSendTransaction`, or what it throws before that call. Arguments stand for the
-- runtime's `JSON.parse` (`json_parse`) and `new Date(Date.parse(s)).toISOString()` (`iso_string`),
-- which return `none` where they throw, and for the deployed module's reference.
use concordium_web3id.Numbers.{SignedInt}
use concordium_web3id.Common.{
  String, Bool, true, false, not, Option, none, some, List, [], ◌∷◌, Result, ok, err, ◌>>=◌, ◌>>◌,
  throw_if, utf16_length, is_blank, ◌==◌, if◌then◌else◌,
}
use concordium_web3id.Registry.Types.{
  Index, Error, error, syntax_error, range_error, MetadataUrl, Parameter, init_registry, schema_ref,
  credential_metadata, issuer_metadata, revocation, restoration, registration, init_contract,
  update_contract, Transaction,
}

-- `{ hash: { None: [] }, url }`
abbrev pub unhashed : String → MetadataUrl
unhashed url = record { hash = none; url = url }

-- `x === undefined ? throw new Error(msg) : x`
abbrev pub required : {A : Type 0} → Option A → String → Result Error A
required none msg = err (error msg)
required (some a) msg = ok a

abbrev pub or_throw : {A : Type 0} → Option A → Error → Result Error A
or_throw none e = err e
or_throw (some a) e = ok a

-- `key.length !== 64`
abbrev pub needs_64 : String → String → Result Error (Unit {0})
needs_64 key msg = throw_if (not (utf16_length key == 64)) (error msg)

-- `reason === '' ? { None: [] } : { Some: [{ reason }] }`
abbrev pub reason_option : String → Option String
reason_option reason = if is_blank reason then none else some reason

abbrev pub no_index : String
no_index = "Set credentialRegistryContractIndex"

abbrev pub bad_key : String
bad_key = "credentialPublicKey needs a length of 64"

-- An update of the contract at `index`, with no CCD and at most 30000 energy; `ContractAddress.create`
-- throws for a number that is no index.
abbrev pub update :
    {Schema Keys : Type 0}
    → String
    → Index
    → String
    → Parameter Schema Keys
    → Result Error (Transaction Schema Keys)
update account index receive_name parameter = do
  address ← index.address
  ok (record {
    account = account;
    payload = update_contract 0 address 0 receive_name 30000;
    parameter = parameter;
  })

-- The end of the validity: none unless the credential expires.
unfoldable pub valid_until_option :
    (iso_string : String → Option String) → Bool → String → Result Error (Option String)
valid_until_option iso_string false valid_until = ok none
valid_until_option iso_string true valid_until = do
  throw_if (is_blank valid_until) (error "Set validUntilDate")
  iso ← or_throw (iso_string valid_until) range_error
  ok (some iso)

module _ {Schema Keys : Type 0} where
  unfoldable pub create_new_issuer :
      (json_parse : String → Option Keys) (module_ref : String)
      (account issuer_meta_data issuer_key : String) (credential_schema : Schema)
      (revocation_keys credential_type : String)
      → Result Error (Transaction Schema Keys)
  create_new_issuer json_parse module_ref account url key schema keys type = do
    throw_if (is_blank key) (error "Create issuer verifyKey in step 1")
    needs_64 key "issuerKey needs a length of 64"
    parsed ← or_throw (json_parse keys) syntax_error
    ok (record {
      account = account;
      payload = init_contract 0 module_ref "credential_registry" 30000;
      parameter = init_registry (unhashed url) type key schema (some account) parsed;
    })

  unfoldable pub update_credential_schema :
      (account : String) (index : Option Index) (credential_schema : String)
      → Result Error (Transaction Schema Keys)
  update_credential_schema account index url = do
    i ← required index no_index
    update account i "credential_registry.updateCredentialSchema" (schema_ref (unhashed url))

  unfoldable pub update_credential_metadata :
      (account : String) (index : Option Index) (credential_metadata credential_public_key : String)
      → Result Error (Transaction Schema Keys)
  update_credential_metadata account index url key = do
    i ← required index no_index
    needs_64 key bad_key
    update account i "credential_registry.updateCredentialMetadata"
        (credential_metadata ((key, unhashed url) ∷ []))

  unfoldable pub update_issuer_metadata :
      (account : String) (index : Option Index) (issuer_meta_data : String)
      → Result Error (Transaction Schema Keys)
  update_issuer_metadata account index url = do
    i ← required index no_index
    update account i "credential_registry.updateIssuerMetadata" (issuer_metadata (unhashed url))

  unfoldable pub revoke_credential :
      (account credential_public_key : String) (index : Option Index)
      (auxiliary_data : List (Option SignedInt)) (reason : String)
      → Result Error (Transaction Schema Keys)
  revoke_credential account key index aux reason = do
    needs_64 key bad_key
    i ← required index no_index
    update account i "credential_registry.revokeCredentialIssuer"
        (revocation key (reason_option reason) aux)

  unfoldable pub restore_credential :
      (account credential_public_key : String) (index : Option Index) (reason : String)
      → Result Error (Transaction Schema Keys)
  restore_credential account key index reason = do
    needs_64 key bad_key
    i ← required index no_index
    update account i "credential_registry.restoreCredential"
        (restoration key (reason_option reason))

  unfoldable pub issue_credential :
      (iso_string : String → Option String) (account credential_public_key : String)
      (has_expiry : Bool) (valid_from valid_until credential_meta_data_url : String)
      (is_holder_revocable : Bool) (index : Option Index) (auxiliary_data : List (Option SignedInt))
      → Result Error (Transaction Schema Keys)
  unfolding valid_until_option
  issue_credential iso_string account key has_expiry from until url revocable index aux = do
    needs_64 key bad_key
    throw_if (is_blank from) (error "Set validFromDate")
    from_iso ← or_throw (iso_string from) range_error
    until_iso ← valid_until_option iso_string has_expiry until
    i ← required index no_index
    update account i "credential_registry.registerCredential"
        (registration key revocable from_iso until_iso (unhashed url) aux)
