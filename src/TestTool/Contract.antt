-- ===== src/TestTool/Contract.antt =====
-- The contract on the page of the test tool: test-tools/issuer-front-end/src/reading_from_blockchain.ts,
-- and the input for the contract's index with the polling in Main.tsx. The node, the web SDK's
-- (de)serialization and `JSON` come in as functions or as what they return; `show` is a number in a
-- template. `invoke` makes the contract's address and fails where that throws. Without a client the
-- message of a failed call is written also for a number that is no integer, where `BigInt` throws.
pub mod Reading
use Prim.Native.String.{◌++◌}
use concordium_web3id.Registry.Types.{Index}
use concordium_web3id.Common.{
  str_eq, ◌||◌, ℕ, String, Bool, true, false, not, Option, none, some, List, [], ◌∷◌, Result, ok,
  err, ◌>>=◌, ◌>>◌, throw_if, utf16_length, ◌==◌, if◌then◌else◌,
}
use concordium_web3id.TestTool.Attributes.{AttributeDetails}

-- What `grpcClient?.invokeContract` resolves to: nothing without a client.
pub data Invoked (Bytes : Type 0) : Type 0 where
  no_client : Invoked Bytes
  failure : Invoked Bytes
  success : (return_value : Option Bytes) → Invoked Bytes

-- The return value, if there is one.
abbrev pub return_value : {Bytes : Type 0} → Invoked Bytes → Option Bytes
return_value no_client = none
return_value failure = none
return_value (success r) = r

abbrev pub or_message : {A : Type 0} → Option A → String → Result String A
or_message none message = err message
or_message (some a) message = ok a

abbrev pub call_failed : String → String → String
call_failed method index =
    "RPC call 'invokeContract' on method '" ++ method ++ "' of contract ' " ++ index ++ " ' failed"

abbrev pub reading_failed : String → String → String
reading_failed method index =
    "Deserializing the returnValue from the '" ++ method ++ "' method of contract '" ++ index
    ++ " ' failed"

abbrev pub index_missing : String
index_missing = "Set Smart Contract Index in Step 3"

module _ {Bytes State : Type 0} (show : Index → String) where
  -- `registryMetadata`, before the result is written as JSON.
  unfoldable pub registry_metadata :
      (invoke : Index → Result String (Invoked Bytes)) (deserialize : Bytes → Option State)
      (index : Option Index)
      → Result String State
  registry_metadata invoke deserialize index = do
    i ← or_message index index_missing
    res ← invoke i
    bytes ←
        or_message (return_value res) (call_failed "credential_registry.registryMetadata" (show i))
    or_message (deserialize bytes) (reading_failed "credential_registry.registryMetadata" (show i))

  -- `getCredentialEntry`, likewise; `serialize` may throw.
  unfoldable pub get_credential_entry :
      {Parameter : Type 0} (serialize : String → Result String Parameter)
      (invoke : Parameter → Index → Result String (Invoked Bytes))
      (deserialize : Bytes → Option State) (public_key : String) (index : Option Index)
      → Result String State
  get_credential_entry serialize invoke deserialize key index = do
    throw_if (not (utf16_length key == 64)) "PublicKey needs a length of 64"
    i ← or_message index index_missing
    parameter ← serialize key
    res ← invoke parameter i
    bytes ←
        or_message (return_value res) (call_failed "credential_registry.credentialEntry" (show i))
    or_message (deserialize bytes) (reading_failed "credential_registry.credentialEntry" (show i))

-- The metadata of a contract, as far as the page reads it.
pub record Metadata : Type 0 where
  pub schema_url : String
  pub credential_type : String

pub record Page : Type 0 where
  pub index : Option Index
  pub smart_contract_state : Option Metadata
  pub view_error : String
  pub schema_from_contract : Option String
  pub type_from_contract : Option String
  pub manual_schema : Option String
  pub manual_type : Option String
  pub attribute_schema : List AttributeDetails
  pub fetching_error : String

-- The start of `changeCredentialRegistryContratIndexHandler`.
unfoldable pub change_index : Index → Page → Page
change_index n p = record {
  index = some n;
  smart_contract_state = p.smart_contract_state;
  view_error = p.view_error;
  schema_from_contract = p.schema_from_contract;
  type_from_contract = p.type_from_contract;
  manual_schema = p.manual_schema;
  manual_type = p.manual_type;
  attribute_schema = p.attribute_schema;
  fetching_error = p.fetching_error;
}

-- Its answer from the node; the schema is fetched next if there is one.
unfoldable pub metadata_read : Result String Metadata → Page → Page
metadata_read (ok m) p = record {
  index = p.index;
  smart_contract_state = some m;
  view_error = "";
  schema_from_contract = some m.schema_url;
  type_from_contract = some m.credential_type;
  manual_schema = some m.schema_url;
  manual_type = some m.credential_type;
  attribute_schema = p.attribute_schema;
  fetching_error = p.fetching_error;
}
metadata_read (err message) p = record {
  index = p.index;
  smart_contract_state = none;
  view_error = message;
  schema_from_contract = p.schema_from_contract;
  type_from_contract = p.type_from_contract;
  manual_schema = p.manual_schema;
  manual_type = p.manual_type;
  attribute_schema = [];
  fetching_error = p.fetching_error;
}

-- The schema's attributes, or the message of what went wrong.
unfoldable pub schema_read : Result String (List AttributeDetails) → Page → Page
schema_read r p = record {
  index = p.index;
  smart_contract_state = p.smart_contract_state;
  view_error = p.view_error;
  schema_from_contract = p.schema_from_contract;
  type_from_contract = p.type_from_contract;
  manual_schema = p.manual_schema;
  manual_type = p.manual_type;
  attribute_schema = elim r [ ok ds ↦ ds | err m ↦ [] ];
  fetching_error = elim r [
    | ok ds ↦ ""
    | err m ↦ "Could not fetch credential schema from smart contract: " ++ m
  ];
}

-- The answer to the polling, which only refreshes the state that is shown.
unfoldable pub polled : Result String Metadata → Page → Page
polled r p = record {
  index = p.index;
  smart_contract_state = elim r [ ok m ↦ some m | err message ↦ none ];
  view_error = elim r [ ok m ↦ "" | err message ↦ message ];
  schema_from_contract = p.schema_from_contract;
  type_from_contract = p.type_from_contract;
  manual_schema = p.manual_schema;
  manual_type = p.manual_type;
  attribute_schema = elim r [ ok m ↦ p.attribute_schema | err message ↦ [] ];
  fetching_error = p.fetching_error;
}

-- Whether the state is polled: an index of 0 or NaN is falsy.
unfoldable pub is_polled : (connected : Bool) → Page → Bool
is_polled connected p =
    if connected
    then elim p.index [ none ↦ false | some n ↦ not (str_eq n.number "0" || str_eq n.number "NaN") ]
    else false
