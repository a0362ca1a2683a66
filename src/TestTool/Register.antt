-- ===== src/TestTool/Register.antt =====
-- The buttons of test-tools/issuer-front-end/src/Main.tsx that add a credential to the wallet and
-- register it in the contract: "Register Credential" (steps 4, 12 and 13) and the two buttons of
-- step 11. A handler is cut where it waits: at the wallet's provider, at the wallet's call with the
-- credential's id, and at the backend's signature. Arguments stand for the runtime: `big_int`,
-- `is_date` and `iso_string` as in Attributes and Registry, `show` for a number in a template, and
-- `stringify` for the package json-bigint.
pub mod Calls
pub mod Consistent
use Prim.Native.Char.{code}
use Prim.Native.String.{◌++◌}
use concordium_web3id.Common.{
  ℕ, String, Bool, true, false, Option, none, some, List, [], ◌∷◌, ◌≡◌, refl, Result, ok, err,
  ◌>>=◌, ◌==◌, if◌then◌else◌, get_last?,
}
use concordium_web3id.Numbers.{SignedInt}
use concordium_web3id.Registry.Types.{Index, Error, Transaction}
use concordium_web3id.Registry.Writing.{issue_credential}
use concordium_web3id.TestTool.Hex.{hex_to_bytes}
use concordium_web3id.TestTool.Attributes.{
  AttributeDetails, Value, Message, Parsed, parse_attributes_from_form,
}
use concordium_web3id.TestTool.Backend.{Fetch, Answer, request_signature}

-- The four handlers: register the credential while the wallet waits, leave that to a second button,
-- answer with a wrong proof, and use attributes that are not the schema's.
pub data Scenario : Type 0 where
  regular : Scenario
  delayed : Scenario
  wrong_proof : Scenario
  wrong_attributes : Scenario

-- What a handler reads of the page when its button is pressed, and `WRONG_ATTRIBUTES` as it is then.
pub record Inputs : Type 0 where
  pub account : String
  pub index : Option Index
  pub schema_from_contract : Option String
  pub type_from_contract : Option String
  pub manual_type : Option String
  pub manual_schema : Option String
  pub attribute_schema : List AttributeDetails
  pub wrong_attributes_list : List AttributeDetails
  pub seed : String
  pub metadata_url : String
  pub auxiliary_data : String
  pub has_expiry : Bool
  pub valid_from : String
  pub valid_until : String
  pub is_holder_revocable : Bool

-- What the handlers show.
pub record Shown : Type 0 where
  pub tx_hash : String
  pub transaction_error : String
  pub credential_public_key : String
  pub parsing_error : Option Message

abbrev pub cleared : Shown
cleared = record {
  tx_hash = "";
  transaction_error = "";
  credential_public_key = "";
  parsing_error = none;
}

abbrev pub with_error : String → Shown → Shown
with_error message s = record {
  tx_hash = s.tx_hash;
  transaction_error = message;
  credential_public_key = s.credential_public_key;
  parsing_error = s.parsing_error;
}

abbrev pub with_messages : List Message → Shown → Shown
with_messages messages s = record {
  tx_hash = s.tx_hash;
  transaction_error = s.transaction_error;
  credential_public_key = s.credential_public_key;
  parsing_error = elim (get_last? messages) [ none ↦ s.parsing_error | some m ↦ some m ];
}

-- The credential that `provider.addWeb3IdCredential` is given; its schema's address and the time of
-- issuance are in `$schema` and `issuanceDate`, which are left out.
pub record Credential (Big : Type 0) : Type 0 where
  pub type : List String
  pub issuer : String
  pub attributes : List (String × Value Big)
  pub schema_id : String
  pub schema_type : String
  pub metadata_url : String

pub record Commitments (Big : Type 0) : Type 0 where
  pub attributes : List (String × Value Big)
  pub holder_id : String
  pub index : Index
  pub subindex : ℕ

pub record Signed (Randomness : Type 0) : Type 0 where
  pub signature : String
  pub randomness : Randomness

-- The wallet's answer: `proofObject`, whose other fields are constants, and the randomness.
pub record Proof (Randomness : Type 0) : Type 0 where
  pub verification_method : String
  pub proof_value : String
  pub randomness : Randomness

-- `WRONG_ATTRIBUTES` as it starts; its input changes it in place.
abbrev pub wrong_list : List AttributeDetails
wrong_list =
    record {
      tag = "myWrongAttribute";
      type = "string";
      value = some "myWrongValue";
      required = false;
    }
    ∷ []

abbrev pub no_contract : String
no_contract = "Set Smart Contract Index in Step 3"

-- The tests before the wallet's provider is asked for.
unfoldable pub contract_of : Scenario → Inputs → Result String Index
contract_of delayed i = elim i.index [ none ↦ err no_contract | some n ↦ ok n ]
contract_of _ i = elim i.index [
  | none ↦ err no_contract
  | some n ↦ elim i.schema_from_contract [
    | none ↦ err no_contract
    | some s ↦ elim i.type_from_contract [ none ↦ err no_contract | some t ↦ ok n ]
  ]
]

-- The type and the schema, tested after the form is read if they were entered by hand.
unfoldable pub kind_of : Scenario → Inputs → Result String (String × String)
kind_of delayed i = elim i.manual_type [
  | none ↦ err "Set manualCredentialType"
  | some t ↦ elim i.manual_schema [ none ↦ err "Set manualCredentialSchema" | some s ↦ ok (t, s) ]
]
kind_of _ i = elim i.type_from_contract [
  | none ↦ err no_contract
  | some t ↦ elim i.schema_from_contract [ none ↦ err no_contract | some s ↦ ok (t, s) ]
]

abbrev pub form_of : Scenario → Inputs → List AttributeDetails
form_of wrong_attributes i = i.wrong_attributes_list
form_of _ i = i.attribute_schema

abbrev pub issuer_did : String → String
issuer_did index = "did:ccd:testnet:sci:" ++ index ++ ":0/issuer"

-- What pressing a button shows, and the contract and the credential for the wallet's call if the
-- handler gets there.
pub record Pressed (Big : Type 0) : Type 0 where
  pub shown : Shown
  pub request : Option (Index × Credential Big)

module _ {Big : Type 0} (big_int : String → Option Big) (is_date : String → Bool)
    (show : Index → String) where
  abbrev pub credential_of :
      Inputs → Index → String × String → List (String × Value Big) → Credential Big
  credential_of i n kind attributes = record {
    type = "VerifiableCredential" ∷ "ConcordiumVerifiableCredential" ∷ kind.0 ∷ [];
    issuer = issuer_did (show n);
    attributes = attributes;
    schema_id = kind.1;
    schema_type = kind.0;
    metadata_url = i.metadata_url;
  }

  -- The handler up to `provider.addWeb3IdCredential`; `provider` is whether
  -- `detectConcordiumProvider` finds the wallet, without which its promise is rejected.
  unfoldable pub press : Scenario → Inputs → (provider : Bool) → Pressed Big
  unfolding contract_of kind_of parse_attributes_from_form
  press sc i provider = elim (contract_of sc i) [
    | err m ↦ record { shown = with_error m cleared; request = none }
    | ok n ↦
        if provider
        then elim (parse_attributes_from_form big_int is_date (form_of sc i)) [
          | err p ↦ record { shown = with_messages p.messages cleared; request = none }
          | ok p ↦ elim (kind_of sc i) [
            | err m ↦ record {
              shown = with_error m (with_messages p.messages cleared);
              request = none;
            }
            | ok kind ↦ record {
              shown = with_messages p.messages cleared;
              request = some (n, credential_of i n kind p.attributes);
            }
          ]
        ]
        else record { shown = cleared; request = none }
  ]

  -- The buttons of steps 11, 12 and 13.
  abbrev pub press_delayed : Inputs → (provider : Bool) → Pressed Big
  press_delayed i provider = press delayed i provider

  abbrev pub press_wrong_proof : Inputs → (provider : Bool) → Pressed Big
  press_wrong_proof i provider = press wrong_proof i provider

  abbrev pub press_wrong_attributes : Inputs → (provider : Bool) → Pressed Big
  press_wrong_attributes i provider = press wrong_attributes i provider
