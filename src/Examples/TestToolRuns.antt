-- ===== src/Examples/TestToolRuns.antt =====
-- Tests of the test tool's page.
use Prim.Native.String.{◌++◌ as str_append}
use concordium_web3id.Common.{
  ℕ, ◌≡◌, ◌↔◌, ◌≢◌, refl, String, Bool, true, false, Option, none, some, List, [], ◌∷◌, ok, All,
  map, find, assign, arith, is_some, str_eq, if◌then◌else◌,
}
use concordium_web3id.Registry.Types.{Index, Transaction, update_contract, registration}
use concordium_web3id.TestTool.Hex.{hex_to_bytes, code_units}
use concordium_web3id.TestTool.Hex.RoundTrip.{byte, hex_to_bytes-written}
use concordium_web3id.TestTool.Attributes.{
  AttributeDetails, text, big, Parsed, parse_attributes_from_form,
}
use concordium_web3id.TestTool.Attributes.Form.{
  entered, meant, is_readable, parse_attributes_from_form-find,
}
use concordium_web3id.TestTool.Attributes.Types.{HasType, parse_attributes_from_form-HasType}
use concordium_web3id.TestTool.Register.{
  regular, delayed, wrong_list, Inputs, Credential, press, form_of, issuer_did,
}
use concordium_web3id.TestTool.Register.Calls.{commitments_of, did_prefix, register}
use concordium_web3id.TestTool.Register.Consistent.{
  HasKind, IsRegistered, press_iff, register-consistent,
}

abbrev bytes : List ℕ
bytes = 131 ∷ 254 ∷ 13 ∷ []

hex_to_bytes-written_example : hex_to_bytes "83fe0d" ≡ map byte bytes
unfolding code_units
hex_to_bytes-written_example =
    hex_to_bytes-written bytes "83fe0d" (omega arith, (omega arith, (omega arith, tt))) refl

abbrev degree : AttributeDetails
degree = record { tag = "degree"; type = "string"; value = none; required = true }

abbrev year : AttributeDetails
year = record { tag = "year"; type = "integer"; value = some "2023"; required = false }

-- One text that `BigInt` reads.
abbrev big_int : String → Option ℕ
big_int s = if str_eq s "2023" then some 2023 else none

abbrev never : String → Bool
never s = false

abbrev parsed : Parsed ℕ
parsed = record {
  attributes = ("degree", text "Master") ∷ ("year", big 2023) ∷ [];
  messages = [];
  warnings = [];
}

abbrev filled : List AttributeDetails
filled =
    record { tag = "degree"; type = "string"; value = some "Master"; required = true } ∷ year ∷ []

form_run : parse_attributes_from_form big_int never filled ≡ ok parsed
unfolding parse_attributes_from_form assign
form_run = refl

parse_attributes_from_form-find_example :
    find "year" parsed.attributes ≡ meant big_int never (entered "year" filled)
parse_attributes_from_form-find_example =
    parse_attributes_from_form-find big_int never filled "year" form_run

abbrev key : String
key = "8fe0dc02ffbab8d30410233ed58b44a53c418b368ae91cdcdbcdb9e79358be82"

abbrev contract_4713 : Index
contract_4713 = record { number = "4713"; address = ok 4713 }

abbrev inputs : Inputs
inputs = record {
  account = "3kBx2h5Y";
  index = some contract_4713;
  schema_from_contract = some "https://example.org/schema.json";
  type_from_contract = some "myCredentialType";
  manual_type = none;
  manual_schema = none;
  attribute_schema = filled;
  wrong_attributes_list = wrong_list;
  seed = "myRandomSeedString";
  metadata_url = "https://example.org/metadata.json";
  auxiliary_data = "83fe0d";
  has_expiry = false;
  valid_from = "2022-06-12T07:30";
  valid_until = "";
  is_holder_revocable = true;
}

abbrev show : Index → String
show n = "4713"

press_iff_example : (is_some (press big_int never show delayed inputs true).request ≡ true) ↔ (
    (inputs.index ≢ none)
    × HasKind big_int never show delayed inputs
    × (true ≡ true)
    × All (λ d. is_readable big_int never d ≡ true) (form_of delayed inputs))
press_iff_example = press_iff big_int never show delayed inputs true

abbrev iso_string : String → Option String
iso_string s = some s

abbrev credential : Credential ℕ
credential = record {
  type = "VerifiableCredential" ∷ "ConcordiumVerifiableCredential" ∷ "myCredentialType" ∷ [];
  issuer = "did:ccd:testnet:sci:4713:0/issuer";
  attributes = parsed.attributes;
  schema_id = "https://example.org/schema.json";
  schema_type = "myCredentialType";
  metadata_url = "https://example.org/metadata.json";
}

press_run :
    (press big_int never show regular inputs true).request ≡ some (contract_4713, credential)
unfolding press assign
press_run = refl

abbrev registered : Transaction String String
registered = record {
  account = "3kBx2h5Y";
  payload = update_contract 0 4713 0 "credential_registry.registerCredential" 30000;
  parameter =
      registration key true "2022-06-12T07:30" none
        (record { hash = none; url = "https://example.org/metadata.json" }) (map byte bytes);
}

register_run :
    register iso_string regular inputs contract_4713 (str_append did_prefix key)
    ≡ some (ok registered)
unfolding register
register_run = refl

register-consistent_example :
    let m = commitments_of contract_4713 credential (str_append did_prefix key) in
    (credential.issuer ≡ issuer_did (show m.index))
    × (inputs.index ≡ some m.index)
    × (m.subindex ≡ 0)
    × (m.holder_id ≡ key)
    × IsRegistered String String m
        (register iso_string regular inputs contract_4713 (str_append did_prefix key))
register-consistent_example =
    register-consistent String String big_int never show iso_string regular inputs true key
      press_run

parse_attributes_from_form-HasType_example :
    (type : String) × (s : String) × (entered "degree" filled ≡ some (type, s))
    × HasType ℕ type (text "Master")
parse_attributes_from_form-HasType_example =
    parse_attributes_from_form-HasType big_int never filled "degree" (text "Master") form_run refl
