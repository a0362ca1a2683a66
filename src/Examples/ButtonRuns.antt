-- ===== src/Examples/ButtonRuns.antt =====
-- Tests of the test tool's contract and of its buttons.
use concordium_web3id.Common.{
  ℕ, ◌≡◌, refl, ap, sym, String, true, false, Option, none, some, List, [], ◌∷◌, Result, ok, err,
  All, utf16_length, ◌==◌, if◌then◌else◌,
}
use concordium_web3id.Registry.Types.{Index, MetadataUrl, Transaction, init_contract, init_registry}
use concordium_web3id.TestTool.Contract.{
  Page, Metadata, metadata_read, change_index, is_polled, Invoked, success,
}
use concordium_web3id.Registry.Writing.{create_new_issuer}
use concordium_web3id.IssuerApp.Deploy.Page.{IsDistinct}
use concordium_web3id.TestTool.Buttons.{
  Inputs, press_create, submit_key, type_key, key_added, add_revokation_key,
}
use concordium_web3id.TestTool.Buttons.Keys.{
  Event, typed, submitted, react, react_all, no_keys, keys_of, press_create-keys,
}

abbrev key : String
key = "8fe0dc02ffbab8d30410233ed58b44a53c418b368ae91cdcdbcdb9e79358be82"

abbrev contract_of : ℕ → Index
contract_of n = record { number = if n == 0 then "0" else "1"; address = ok n }

abbrev show : Index → String
show n = "4713"

abbrev metadata : String → Metadata
metadata url = record { schema_url = url; credential_type = "myCredentialType" }

abbrev unread : Page
unread = record {
  index = none;
  smart_contract_state = none;
  view_error = "";
  schema_from_contract = none;
  type_from_contract = none;
  manual_schema = none;
  manual_type = none;
  attribute_schema = [];
  fetching_error = "";
}

-- The answers for two contracts that were entered one after the other arrive in the other order: the
-- page keeps the schema of the first for the index of the second.
abbrev overtaken : Page
overtaken = metadata_read (ok (metadata "first")) (
    metadata_read (ok (metadata "second"))
      (change_index (contract_of 2) (change_index (contract_of 1) unread)))

overtaken_test :
    (overtaken.index ≡ some (contract_of 2)) × (overtaken.schema_from_contract ≡ some "first")
unfolding metadata_read change_index
overtaken_test = (refl, refl)

-- A contract that cannot be read leaves the schema of the one before.
abbrev not_there : Page
not_there = metadata_read (err "failed") (
    change_index (contract_of 2)
      (metadata_read (ok (metadata "first")) (change_index (contract_of 1) unread)))

not_there_test :
    (not_there.index ≡ some (contract_of 2)) × (not_there.schema_from_contract ≡ some "first")
unfolding metadata_read change_index
not_there_test = (refl, refl)

-- A contract of index 0 is not polled.
not_polled_test : is_polled true (change_index (contract_of 0) unread) ≡ false
unfolding is_polled change_index
not_polled_test = refl

abbrev serialize : String → Result String String
serialize public_key = ok public_key

abbrev invoke : String → ℕ → Result String (Invoked String)
invoke parameter i = ok (success (some "entry"))

abbrev deserialize : String → Option String
deserialize bytes = some bytes

abbrev button_inputs : Inputs
button_inputs = record {
  account = "3kBx2h5Y";
  index = some (record { number = "4713"; address = ok 4713 });
  public_key = key;
  auxiliary_data = "83fe0d";
  reason = "";
  issuer_meta_data = "https://example.org/issuer.json";
  updated_issuer_meta_data = "";
  updated_credential_schema = "";
  updated_credential_meta_data = "";
  verify_key = some key;
  schema_url = "https://example.org/schema.json";
  credential_type = "myCredentialType";
}

abbrev key_events : List Event
key_events = submitted ∷ typed key ∷ submitted ∷ []

-- One list of keys as text.
abbrev keys_text : List String → String
keys_text keys = "[]"

abbrev keys_read : String → Option (List String)
keys_read s = some (key ∷ [])

abbrev created : Transaction MetadataUrl (List String)
created = record {
  account = "3kBx2h5Y";
  payload = init_contract 0 "module" "credential_registry" 30000;
  parameter =
      init_registry (record { hash = none; url = "https://example.org/issuer.json" })
        "myCredentialType" key (record { hash = none; url = "https://example.org/schema.json" })
        (some "3kBx2h5Y") (key ∷ []);
}

keys_run : (react_all key_events (no_keys "short")).revocation_keys ≡ key ∷ []
unfolding react submit_key type_key key_added add_revokation_key
keys_run = refl

create_run :
    press_create keys_read keys_text "module" "example" button_inputs
      (react_all key_events (no_keys "short")).revocation_keys
    ≡ ok created
unfolding press_create create_new_issuer
create_run = refl

press_create-keys_example :
    (keys_of created.parameter ≡ some (react_all key_events (no_keys "short")).revocation_keys)
    × IsDistinct (react_all key_events (no_keys "short")).revocation_keys
    × All (λ k. utf16_length k ≡ 64) (react_all key_events (no_keys "short")).revocation_keys
press_create-keys_example =
    press_create-keys keys_read keys_text "module" "example" button_inputs "short" key_events
      (ap some (sym keys_run)) create_run
