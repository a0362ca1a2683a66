-- ===== src/TestTool/View/Entries.antt =====
-- The test tool's boxes for the contract's entries: steps 5 to 10 of
-- test-tools/issuer-front-end/src/Main.tsx. `show_state` is `stringify` of the package json-bigint.
use concordium_web3id.Common.{String, [], ◌∷◌, ◌++◌, Option, none, some}
use concordium_web3id.Common.View.{text, button}
use concordium_web3id.TestTool.Entry.{Entry}
use concordium_web3id.TestTool.Fields.{
  Fields, public_key, auxiliary_data, reason, updated_issuer_meta_data, updated_credential_schema,
  updated_credential_meta_data,
}
use concordium_web3id.TestTool.View.{
  view_entry, revoke, restore, update_issuer_metadata, update_credential_schema,
  update_credential_metadata, Nodes, test_box, labelled, error_of,
}

module _ {State : Type 0} (show_state : State → String) where
  -- What step 5 shows of an entry: its state, or else the error.
  abbrev pub entry_shown : (state : Option State) → (error : String) → Nodes
  entry_shown none error = error_of error
  entry_shown (some state) error = text "Your return value is:" ∷ text (show_state state) ∷ []

  -- Step 5.
  unfoldable pub entry_box : Fields → Entry State → Nodes
  entry_box fs e = test_box "Step 5: View Credential Entry in Registry Contract" (
      labelled "Credential Public Key:" public_key fs
      ++ button "View Credential Entry in Registry Contract" view_entry
        ∷ entry_shown e.state e.error)

-- Step 6.
unfoldable pub revoke_box : Fields → Nodes
revoke_box fs = test_box "Step 6: Revoke Credential By The Issuer" (
    labelled "Credential Public Key:" public_key fs
    ++ labelled "Reason:" reason fs
    ++ labelled "Add `AuxiliaryData` (the hex string will be converted into bytes):" auxiliary_data
        fs
    ++ button "Revoke Credential" revoke ∷ [])

-- Step 7.
unfoldable pub restore_box : Fields → Nodes
restore_box fs = test_box "Step 7: Restore Credential By The Issuer" (
    labelled "Credential Public Key:" public_key fs
    ++ labelled "Reason:" reason fs
    ++ button "Restore Credential" restore ∷ [])

-- Step 8.
unfoldable pub issuer_metadata_box : Fields → Nodes
issuer_metadata_box fs = test_box "Step 8: Update Issuer Metadata" (
    labelled "Add `IssuerMetadata`:" updated_issuer_meta_data fs
    ++ button "Update Issuer Metadata" update_issuer_metadata ∷ [])

-- Step 9.
unfoldable pub schema_box : Fields → Nodes
schema_box fs = test_box "Step 9: Update Credential Schema" (
    labelled "Add `CredentialSchema`:" updated_credential_schema fs
    ++ button "Update Credential Schema" update_credential_schema ∷ [])

-- Step 10.
unfoldable pub credential_metadata_box : Fields → Nodes
credential_metadata_box fs = test_box "Step 10: Update Credential Metadata" (
    labelled "Add `CredentialMetadata`:" updated_credential_meta_data fs
    ++ labelled "Credential Public Key:" public_key fs
    ++ button "Update Credential Metadata" update_credential_metadata ∷ [])
