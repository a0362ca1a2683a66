-- ===== src/Examples/FieldRuns.antt =====
-- Tests of the test tool's inputs.
use concordium_web3id.Common.{String, ok, some, none, List, [], ◌∷◌}
use concordium_web3id.Registry.Writing.{}
use concordium_web3id.TestTool.Buttons.{Inputs}
use concordium_web3id.TestTool.Fields.{reason, initial, inputs_of}
use concordium_web3id.TestTool.Fields.Typed.{Edit, typed, revocable_switched, edit_all}

abbrev edits : List Edit
edits = typed reason "Lost" ∷ revocable_switched ∷ typed reason "Stolen" ∷ []

abbrev inputs : Inputs
inputs =
    inputs_of "4UC8" (some (record { number = "42"; address = ok 42 })) none
      (edit_all edits (initial "issuer" "credential" "schema"))

abbrev first_key : String
first_key = "8fe0dc02ffbab8d30410233ed58b44a53c418b368ae91cdcdbcdb9e79358be82"
