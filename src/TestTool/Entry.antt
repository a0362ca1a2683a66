-- ===== src/TestTool/Entry.antt =====
-- Two buttons of test-tools/issuer-front-end/src/Main.tsx: "View Credential Entry in Registry
-- Contract" and "Create Issuer Keys", with what they show.
use concordium_web3id.Registry.Types.{Index}
use concordium_web3id.Common.{String, Option, none, some, Result, ok, err}
use concordium_web3id.TestTool.Backend.{Fetch, Answer, request_issuer_keys}
use concordium_web3id.TestTool.Contract.{Invoked, get_credential_entry}

-- `credentialRegistryState` and `credentialRegistryStateError`.
pub record Entry (State : Type 0) : Type 0 where
  pub state : Option State
  pub error : String

-- What is set at once, and when the call has ended.
unfoldable pub entry_cleared : {State : Type 0} → Entry State → Entry State
entry_cleared e = record { state = none; error = "" }

unfoldable pub entry_read : {State : Type 0} → Result String State → Entry State → Entry State
entry_read (ok state) e = record e { state = some state }
entry_read (err message) e = record e { error = message }

module _ {Bytes State Parameter : Type 0} (show : Index → String) where
  unfoldable pub press_view :
      (serialize : String → Result String Parameter)
      (invoke : Parameter → Index → Result String (Invoked Bytes))
      (deserialize : Bytes → Option State) (public_key : String) (index : Option Index)
      → Entry State
      → Entry State
  unfolding get_credential_entry
  press_view serialize invoke deserialize key index e =
      entry_read (get_credential_entry show serialize invoke deserialize key index)
        (entry_cleared e)

-- "Create Issuer Keys": the keys that the page holds afterwards; nothing catches an error.
unfoldable pub press_create_keys :
    {Keys : Type 0} (api seed : String) (answer : Fetch → Answer Keys) → Option Keys → Option Keys
unfolding request_issuer_keys
press_create_keys api seed answer keys = elim (request_issuer_keys api seed answer) [
  | ok created ↦ some created
  | err message ↦ keys
]
