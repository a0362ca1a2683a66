-- ===== src/TestTool/Buttons/Keys.antt =====
-- The revocation keys that the test tool's page collects, and the issuer that is created with them.
use concordium_web3id.Common.{
  ◌≡◌, String, false, Option, none, some, List, [], ◌∷◌, ◌++◌, All, Result, ok, err, refl, arith,
  includes, utf16_length,
}
use concordium_web3id.Registry.Types.{
  Parameter, MetadataUrl, Transaction, init_registry, schema_ref, credential_metadata,
  issuer_metadata, revocation, restoration, registration,
}
use concordium_web3id.Registry.Writing.{create_new_issuer}
use concordium_web3id.IssuerApp.Deploy.Page.{IsDistinct, append_one-IsDistinct, append_one-long}
use concordium_web3id.TestTool.Buttons.{
  Inputs, press_create, Form, add_revokation_key, key_added, submit_key, type_key, clear_keys,
}

-- What the user does with the form.
pub data Event : Type 0 where
  typed : String → Event
  submitted : Event
  cleared : Event

unfoldable pub react : Event → Form → Form
react (typed input) f = type_key input f
react submitted f = submit_key f
react cleared f = clear_keys f

abbrev pub react_all : List Event → Form → Form
react_all [] f = f
react_all (v ∷ vs) f = react_all vs (react v f)

abbrev pub no_keys : String → Form
no_keys input = record { revocation_keys = []; revocation_key_input = input; user_input_error = "" }

record IsValid (keys : List String) : Type 0 where
  distinct : IsDistinct keys
  long : All (λ k. utf16_length k ≡ 64) keys

add_revokation_key-ok :
    (keys : List String) (k : String) {added : List String}
    → add_revokation_key keys k ≡ ok added
    → (added ≡ keys ++ k ∷ []) × (includes keys k ≡ false) × (utf16_length k ≡ 64)
unfolding add_revokation_key
add_revokation_key-ok keys k e = ground arith

key_added-IsValid :
    (r : Result String (List String)) (f : Form)
    → IsValid f.revocation_keys
    → ((keys : List String) → r ≡ ok keys → IsValid keys)
    → IsValid (key_added r f).revocation_keys
unfolding key_added
key_added-IsValid (ok keys) f h accepted = accepted keys refl
key_added-IsValid (err message) f h accepted = h

append_one-IsValid :
    (keys : List String) (k : String) (added : List String)
    → IsValid keys
    → add_revokation_key keys k ≡ ok added
    → IsValid added
append_one-IsValid keys k added h e =
    let (shape, fresh, long) = add_revokation_key-ok keys k e in
    rw shape (record {
      distinct = append_one-IsDistinct keys k h.distinct fresh;
      long = append_one-long keys k h.long long;
    })

submit_key-IsValid : (f : Form) → IsValid f.revocation_keys → IsValid (submit_key f).revocation_keys
unfolding submit_key
submit_key-IsValid f h =
    key_added-IsValid (add_revokation_key f.revocation_keys f.revocation_key_input) f h
      (λ added e. append_one-IsValid f.revocation_keys f.revocation_key_input added h e)

react_all-IsValid :
    (vs : List Event) (f : Form)
    → IsValid f.revocation_keys
    → IsValid (react_all vs f).revocation_keys
unfolding react type_key clear_keys
react_all-IsValid [] f h = h
react_all-IsValid (typed input ∷ vs) f h = react_all-IsValid vs (type_key input f) h
react_all-IsValid (submitted ∷ vs) f h =
    react_all-IsValid vs (submit_key f) (submit_key-IsValid f h)
react_all-IsValid (cleared ∷ vs) f h =
    react_all-IsValid vs (clear_keys f) (record { distinct = tt; long = tt })

-- The keys that an issuer is created with.
abbrev pub keys_of : {Schema Keys : Type 0} → Parameter Schema Keys → Option Keys
keys_of (init_registry m t k s a keys) = some keys
keys_of (schema_ref m) = none
keys_of (credential_metadata entries) = none
keys_of (issuer_metadata m) = none
keys_of (revocation key r a) = none
keys_of (restoration key r) = none
keys_of (registration key h f u m a) = none

-- An issuer that is created after any session with the form has exactly the keys that the form then
-- shows, if JSON reads back their list as it was written; they are distinct and have 64 code units
-- each.
pub press_create-keys :
    (json_parse : String → Option (List String)) (json_stringify : List String → String)
    (module_ref example : String) (i : Inputs) (input : String) (vs : List Event)
    {t : Transaction MetadataUrl (List String)}
    → json_parse (json_stringify (react_all vs (no_keys input)).revocation_keys)
      ≡ some (react_all vs (no_keys input)).revocation_keys
    → press_create json_parse json_stringify module_ref example i
        (react_all vs (no_keys input)).revocation_keys
      ≡ ok t
    → (keys_of t.parameter ≡ some (react_all vs (no_keys input)).revocation_keys)
      × IsDistinct (react_all vs (no_keys input)).revocation_keys
      × All (λ k. utf16_length k ≡ 64) (react_all vs (no_keys input)).revocation_keys
unfolding press_create create_new_issuer
press_create-keys json_parse json_stringify module_ref example i input vs read e =
    let h = react_all-IsValid vs (no_keys input) (record { distinct = tt; long = tt }) in
    (grind arith, h.distinct, h.long)
