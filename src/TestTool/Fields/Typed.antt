-- ===== src/TestTool/Fields/Typed.antt =====
-- What the buttons of test-tools/issuer-front-end/src/Main.tsx send after a session of typing.
use concordium_web3id.Registry.Types.{Index}
use concordium_web3id.Common.{◌≡◌, String, Option, List, [], ◌∷◌, refl, ◌==◌, if◌then◌else◌}
use concordium_web3id.Registry.Writing.{
  revoke_credential, restore_credential, update_issuer_metadata, update_credential_schema,
  update_credential_metadata,
}
use concordium_web3id.TestTool.Hex.{hex_to_bytes}
use concordium_web3id.TestTool.Buttons.{
  press_revoke, press_restore, press_update_issuer_metadata, press_update_credential_schema,
  press_update_credential_metadata,
}
use concordium_web3id.TestTool.Fields.{
  Field, auxiliary_data, reason, public_key, updated_issuer_meta_data, updated_credential_schema,
  updated_credential_meta_data, number, Fields, initial_text, initial, change,
  switch_holder_revocable, switch_expiry_date, inputs_of,
}

-- What the user does: a new text in an input, and the switches.
pub data Edit : Type 0 where
  typed : Field → String → Edit
  revocable_switched : Edit
  expiry_switched : Edit

unfoldable pub edit : Edit → Fields → Fields
unfolding change switch_holder_revocable switch_expiry_date
edit (typed g s) f = change g s f
edit revocable_switched f = switch_holder_revocable f
edit expiry_switched f = switch_expiry_date f

abbrev pub edit_all : List Edit → Fields → Fields
edit_all [] f = f
edit_all (e ∷ es) f = edit_all es (edit e f)

-- The text that was typed last into an input, or the one before.
abbrev pub last_text : Field → String → List Edit → String
last_text h s [] = s
last_text h s (typed g t ∷ es) = last_text h (if number g == number h then t else s) es
last_text h s (e ∷ es) = last_text h s es

edit_all-text :
    (es : List Edit) (f : Fields) (h : Field) → (edit_all es f).text h ≡ last_text h (f.text h) es
unfolding edit change switch_holder_revocable switch_expiry_date
edit_all-text [] f h = refl
edit_all-text (typed g s ∷ es) f h = edit_all-text es (edit (typed g s) f) h
edit_all-text (revocable_switched ∷ es) f h = edit_all-text es (edit revocable_switched f) h
edit_all-text (expiry_switched ∷ es) f h = edit_all-text es (edit expiry_switched f) h

module _ {Schema Keys : Type 0} where
  -- After any session of typing and switching, the buttons that revoke and restore a credential and
  -- that update the issuer's metadata, the schema and a credential's metadata pass on the texts that
  -- were typed last into their inputs, or the initial ones.
  pub buttons_send_last :
      (issuer credential schema account : String) (index : Option Index) (key : Option String)
      (es : List Edit)
      → let text : Field → String = λ h. last_text h (initial_text issuer credential schema h) es in
        let i = inputs_of account index key (edit_all es (initial issuer credential schema)) in
        (press_revoke {Schema = Schema} {Keys = Keys} i
          ≡ revoke_credential account
              (text public_key)
              index
              (hex_to_bytes (text auxiliary_data))
              (text reason))
        × (press_restore {Schema = Schema} {Keys = Keys} i
            ≡ restore_credential account (text public_key) index (text reason))
        × (press_update_issuer_metadata {Schema = Schema} {Keys = Keys} i
            ≡ update_issuer_metadata account index (text updated_issuer_meta_data))
        × (press_update_credential_schema {Schema = Schema} {Keys = Keys} i
            ≡ update_credential_schema account index (text updated_credential_schema))
        × (press_update_credential_metadata {Schema = Schema} {Keys = Keys} i
            ≡ update_credential_metadata account index
                (text updated_credential_meta_data)
                (text public_key))
  unfolding press_revoke press_restore press_update_issuer_metadata press_update_credential_schema
      press_update_credential_metadata inputs_of initial
  buttons_send_last issuer credential schema account index key es =
      let f = initial issuer credential schema in
      let is = edit_all-text es f in
      (
        rw (is public_key, is auxiliary_data, is reason) refl,
        rw (is public_key, is reason) refl,
        rw (is updated_issuer_meta_data) refl,
        rw (is updated_credential_schema) refl,
        rw (is updated_credential_meta_data, is public_key) refl,
      )
