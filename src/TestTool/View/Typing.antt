-- ===== src/TestTool/View/Typing.antt =====
-- The inputs of the test tool's page, each with the handler that its change calls.
use mathlib.Core.List.{append-nil, append_assoc, map-append}
use concordium_web3id.Registry.Types.{Index}
use concordium_web3id.Common.{
  String, Bool, true, false, not, List, [], ◌∷◌, ◌++◌, refl, ap, ◌∙◌, sym, ◌≡◌, is_blank, Option,
  none, some, if◌then◌else◌, map, ◌==◌,
}
use concordium_web3id.Common.View.{text, when, inputs, inputs_laws, map-when}
use concordium_web3id.TestTool.Attributes.{AttributeDetails, Message}
use concordium_web3id.TestTool.Contract.{Metadata}
use concordium_web3id.TestTool.Fields.{
  change, number, auxiliary_data, seed, reason, public_key, issuer_meta_data,
  updated_issuer_meta_data, updated_credential_schema, credential_meta_data,
  updated_credential_meta_data, credential_type, credential_schema, valid_from_date,
  valid_until_date,
}
use concordium_web3id.TestTool.Buttons.{type_key}
use concordium_web3id.TestTool.Account.{Status, hint, failure}
use concordium_web3id.TestTool.Account
use concordium_web3id.TestTool.View.{
  Screen, TextInput, Target, own, field, revocation_key, manual_type, manual_schema, contract_index,
  attribute, Button, change_manual_type, change_manual_schema, option_text,
}
use concordium_web3id.TestTool.View.Issuer.{
  top, keys_box, keys_shown, issuer_box, contract_box, index_text, index_note,
}
use concordium_web3id.TestTool.View.Credential.{
  attribute_inputs, dates, auxiliary, regular_box, delayed_box, wrong_proof_box,
  wrong_attributes_box, parsing_error_of,
}
use concordium_web3id.TestTool.View.Entries.{
  entry_box, entry_shown, revoke_box, restore_box, issuer_metadata_box, schema_box,
  credential_metadata_box,
}
use concordium_web3id.TestTool.View.Whole.{column, left, main, hint_or_error, link_of}

-- A text that is typed into an input, by the input's handler.
unfoldable pub typed :
    {Keys State : Type 0} → TextInput → String → Screen Keys State → Screen Keys State
typed (field g) x s = record s { fields = change g x s.fields }
typed revocation_key x s = record s { form = type_key x s.form }
typed manual_type x s = record s { contract = change_manual_type x s.contract }
typed manual_schema x s = record s { contract = change_manual_schema x s.contract }

-- Whether an input has this handler.
abbrev pub has_handler : TextInput → Target → Bool
has_handler (field g) (own (field h)) = number g == number h
has_handler revocation_key (own revocation_key) = true
has_handler manual_type (own manual_type) = true
has_handler manual_schema (own manual_schema) = true
has_handler _ _ = false

-- The value that an input is drawn with; those of attributes are drawn with none.
abbrev value_of : {Keys State : Type 0} → (Index → String) → Screen Keys State → Target → String
value_of show s (own (field g)) = s.fields.text g
value_of show s (own revocation_key) = s.form.revocation_key_input
value_of show s (own manual_type) = option_text s.contract.manual_type
value_of show s (own manual_schema) = option_text s.contract.manual_schema
value_of show s contract_index = index_text show s.contract.index
value_of show s (attribute wrong tag) = ""

value_of-typed :
    {Keys State : Type 0} (show : Index → String) (i : TextInput) (x : String)
    (s : Screen Keys State) (t : Target)
    → value_of show (typed i x s) t ≡ (if has_handler i t then x else value_of show s t)
unfolding typed change type_key change_manual_type change_manual_schema
value_of-typed show (field g) x s (own (field h)) = refl
value_of-typed show (field g) x s (own revocation_key) = refl
value_of-typed show (field g) x s (own manual_type) = refl
value_of-typed show (field g) x s (own manual_schema) = refl
value_of-typed show (field g) x s contract_index = refl
value_of-typed show (field g) x s (attribute wrong tag) = refl
value_of-typed show revocation_key x s (own (field h)) = refl
value_of-typed show revocation_key x s (own revocation_key) = refl
value_of-typed show revocation_key x s (own manual_type) = refl
value_of-typed show revocation_key x s (own manual_schema) = refl
value_of-typed show revocation_key x s contract_index = refl
value_of-typed show revocation_key x s (attribute wrong tag) = refl
value_of-typed show manual_type x s (own (field h)) = refl
value_of-typed show manual_type x s (own revocation_key) = refl
value_of-typed show manual_type x s (own manual_type) = refl
value_of-typed show manual_type x s (own manual_schema) = refl
value_of-typed show manual_type x s contract_index = refl
value_of-typed show manual_type x s (attribute wrong tag) = refl
value_of-typed show manual_schema x s (own (field h)) = refl
value_of-typed show manual_schema x s (own revocation_key) = refl
value_of-typed show manual_schema x s (own manual_type) = refl
value_of-typed show manual_schema x s (own manual_schema) = refl
value_of-typed show manual_schema x s contract_index = refl
value_of-typed show manual_schema x s (attribute wrong tag) = refl

inputs-attribute_inputs :
    (wrong : Bool) (ds : List AttributeDetails) → inputs (attribute_inputs wrong ds) ≡ []
unfolding attribute_inputs
inputs-attribute_inputs wrong [] = refl
inputs-attribute_inputs wrong (d ∷ ds) = inputs-attribute_inputs wrong ds

inputs-parsing_error_of : (m : Option Message) → inputs (parsing_error_of m) ≡ []
inputs-parsing_error_of none = refl
inputs-parsing_error_of (some m) = simp inputs_laws refl

inputs-texts :
    (ks : List String) → inputs {Input = Target} {Button = Button} (map (λ k. text k) ks) ≡ []
inputs-texts [] = refl
inputs-texts (k ∷ ks) = inputs-texts ks

inputs-entry_shown :
    {State : Type 0} (show_state : State → String) (state : Option State) (error : String)
    → inputs (entry_shown show_state state error) ≡ []
inputs-entry_shown show_state none error = simp inputs_laws refl
inputs-entry_shown show_state (some state) error = refl

inputs-hint_or_error : (st : Status) → inputs (hint_or_error st) ≡ []
inputs-hint_or_error hint = refl
inputs-hint_or_error (failure message) = refl
inputs-hint_or_error (Account.link hash url) = refl

inputs-link_of : (st : Status) → inputs (link_of st) ≡ []
inputs-link_of hint = refl
inputs-link_of (failure message) = refl
inputs-link_of (Account.link hash url) = refl

inputs-keys_shown :
    {Keys : Type 0} (show_keys : Keys → String) (keys : Option Keys)
    → inputs (keys_shown show_keys keys) ≡ []
inputs-keys_shown show_keys none = refl
inputs-keys_shown show_keys (some ks) = refl

inputs-index_note :
    (show : Index → String) (index : Option Index) → inputs (index_note show index) ≡ []
inputs-index_note show none = refl
inputs-index_note show (some n) = refl

ruleset laws = (
  inputs_laws, inputs-attribute_inputs, inputs-parsing_error_of, inputs-texts, inputs-entry_shown,
  inputs-hint_or_error, inputs-link_of, inputs-keys_shown, inputs-index_note, map-append, map-when,
  append-nil, append_assoc,
)

-- The inputs for the two dates, and those below them.
abbrev date_targets : Bool → List Target
date_targets has_expiry =
    own (field valid_from_date) ∷ when has_expiry (own (field valid_until_date) ∷ [])

abbrev credential_targets : Bool → List Target
credential_targets has_expiry =
    date_targets has_expiry ++ own (field credential_meta_data) ∷ own (field auxiliary_data) ∷ []

-- The inputs of the boxes, from top to bottom.
abbrev all_targets : Bool → List Target
all_targets has_expiry =
    own (field seed)
      ∷ own (field issuer_meta_data)
      ∷ own (field credential_type)
      ∷ own (field credential_schema)
      ∷ own revocation_key
      ∷ contract_index
      ∷ credential_targets has_expiry
    ++ own (field public_key)
      ∷ own (field public_key)
      ∷ own (field reason)
      ∷ own (field auxiliary_data)
      ∷ own (field public_key)
      ∷ own (field reason)
      ∷ own (field updated_issuer_meta_data)
      ∷ own (field updated_credential_schema)
      ∷ own (field updated_credential_meta_data)
      ∷ own (field public_key)
      ∷ date_targets has_expiry
    ++ own (field credential_meta_data)
      ∷ own manual_type
      ∷ own manual_schema
      ∷ own (field auxiliary_data)
      ∷ credential_targets has_expiry
    ++ credential_targets has_expiry

module _ {Keys State : Type 0} (show : Index → String) where
  abbrev valued : Screen Keys State → List Target → List (String × Target)
  valued s ts = map (λ t. (value_of show s t, t)) ts

module _ {Keys State : Type 0} (show : Index → String) (show_keys : Keys → String)
    (show_state : State → String) (show_metadata : Metadata → String) where
  inputs-left_of :
      (b : Bool) (s : Screen Keys State)
      → inputs (
          left show show_keys show_state show_metadata
            (record s { fields = record s.fields { has_expiry_date = b } }))
        ≡ valued show s (all_targets b)
  unfolding left keys_box issuer_box contract_box regular_box dates auxiliary entry_box revoke_box
      restore_box issuer_metadata_box schema_box credential_metadata_box delayed_box wrong_proof_box
      wrong_attributes_box
  inputs-left_of false s = simp laws refl
  inputs-left_of true s = simp laws refl

  inputs-left :
      (s : Screen Keys State)
      → inputs (left show show_keys show_state show_metadata s)
        ≡ valued show s (all_targets s.fields.has_expiry_date)
  inputs-left s = inputs-left_of s.fields.has_expiry_date s

  inputs-column :
      (s : Screen Keys State) → inputs (column show show_keys show_state show_metadata s) ≡ []
  unfolding column
  inputs-column s = simp laws refl

  inputs-main :
      (s : Screen Keys State)
      → inputs (main show show_keys show_state show_metadata s)
        ≡ when
            (not (is_blank s.account))
            (when s.connected (valued show s (all_targets s.fields.has_expiry_date)))
  unfolding main top
  inputs-main s = simp (laws, inputs-left, inputs-column) refl

  -- A list of inputs after a text was typed.
  valued-typed :
      (i : TextInput) (x : String) (s : Screen Keys State) (ts : List Target)
      → valued show (typed i x s) ts
        ≡ map (λ e. (if has_handler i e.1 then x else e.0, e.1)) (valued show s ts)
  valued-typed i x s [] = refl
  valued-typed i x s (t ∷ ts) = rw (value_of-typed show i x s t, valued-typed i x s ts) refl

  inputs-main-typed :
      (i : TextInput) (x : String) (s : Screen Keys State)
      → inputs (main show show_keys show_state show_metadata (typed i x s))
        ≡ when
            (not (is_blank s.account))
            (when s.connected (valued show (typed i x s) (all_targets s.fields.has_expiry_date)))
  unfolding typed change type_key change_manual_type change_manual_schema
  inputs-main-typed (field g) x s = inputs-main (typed (field g) x s)
  inputs-main-typed revocation_key x s = inputs-main (typed revocation_key x s)
  inputs-main-typed manual_type x s = inputs-main (typed manual_type x s)
  inputs-main-typed manual_schema x s = inputs-main (typed manual_schema x s)

  -- When a text is typed into an input of the page, other than that of the contract's index and those
  -- of the attributes, every input with that input's handler shows the text, and every other input
  -- that is drawn with a value, the one of the contract's index included, shows what it showed
  -- before; none of the inputs drawn with a value appears or goes.
  pub typed_lem :
      (i : TextInput) (x : String) (s : Screen Keys State)
      → inputs (main show show_keys show_state show_metadata (typed i x s))
        ≡ map
            (λ e. (if has_handler i e.1 then x else e.0, e.1))
            (inputs (main show show_keys show_state show_metadata s))
  typed_lem i x s =
      let ts = all_targets s.fields.has_expiry_date in
      let retyped : String × Target → String × Target =
        λ e. (if has_handler i e.1 then x else e.0, e.1) in
      inputs-main-typed i x s
      ∙ ap (λ l. when (not (is_blank s.account)) (when s.connected l)) (valued-typed i x s ts)
      ∙ sym (
          ap (map retyped) (inputs-main s)
          ∙ map-when retyped (not (is_blank s.account)) _
          ∙ ap (λ l. when (not (is_blank s.account)) l) (map-when retyped s.connected _))
