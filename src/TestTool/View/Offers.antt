-- ===== src/TestTool/View/Offers.antt =====
-- The buttons that the test tool's page offers.
use mathlib.Core.List.{append-nil}
use concordium_web3id.Registry.Types.{Index}
use concordium_web3id.Common.{
  String, Bool, true, false, not, ◌&&◌, List, [], ◌∷◌, ◌++◌, refl, ap, ◌∙◌, ◌≡◌, is_blank, Option,
  none, some, map,
}
use concordium_web3id.Common.View.{when, buttons, buttons_laws, buttons-action, text}
use concordium_web3id.TestTool.Attributes.{AttributeDetails, Message}
use concordium_web3id.TestTool.Contract.{Metadata, Page}
use concordium_web3id.TestTool.View.{Screen, Connector, Nodes, Target, Button}
use concordium_web3id.TestTool.View
use concordium_web3id.TestTool.Register
use concordium_web3id.TestTool.Register.{Scenario, Shown}
use concordium_web3id.TestTool.Account.{Status, hint, failure, connector_label}
use concordium_web3id.TestTool.Account
use concordium_web3id.TestTool.Fields.{Fields}
use concordium_web3id.TestTool.Entry.{Entry}
use concordium_web3id.TestTool.Buttons.{Form}
use concordium_web3id.TestTool.View.Issuer.{top, keys_box, issuer_box, contract_box, can_connect}
use concordium_web3id.TestTool.View.Credential.{
  attribute_inputs, dates, auxiliary, regular_box, delayed_box, wrong_proof_box,
  wrong_attributes_box, parsing_error_of,
}
use concordium_web3id.TestTool.View.Entries.{
  entry_box, entry_shown, revoke_box, restore_box, issuer_metadata_box, schema_box,
  credential_metadata_box,
}
use concordium_web3id.TestTool.View.Whole.{column, left, main, hint_or_error, link_of}

buttons-attribute_inputs :
    (wrong : Bool) (ds : List AttributeDetails) → buttons (attribute_inputs wrong ds) ≡ []
unfolding attribute_inputs
buttons-attribute_inputs wrong [] = refl
buttons-attribute_inputs wrong (d ∷ ds) = buttons-attribute_inputs wrong ds

-- The two switches and the button of a box that registers.
abbrev of_box : Scenario → List Button
of_box sc = View.expiry_switch ∷ View.revocable_switch ∷ View.register sc ∷ []

buttons-parsing_error_of : (m : Option Message) → buttons (parsing_error_of m) ≡ []
buttons-parsing_error_of none = refl
buttons-parsing_error_of (some m) = simp buttons_laws refl

ruleset laws = (buttons_laws, buttons-attribute_inputs, buttons-parsing_error_of)

buttons-regular_box :
    (fs : Fields) (p : Page) (s : Shown) → buttons (regular_box fs p s) ≡ of_box Register.regular
unfolding regular_box dates auxiliary
buttons-regular_box fs p s = simp laws refl

buttons-delayed_box :
    (fs : Fields) (p : Page) (s : Shown)
    → buttons (delayed_box fs p s) ≡ of_box Register.delayed ++ View.issue_delayed ∷ []
unfolding delayed_box dates auxiliary
buttons-delayed_box fs p s = simp laws refl

buttons-wrong_proof_box :
    (fs : Fields) (p : Page) (s : Shown)
    → buttons (wrong_proof_box fs p s) ≡ of_box Register.wrong_proof
unfolding wrong_proof_box dates auxiliary
buttons-wrong_proof_box fs p s = simp laws refl

buttons-wrong_attributes_box :
    (fs : Fields) (s : Shown)
    → buttons (wrong_attributes_box fs s) ≡ of_box Register.wrong_attributes
unfolding wrong_attributes_box dates auxiliary
buttons-wrong_attributes_box fs s = simp laws refl

buttons-keys_box :
    {Keys : Type 0} (show_keys : Keys → String) (fs : Fields) (keys : Option Keys)
    → buttons (keys_box show_keys fs keys) ≡ View.create_issuer_keys ∷ []
unfolding keys_box
buttons-keys_box show_keys fs none = refl
buttons-keys_box show_keys fs (some ks) = refl

buttons-texts :
    (ks : List String) → buttons {Input = Target} {Button = Button} (map (λ k. text k) ks) ≡ []
buttons-texts [] = refl
buttons-texts (k ∷ ks) = buttons-texts ks

buttons-issuer_box :
    (fs : Fields) (form : Form)
    → buttons (issuer_box fs form) ≡ View.add_key ∷ View.clear_keys ∷ View.create_new_issuer ∷ []
unfolding issuer_box
buttons-issuer_box fs form = simp (laws, buttons-texts) refl

buttons-contract_box :
    (show : Index → String) (index : Option Index) (message : String)
    → buttons (contract_box show index message) ≡ []
unfolding contract_box
buttons-contract_box show none message = simp laws refl
buttons-contract_box show (some n) message = simp laws refl

buttons-entry_shown :
    {State : Type 0} (show_state : State → String) (state : Option State) (error : String)
    → buttons (entry_shown show_state state error) ≡ []
buttons-entry_shown show_state none error = simp laws refl
buttons-entry_shown show_state (some state) error = refl

buttons-entry_box :
    {State : Type 0} (show_state : State → String) (fs : Fields) (e : Entry State)
    → buttons (entry_box show_state fs e) ≡ View.view_entry ∷ []
unfolding entry_box
buttons-entry_box show_state fs e =
    ap (λ bs. View.view_entry ∷ bs) (buttons-entry_shown show_state e.state e.error)

-- The buttons of the boxes, from top to bottom.
abbrev pub all_buttons : List Button
all_buttons =
    View.create_issuer_keys
      ∷ View.add_key
      ∷ View.clear_keys
      ∷ View.create_new_issuer
      ∷ of_box Register.regular
    ++ View.view_entry
      ∷ View.revoke
      ∷ View.restore
      ∷ View.update_issuer_metadata
      ∷ View.update_credential_schema
      ∷ View.update_credential_metadata
      ∷ of_box Register.delayed
    ++ View.issue_delayed ∷ of_box Register.wrong_proof
    ++ of_box Register.wrong_attributes

buttons-top :
    (connected : Bool) (c : Connector)
    → buttons (top connected c)
      ≡ when (not c.is_disabled) (View.select_connector ∷ [])
        ++ when (can_connect connected c) (View.connect ∷ [])
unfolding top
buttons-top connected c =
    buttons-action (connector_label connected "Browser Wallet") c.is_disabled View.select_connector
      _
    ∙ simp laws refl

buttons-hint_or_error : (st : Status) → buttons (hint_or_error st) ≡ []
buttons-hint_or_error hint = refl
buttons-hint_or_error (failure message) = refl
buttons-hint_or_error (Account.link hash url) = refl

buttons-link_of : (st : Status) → buttons (link_of st) ≡ []
buttons-link_of hint = refl
buttons-link_of (failure message) = refl
buttons-link_of (Account.link hash url) = refl

when-when : {A : Type 0} (a b : Bool) (xs : List A) → when a (when b xs) ≡ when (a && b) xs
when-when true b xs = refl
when-when false b xs = refl

ruleset box_laws = (
  buttons-keys_box, buttons-issuer_box, buttons-contract_box, buttons-regular_box,
  buttons-entry_box, buttons-delayed_box, buttons-wrong_proof_box, buttons-wrong_attributes_box,
)

-- The buttons that the page offers to a wallet.
abbrev pub connecting_buttons : (is_disabled connected has_type has_connector : Bool) → List Button
connecting_buttons false false true true = View.select_connector ∷ View.connect ∷ []
connecting_buttons true false true true = View.connect ∷ []
connecting_buttons false _ _ _ = View.select_connector ∷ []
connecting_buttons true _ _ _ = []

connecting_buttons_lem :
    (d c t k : Bool)
    → when (not d) (View.select_connector ∷ []) ++ when (not c && t && k) (View.connect ∷ [])
      ≡ connecting_buttons d c t k
connecting_buttons_lem true true true true = refl
connecting_buttons_lem true true true false = refl
connecting_buttons_lem true true false true = refl
connecting_buttons_lem true true false false = refl
connecting_buttons_lem true false true true = refl
connecting_buttons_lem true false true false = refl
connecting_buttons_lem true false false true = refl
connecting_buttons_lem true false false false = refl
connecting_buttons_lem false true true true = refl
connecting_buttons_lem false true true false = refl
connecting_buttons_lem false true false true = refl
connecting_buttons_lem false true false false = refl
connecting_buttons_lem false false true true = refl
connecting_buttons_lem false false true false = refl
connecting_buttons_lem false false false true = refl
connecting_buttons_lem false false false false = refl

module _ {Keys State : Type 0} (show : Index → String) (show_keys : Keys → String)
    (show_state : State → String) (show_metadata : Metadata → String) where
  buttons-left :
      (s : Screen Keys State)
      → buttons (left show show_keys show_state show_metadata s) ≡ all_buttons
  unfolding left revoke_box restore_box issuer_metadata_box schema_box credential_metadata_box
  buttons-left s = simp (buttons_laws, box_laws) refl

  buttons-column :
      (s : Screen Keys State) → buttons (column show show_keys show_state show_metadata s) ≡ []
  unfolding column
  buttons-column s = simp (laws, buttons-hint_or_error, buttons-link_of) refl

  offered :
      (s : Screen Keys State)
      → buttons (main show show_keys show_state show_metadata s)
        ≡ (when (not s.connector.is_disabled) (View.select_connector ∷ [])
            ++ when (can_connect s.connected s.connector) (View.connect ∷ []))
          ++ when (not (is_blank s.account) && s.connected) all_buttons
  unfolding main
  offered s =
      simp (buttons_laws, buttons-top, buttons-left, buttons-column, when-when, append-nil) refl

  -- The page has the button that selects the wallet's connector exactly unless it is disabled; the
  -- one that connects exactly while there is no connection, and a type of connector and a connector
  -- are selected; and the buttons of its boxes, always all of them, exactly while there are a
  -- connection and an account; and no others.
  pub offered_lem :
      (s : Screen Keys State)
      → buttons (main show show_keys show_state show_metadata s)
        ≡ connecting_buttons s.connector.is_disabled s.connected s.connector.has_type
            s.connector.has_connector
          ++ when (not (is_blank s.account) && s.connected) all_buttons
  offered_lem s =
      offered s
      ∙ ap (λ bs. bs ++ when (not (is_blank s.account) && s.connected) all_buttons)
          (connecting_buttons_lem s.connector.is_disabled s.connected s.connector.has_type
            s.connector.has_connector)
