-- ===== src/Explorer/Right/Buttons.antt =====
-- The buttons in the column on the right of the proof explorer.
use mathlib.Core.List.{append_assoc}
use concordium_web3id.Common.{
  select, ◌≡◌, refl, String, Bool, true, false, Option, none, some, List, [], ◌∷◌, ◌++◌, is_some,
  select, ap, map,
}
use concordium_web3id.Common.View.{buttons, buttons-append, when}
use concordium_web3id.Explorer.Thrown.{Thrown}
use concordium_web3id.Explorer.Anchor.{Submission}
use concordium_web3id.Explorer.Submit.{Message}
use concordium_web3id.Explorer.Submit.Panel.{Panel, lines}
use concordium_web3id.Explorer.Flow.{Flow}
use concordium_web3id.Explorer.Right
use concordium_web3id.Explorer.Right.{
  Button, Input, connection, result_shown, line_nodes, wallets, statement_buttons, anchor_part,
  submit_part_v1, submit_part, right,
}

-- A button for each line that has one.
abbrev details : Button → List (Message × Bool) → List Button
details b ls = map (λ l. b) (select (λ l. l.1) ls)

buttons-line_nodes :
    (message_text : Message → String) (b : Button) (ls : List (Message × Bool))
    → buttons (line_nodes message_text b ls) ≡ details b ls
buttons-line_nodes message_text b [] = refl
buttons-line_nodes message_text b ((m, true) ∷ ls) =
    ap (λ bs. b ∷ bs) (buttons-line_nodes message_text b ls)
buttons-line_nodes message_text b ((m, false) ∷ ls) = buttons-line_nodes message_text b ls

buttons-connection : (provider : Option (Option String)) → buttons (connection provider) ≡ []
buttons-connection none = refl
buttons-connection (some none) = refl
buttons-connection (some (some account)) = refl

buttons-result_shown :
    (thrown_text : Thrown → String) (s : Option Submission)
    → buttons (result_shown thrown_text s) ≡ []
buttons-result_shown thrown_text none = refl
buttons-result_shown thrown_text (some s) = refl

buttons-wallets :
    (provider : Option (Option String))
    → buttons (wallets provider)
      ≡ Right.connect_browser ∷ Right.connect_mobile_v0 ∷ Right.connect_mobile_v1 ∷ []
unfolding wallets
buttons-wallets provider =
    ap (λ bs. Right.connect_browser ∷ Right.connect_mobile_v0 ∷ Right.connect_mobile_v1 ∷ bs)
      (buttons-connection provider)

buttons-anchor_part :
    {A Address N H : Type 0} (thrown_text : Thrown → String) (f : Flow A Address N H)
    → buttons (anchor_part thrown_text f) ≡ Right.public_info_switch ∷ Right.submit_anchor ∷ []
unfolding anchor_part
buttons-anchor_part thrown_text f =
    ap (λ bs. Right.public_info_switch ∷ Right.submit_anchor ∷ bs)
      (buttons-result_shown thrown_text f.anchoring.submission_result)

buttons-submit_part_v1 :
    {A Address N H P : Type 0} (message_text : Message → String) (connected : Bool)
    (f : Flow A Address N H) (p : Panel P)
    → buttons (submit_part_v1 message_text connected f p)
      ≡ when connected (Right.service_switch ∷ Right.audit_info_switch ∷ Right.prove_v1 ∷ [])
        ++ details Right.view_details_v1 (lines p)
unfolding submit_part_v1
buttons-submit_part_v1 message_text true f p =
    ap (λ bs. Right.service_switch ∷ Right.audit_info_switch ∷ Right.prove_v1 ∷ bs)
      (buttons-line_nodes message_text Right.view_details_v1 (lines p))
buttons-submit_part_v1 message_text false f p =
    buttons-line_nodes message_text Right.view_details_v1 (lines p)

buttons-submit_part :
    {P : Type 0} (message_text : Message → String) (connected : Bool) (p : Panel P)
    → buttons (submit_part message_text connected p)
      ≡ when connected (Right.prove_v0 ∷ []) ++ details Right.view_details_v0 (lines p)
unfolding submit_part
buttons-submit_part message_text true p =
    ap (λ bs. Right.prove_v0 ∷ bs) (buttons-line_nodes message_text Right.view_details_v0 (lines p))
buttons-submit_part message_text false p =
    buttons-line_nodes message_text Right.view_details_v0 (lines p)

-- The two buttons that ask for a proof are there exactly while a wallet is connected, below each list
-- there is one "View Details" for each accepted message while there is a proof, and all the other
-- buttons are always there: an anchor can be submitted, and fails, without a wallet.
pub right_offers :
    {A Address N H P Q : Type 0} (message_text : Message → String) (thrown_text : Thrown → String)
    (provider : Option (Option String)) (f : Flow A Address N H) (v1 : Panel P) (v0 : Panel Q)
    → buttons (right message_text thrown_text provider f v1 v0)
      ≡ (Right.connect_browser ∷ Right.connect_mobile_v0 ∷ Right.connect_mobile_v1 ∷ Right.start_new
          ∷ Right.clear_last ∷ Right.clear_messages ∷ Right.public_info_switch ∷ Right.submit_anchor
          ∷ [])
        ++ when
            (is_some provider)
            (Right.service_switch ∷ Right.audit_info_switch ∷ Right.prove_v1 ∷ [])
        ++ details Right.view_details_v1 (lines v1)
        ++ when (is_some provider) (Right.prove_v0 ∷ [])
        ++ details Right.view_details_v0 (lines v0)
unfolding right statement_buttons
right_offers message_text thrown_text provider f v1 v0 =
    simp
      (
        buttons-append, buttons-wallets, buttons-anchor_part, buttons-submit_part_v1,
        buttons-submit_part, append_assoc,
      )
      refl
