-- ===== src/Explorer/Submit/Panel.antt =====
-- The lower part of `SubmitProofV1` and `SubmitProof` (test-tools/proof-explorer/src/services/
-- verification-service-v1.tsx and verification-service.tsx): the list of messages with its buttons,
-- and the dialog for the proof.
use concordium_web3id.Common.{
  ◌≡◌, Bool, true, false, Option, none, some, List, [], ◌∷◌, map, ◌&&◌, is_some, refl, ap, arith,
  ◌∙◌, if◌then◌else◌,
}
use concordium_web3id.Explorer.Submit.{Message, proof_ok, View, append, accept}

pub record Panel (P : Type 0) : Type 0 where
  pub view : View P
  pub details_open : Bool

abbrev pub initial : {P : Type 0} → Panel P
initial = record { view = record { messages = []; current_proof = none }; details_open = false }

-- `handleViewDetails` and `handleCloseDetails`
unfoldable pub handle_view_details : {P : Type 0} → Panel P → Panel P
handle_view_details p = if is_some p.view.current_proof then record p { details_open = true } else p

unfoldable pub handle_close_details : {P : Type 0} → Panel P → Panel P
handle_close_details p = record p { details_open = false }

-- The button "Clear messages" of ProofExplorer.tsx.
unfoldable pub clear_messages : {P : Type 0} → Panel P → Panel P
clear_messages p = record p { view = record (p.view) { messages = [] } }

-- Whether a message has the button "View Details".
abbrev pub is_proof_ok : Message → Bool
is_proof_ok proof_ok = true
is_proof_ok m = false

unfoldable pub lines : {P : Type 0} → Panel P → List (Message × Bool)
lines p = map (λ m. (m, is_proof_ok m && is_some p.view.current_proof)) p.view.messages

-- The proof in the dialog, if that is drawn and open.
unfoldable pub dialog : {P : Type 0} → Panel P → Option P
dialog p = if p.details_open then p.view.current_proof else none

-- What happens: a submission ends with a message or with a proof, and the buttons.
pub data Event (P : Type 0) : Type 0 where
  failed : Message → Event P
  accepted : P → Event P
  details_clicked : Event P
  close_clicked : Event P
  clear_clicked : Event P

module _ {P : Type 0} where
  unfoldable pub react : Event P → Panel P → Panel P
  unfolding handle_view_details handle_close_details clear_messages
  react (failed m) p = record p { view = append m p.view }
  react (accepted q) p = record p { view = accept q p.view }
  react details_clicked p = handle_view_details p
  react close_clicked p = handle_close_details p
  react clear_clicked p = clear_messages p

  abbrev pub react_all : List (Event P) → Panel P → Panel P
  react_all [] p = p
  react_all (v ∷ vs) p = react_all vs (react v p)

  -- The proof that was accepted last, after `q`.
  abbrev pub last_accepted : Option P → List (Event P) → Option P
  last_accepted q [] = q
  last_accepted q (accepted r ∷ vs) = last_accepted (some r) vs
  last_accepted q (v ∷ vs) = last_accepted q vs

  handle_view_details-current_proof :
      (p : Panel P) → (handle_view_details p).view.current_proof ≡ p.view.current_proof
  unfolding handle_view_details
  handle_view_details-current_proof p = ground arith

  react_all-current_proof :
      (vs : List (Event P)) (p : Panel P)
      → (react_all vs p).view.current_proof ≡ last_accepted p.view.current_proof vs
  unfolding react handle_view_details handle_close_details clear_messages
  react_all-current_proof [] p = refl
  react_all-current_proof (failed m ∷ vs) p = react_all-current_proof vs (react (failed m) p)
  react_all-current_proof (accepted q ∷ vs) p = react_all-current_proof vs (react (accepted q) p)
  react_all-current_proof (close_clicked ∷ vs) p =
      react_all-current_proof vs (react close_clicked p)
  react_all-current_proof (clear_clicked ∷ vs) p =
      react_all-current_proof vs (react clear_clicked p)
  react_all-current_proof (details_clicked ∷ vs) p =
      react_all-current_proof vs (react details_clicked p)
      ∙ ap (λ q. last_accepted q vs) (handle_view_details-current_proof p)

  dialog-handle_view_details : (p : Panel P) → dialog (handle_view_details p) ≡ p.view.current_proof
  unfolding dialog handle_view_details
  dialog-handle_view_details p = ground arith

  -- In every session the button "View Details" of any line opens the dialog with the proof that was
  -- accepted last, also of a line for an earlier proof and after the messages were cleared.
  pub details_show_last :
      (vs : List (Event P))
      → dialog (react details_clicked (react_all vs initial)) ≡ last_accepted none vs
  unfolding react
  details_show_last vs =
      dialog-handle_view_details (react_all vs initial) ∙ react_all-current_proof vs initial
