-- ===== src/IssuerApp/Deploy/Shown.antt =====
-- What the deployment page draws over whole sessions.
use concordium_web3id.Common.{
  ◌≡◌, ◌≢◌, ◌⊎◌, inl, inr, refl, String, Bool, true, false, Option, none, some, List, [], ◌∷◌, ◌++◌,
  ok, err, Result-cases, Bool-cases, arith, ne_of_not-is_blank, is_blank,
}
use concordium_web3id.Common.View.{text}
use concordium_web3id.IssuerApp.Deploy.{
  Deploy, Report, pending, finalized, initial, submit, settled, polled, add_key, clear_keys,
  handle_close, add_revokation_key,
}
use concordium_web3id.IssuerApp.Deploy.Page.{
  Event, submitted, answered, reported, key_added, keys_cleared, closed, react, react_all,
}
use concordium_web3id.IssuerApp.Deploy.View.{
  Nodes, Field, dialog, form, keys_shown, errors_shown, hash_shown, progress, view,
}

-- The dialog is closed, and while the page waits it has no index.
record IsShown (d : Deploy) : Type 0 where
  hidden : d.show ≡ false
  unknown : d.waiting ≡ true → d.contract_index ≡ ""

add_key-IsShown : (k : Option String) (d : Deploy) → IsShown d → IsShown (add_key k d)
unfolding add_key
add_key-IsShown k d h = elim (Result-cases (add_revokation_key d.revocation_keys k)) [
  | inr (message, refused) ↦ rw (refused, add_key) h
  | inl (keys, accepted) ↦
      rw (accepted, add_key) (record { hidden = h.hidden; unknown = h.unknown })
]

polled-IsShown : (r : Option Report) (d : Deploy) → IsShown d → IsShown (polled (ok r) d)
unfolding polled
polled-IsShown none d h = h
polled-IsShown (some pending) d h = record { hidden = h.hidden; unknown = h.unknown }
polled-IsShown (some (finalized none)) d h = record {
  hidden = h.hidden;
  unknown = λ e. ground arith;
}
polled-IsShown (some (finalized (some index))) d h = record {
  hidden = h.hidden;
  unknown = λ e. ground arith;
}

react-IsShown : (v : Event) (d : Deploy) → IsShown d → IsShown (react v d)
unfolding react submit settled polled clear_keys handle_close
react-IsShown submitted d h = record { hidden = h.hidden; unknown = λ e. refl }
react-IsShown (answered (ok hash)) d h = record { hidden = h.hidden; unknown = h.unknown }
react-IsShown (answered (err message)) d h = record {
  hidden = h.hidden;
  unknown = λ e. ground arith;
}
react-IsShown (reported (err message)) d h = record { hidden = h.hidden; unknown = h.unknown }
react-IsShown (reported (ok r)) d h = polled-IsShown r d h
react-IsShown (key_added k) d h = add_key-IsShown k d h
react-IsShown keys_cleared d h = record { hidden = h.hidden; unknown = h.unknown }
react-IsShown closed d h = record { hidden = refl; unknown = h.unknown }

react_all-IsShown : (vs : List Event) (d : Deploy) → IsShown d → IsShown (react_all vs d)
react_all-IsShown [] d h = h
react_all-IsShown (v ∷ vs) d h = react_all-IsShown vs (react v d) (react-IsShown v d h)

-- The last part of the page: nothing, that it waits, or the index of the new contract.
abbrev IsProgress : Nodes → Type 0
IsProgress ns =
    (ns ≡ [])
    ⊎ ((ns ≡ text "Waiting for transaction to finalize" ∷ [])
        ⊎ ((index : String) × (index ≢ "") × (ns ≡ text "Smart Contract Index:" ∷ text index ∷ [])))

progress-IsProgress : (d : Deploy) → IsShown d → IsProgress (progress d)
unfolding progress
progress-IsProgress d h = elim (Bool-cases d.waiting) [
  | inl waits ↦ inr (inl (rw (waits, h.unknown waits) refl))
  | inr done ↦ elim (Bool-cases (is_blank d.contract_index)) [
    | inl blank ↦ inl (rw (done, blank) refl)
    | inr known ↦
        inr
          (inr (d.contract_index, ne_of_not-is_blank d.contract_index known, rw (done, known) refl))
  ]
]

-- In every session the page draws its form, keys, errors and hash and no dialog, and it ends with
-- nothing, with the text that it waits, or with an index of a contract that is not empty: it shows no
-- index while it waits.
pub session_shown :
    (vs : List Event) (required : Field → Bool) (keys_text : List String → String)
    (is_testnet : Bool)
    → let d = react_all vs initial in
      (view required keys_text is_testnet d
        ≡ form required
          ++ keys_shown keys_text d.revocation_keys
          ++ errors_shown d
          ++ hash_shown is_testnet d.tx_hash
          ++ progress d)
      × IsProgress (progress d)
unfolding view dialog
session_shown vs required keys_text is_testnet =
    let h = react_all-IsShown vs initial (record { hidden = refl; unknown = λ e. refl }) in
    (rw h.hidden refl, progress-IsProgress (react_all vs initial) h)
