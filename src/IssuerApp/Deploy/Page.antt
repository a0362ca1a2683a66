-- ===== src/IssuerApp/Deploy/Page.antt =====
-- The deployment page over whole sessions.
use concordium_web3id.Common.{
  ◌≡◌, String, true, false, Option, none, some, List, [], ◌∷◌, ◌++◌, refl, arith, Result, ok, err,
  Result-cases, inl, inr, ◌⊎◌, All, All-append, includes, utf16_length, str_eq, eq_iff,
}
use concordium_web3id.IssuerApp.Deploy.{
  Deploy, Report, pending, finalized, initial, submit, settled, polled, add_key, clear_keys,
  handle_close, add_revokation_key,
}

-- What the user, the wallet and the node do.
pub data Event : Type 0 where
  submitted : Event
  answered : Result String String → Event
  reported : Result String (Option Report) → Event
  key_added : Option String → Event
  keys_cleared : Event
  closed : Event

unfoldable pub react : Event → Deploy → Deploy
react submitted d = submit d
react (answered r) d = settled r d
react (reported r) d = polled r d
react (key_added k) d = add_key k d
react keys_cleared d = clear_keys d
react closed d = handle_close d

abbrev pub react_all : List Event → Deploy → Deploy
react_all [] d = d
react_all (v ∷ vs) d = react_all vs (react v d)

-- No key stands twice.
abbrev pub IsDistinct : List String → Type 0
IsDistinct [] = Unit
IsDistinct (k ∷ ks) = (includes ks k ≡ false) × IsDistinct ks

includes-append_one :
    (ks : List String) (k s : String)
    → includes ks s ≡ false
    → str_eq k s ≡ false
    → includes (ks ++ k ∷ []) s ≡ false
includes-append_one [] k s h e = ground arith
includes-append_one (j ∷ ks) k s h e = ground (arith, includes-append_one ks k s)

pub append_one-IsDistinct :
    (ks : List String) (k : String)
    → IsDistinct ks
    → includes ks k ≡ false
    → IsDistinct (ks ++ k ∷ [])
append_one-IsDistinct [] k h fresh = (refl, tt)
append_one-IsDistinct (j ∷ ks) k h fresh =
    ground
      (arith, eq_iff k j, eq_iff j k, includes-append_one ks k j, append_one-IsDistinct ks k h.1)

-- The revocation keys are distinct and have 64 code units each, and the error dialog is closed.
pub record IsValid (d : Deploy) : Type 0 where
  pub distinct : IsDistinct d.revocation_keys
  pub long : All (λ k. utf16_length k ≡ 64) d.revocation_keys
  pub hidden : d.show ≡ false

pub append_one-long :
    (ks : List String) (k : String)
    → All (λ s. utf16_length s ≡ 64) ks
    → utf16_length k ≡ 64
    → All (λ s. utf16_length s ≡ 64) (ks ++ k ∷ [])
append_one-long ks k h e = All-append (λ s. utf16_length s ≡ 64) ks (k ∷ []) h (e, tt)

-- What the checks of an addition that succeeds have established.
add_revokation_key-eq-ok :
    (keys : List String) (k : String) {added : List String}
    → add_revokation_key keys (some k) ≡ ok added
    → (added ≡ keys ++ k ∷ []) × (includes keys k ≡ false) × (utf16_length k ≡ 64)
unfolding add_revokation_key
add_revokation_key-eq-ok keys k e = ground arith

add_key-IsValid : (k : Option String) (d : Deploy) → IsValid d → IsValid (add_key k d)
unfolding add_key add_revokation_key
add_key-IsValid none d h = h
add_key-IsValid (some k) d h = elim (Result-cases (add_revokation_key d.revocation_keys (some k))) [
  | inr (message, refused) ↦ rw (refused, add_key) h
  | inl (added, accepted) ↦
      let (shape, fresh, long) = add_revokation_key-eq-ok d.revocation_keys k accepted in
      rw (accepted, add_key)
        (rw shape (record {
          distinct = append_one-IsDistinct d.revocation_keys k h.distinct fresh;
          long = append_one-long d.revocation_keys k h.long long;
          hidden = h.hidden;
        }))
]

react-IsValid : (v : Event) (d : Deploy) → IsValid d → IsValid (react v d)
unfolding react submit settled polled clear_keys handle_close
react-IsValid submitted d h = ground arith
react-IsValid (answered (ok hash)) d h = ground arith
react-IsValid (answered (err message)) d h = ground arith
react-IsValid (reported r) d h = ground arith
react-IsValid (key_added k) d h = add_key-IsValid k d h
react-IsValid keys_cleared d h = record { distinct = tt; long = tt; hidden = h.hidden }
react-IsValid closed d h = ground arith

react_all-IsValid : (vs : List Event) (d : Deploy) → IsValid d → IsValid (react_all vs d)
react_all-IsValid [] d h = h
react_all-IsValid (v ∷ vs) d h = react_all-IsValid vs (react v d) (react-IsValid v d h)

initial-IsValid : IsValid initial
initial-IsValid = record { distinct = tt; long = tt; hidden = refl }

-- In every session the revocation keys stay distinct and of 64 code units each.
pub revocation_keys_valid :
    (vs : List Event)
    → let keys = (react_all vs initial).revocation_keys in
      IsDistinct keys × All (λ k. utf16_length k ≡ 64) keys
revocation_keys_valid vs =
    let h = react_all-IsValid vs initial initial-IsValid in (h.distinct, h.long)

-- In every session the message of a failed deployment is recorded and the dialog that would show it
-- is closed, then and after whatever follows.
pub error_hidden :
    (vs later : List Event) (message : String)
    → let d = settled (err message) (react_all vs initial) in
      (d.error ≡ message) × (d.waiting ≡ false) × ((react_all later d).show ≡ false)
unfolding settled react
error_hidden vs later message =
    let h =
      react-IsValid (answered (err message)) _ (react_all-IsValid vs initial initial-IsValid) in
    (refl, refl, (react_all-IsValid later _ h).hidden)

-- While the page waits, a report that the transaction is finalized, and no other, ends the waiting;
-- then the page shows the index of the contract and no error, or the error and the index as it was.
pub polled_outcome :
    (r : Report) (d : Deploy)
    → d.waiting ≡ true
    → let d' = polled (ok (some r)) d in
      ((r ≡ pending)
        × (d'.waiting ≡ true)
        × (d'.contract_index ≡ d.contract_index)
        × (d'.contract_index_error ≡ d.contract_index_error))
      ⊎ ((d'.waiting ≡ false)
          × (((index : String) × (r ≡ finalized (some index))
                × (d'.contract_index ≡ index)
                × (d'.contract_index_error ≡ ""))
              ⊎ ((r ≡ finalized none)
                  × (d'.contract_index ≡ d.contract_index)
                  × (d'.contract_index_error ≡ "Contract initialization failed"))))
unfolding polled
polled_outcome pending d w = inl (refl, w, refl, refl)
polled_outcome (finalized none) d w = inr (ground arith, inr (refl, refl, refl))
polled_outcome (finalized (some index)) d w = inr (ground arith, inl (index, refl, refl, refl))
