-- ===== src/SomeIssuer/Toast.antt =====
-- examples/some-issuer/frontend/src/shared/StatusToast/StatusToast.tsx over the state of
-- shared/Layout/Layout.tsx: the toast with the status of a transaction. The effect that counts the
-- seconds starts anew whenever its dependency changes, whether the status is other than 'submitted'.
pub mod Seconds
use Prim.Native.String.{◌++◌ as str_append}
use concordium_web3id.Common.{
  ℕ, zero, suc, ◌-◌, String, Bool, true, false, Option, none, some, List, [], ◌∷◌, if◌then◌else◌,
  str_eq,
}
use concordium_web3id.SomeIssuer.Issuance.{
  TransactionStatus, status_submitted, status_finalized, TxState, Notice, notified,
}

-- `transactionStatus !== 'submitted'`
abbrev pub is_done : Option TransactionStatus → Bool
is_done none = true
is_done (some status_submitted) = false
is_done (some status_finalized) = true

-- `showStatus`, `txState` and `seconds`.
pub record Toast : Type 0 where
  pub show : Bool
  pub tx : TxState
  pub seconds : ℕ

abbrev pub initial : Toast
initial = record {
  show = true;
  tx = record { transaction = none; transaction_status = none };
  seconds = 0;
}

abbrev same : Bool → Bool → Bool
same true b = b
same false true = false
same false false = true

-- What happens: a notice of the request, a second that passes, and the user closes the toast.
pub data Event : Type 0 where
  noticed : Notice → Event
  second_passed : Event
  closed : Event

-- The notice and the effect's cleanup, which sets the seconds to zero.
unfoldable pub notice : Notice → Toast → Toast
unfolding notified
notice n t =
    let tx = notified n t.tx in
    record t {
      tx = tx;
      seconds =
          if same (is_done t.tx.transaction_status) (is_done tx.transaction_status)
          then t.seconds
          else 0;
    }

-- The interval's `setSeconds`, and the `onClose` of Layout.tsx.
abbrev tick : Toast → Toast
tick t = record t { seconds = suc t.seconds }

abbrev pub on_close : Toast → Toast
on_close t = record t { show = false }

unfoldable pub react : Event → Toast → Toast
unfolding notice
react (noticed n) t = notice n t
react second_passed t = tick t
react closed t = on_close t

abbrev pub react_all : List Event → Toast → Toast
react_all [] t = t
react_all (v ∷ vs) t = react_all vs (react v t)

-- `.slice(0, n)`, for the plain characters of a hash.
abbrev pub slice : ℕ → String → String
slice n String.[] = ""
slice zero (String.◌∷◌ c s) = ""
slice (suc n) (String.◌∷◌ c s) = String.◌∷◌ c (slice n s)

-- `'.'.repeat(n)`
abbrev pub dots : ℕ → String
dots zero = ""
dots (suc n) = String.◌∷◌ "." (dots n)

abbrev pub scan_url : (network hash : String) → String
scan_url network hash = str_append "https://" (
    str_append (if str_eq network "mainnet" then "ccdscan.io" else str_append network ".ccdscan.io")
      (str_append "/?dcount=1&dentity=transaction&dhash=" hash))

-- The link to the transaction, and the line below it.
pub data Shown : Type 0 where
  nothing : Shown
  body : (url text : String) (line : Option String) → Shown

abbrev status_line : Option TransactionStatus → ℕ → Option String
status_line none n = none
status_line (some status_submitted) n = some (str_append "Awaiting finalization: " (dots n))
status_line (some status_finalized) n = some "Transaction finalized"

unfoldable pub status_toast : (network : String) → Toast → Shown
status_toast network t = elim t.tx.transaction [
  | none ↦ nothing
  | some hash ↦
      if t.show
      then body (scan_url network hash) (slice 10 hash)
          (status_line t.tx.transaction_status t.seconds)
      else nothing
]
