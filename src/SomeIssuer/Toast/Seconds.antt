-- ===== src/SomeIssuer/Toast/Seconds.antt =====
-- What the example issuer's toast shows over whole sessions.
use Prim.Native.String.{◌++◌ as str_append}
use concordium_web3id.Common.{
  ℕ, zero, suc, ◌+◌, ◌≡◌, String, true, some, List, [], ◌∷◌, ◌++◌, refl, ap, ◌∙◌, arith, All,
}
use concordium_web3id.SomeIssuer.Issuance.{status_submitted, on_submit, notified}
use concordium_web3id.SomeIssuer.Toast.{
  Toast, initial, is_done, Event, noticed, second_passed, closed, notice, react, react_all, slice,
  dots, scan_url, body, status_toast,
}

-- Seconds pass, and nothing else happens.
abbrev pub waiting : ℕ → List Event
waiting zero = []
waiting (suc n) = second_passed ∷ waiting n

react_all-append :
    (us vs : List Event) (t : Toast) → react_all (us ++ vs) t ≡ react_all vs (react_all us t)
react_all-append [] vs t = refl
react_all-append (u ∷ us) vs t = react_all-append us vs (react u t)

react_all-waiting :
    (n : ℕ) (t : Toast) → react_all (waiting n) t ≡ record t { seconds = n + t.seconds }
unfolding react
react_all-waiting zero t = ground arith
react_all-waiting (suc n) t =
    react_all-waiting n (react second_passed t)
    ∙ ap (λ k. record t { seconds = k }) {x = n + suc t.seconds} (omega arith)

-- The event keeps the toast open.
abbrev pub KeepsOpen : Event → Type 0
KeepsOpen closed = ⊥
KeepsOpen _ = Unit

react_all-show : (vs : List Event) (t : Toast) → All KeepsOpen vs → (react_all vs t).show ≡ t.show
unfolding react notice
react_all-show [] t k = refl
react_all-show (noticed n ∷ vs) t k = react_all-show vs (react (noticed n) t) k.1
react_all-show (second_passed ∷ vs) t k = react_all-show vs (react second_passed t) k.1
react_all-show (closed ∷ vs) t k = absurd k.0

submit-notice :
    (hash : String) (t : Toast)
    → is_done t.tx.transaction_status ≡ true
    → react (noticed (on_submit hash)) t ≡ record t {
      tx = record { transaction = some hash; transaction_status = some status_submitted };
      seconds = 0;
    }
unfolding react notice notified
submit-notice hash t d = rw d refl

status_toast-submitted :
    (network hash : String) (n : ℕ) (t : Toast)
    → t.show ≡ true
    → status_toast network (record t {
      tx = record { transaction = some hash; transaction_status = some status_submitted };
      seconds = n;
    })
      ≡ body
          (scan_url network hash)
          (slice 10 hash)
          (some (str_append "Awaiting finalization: " (dots n)))
unfolding status_toast
status_toast-submitted network hash n t e = rw e refl

-- After a session in which the toast was not closed and no transaction is awaited, n seconds after
-- the next transaction is submitted the toast links to that transaction on the network's explorer
-- under the first ten characters of its hash, and awaits its finalization with n dots: the seconds
-- that passed before do not count.
status_toast-waiting :
    (us : List Event) (network hash : String) (n : ℕ)
    → All KeepsOpen us
    → is_done (react_all us initial).tx.transaction_status ≡ true
    → status_toast network (react_all (us ++ noticed (on_submit hash) ∷ waiting n) initial)
      ≡ body
          (scan_url network hash)
          (slice 10 hash)
          (some (str_append "Awaiting finalization: " (dots n)))
status_toast-waiting us network hash n k d =
    let t = react_all us initial in
    ap (status_toast network) (
      react_all-append us (noticed (on_submit hash) ∷ waiting n) initial
      ∙ ap (react_all (waiting n)) (submit-notice hash t d)
      ∙ react_all-waiting n _
      ∙ ap
          (λ k. record t {
            tx = record { transaction = some hash; transaction_status = some status_submitted };
            seconds = k;
          })
          {x = n + 0} {y = n} (omega arith))
    ∙ status_toast-submitted network hash n t (react_all-show us initial k)
