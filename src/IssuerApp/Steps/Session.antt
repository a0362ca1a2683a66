-- ===== src/IssuerApp/Steps/Session.antt =====
-- The steps of issuer-front-end/src/Root.tsx over whole sessions.
use concordium_web3id.Common.{◌≡◌, ◌⊎◌, ◌≤◌, ◌<◌, true, false, List, [], ◌∷◌, ◌==◌, refl, arith}
use concordium_web3id.IssuerApp.Steps.{
  Root, initial, update_progress, next, previous, Event, next_clicked, previous_clicked,
  network_clicked, wallet_drawn, connect_clicked, react, react_all,
}

-- The page stands at one of its three steps, and each button is disabled exactly at its end.
pub record IsAligned (r : Root) : Type 0 where
  pub above : 1 ≤ r.active
  pub below : r.active ≤ 3
  pub first : r.previous_disabled ≡ r.active == 1
  pub last : r.next_disabled ≡ r.active == 3

-- The three states of an aligned page.
pub step-cases :
    (r : Root)
    → IsAligned r
    → ((r.active ≡ 1) × (r.previous_disabled ≡ true) × (r.next_disabled ≡ false))
      ⊎ ((r.active ≡ 2) × (r.previous_disabled ≡ false) × (r.next_disabled ≡ false))
      ⊎ ((r.active ≡ 3) × (r.previous_disabled ≡ false) × (r.next_disabled ≡ true))
step-cases r h = ground (arith, h.above, h.below, h.first, h.last)

react-IsAligned : (v : Event) (r : Root) → IsAligned r → IsAligned (react v r)
unfolding react next previous update_progress
react-IsAligned next_clicked r h = ground (arith, step-cases r h)
react-IsAligned previous_clicked r h = ground (arith, step-cases r h)
react-IsAligned (network_clicked testnet) r h = ground (arith, step-cases r h)
react-IsAligned (wallet_drawn accounts) r h = ground (arith, step-cases r h)
react-IsAligned connect_clicked r h = ground (arith, step-cases r h)

react_all-IsAligned : (vs : List Event) (r : Root) → IsAligned r → IsAligned (react_all vs r)
react_all-IsAligned [] r h = h
react_all-IsAligned (v ∷ vs) r h = react_all-IsAligned vs (react v r) (react-IsAligned v r h)

initial-IsAligned : IsAligned initial
initial-IsAligned = record { above = omega arith; below = omega arith; first = refl; last = refl }

-- In every session the page stands at step 1, 2 or 3, the button for the previous step is disabled
-- exactly at step 1, and the button for the next one exactly at step 3.
pub buttons_aligned :
    (vs : List Event)
    → let r = react_all vs initial in
      (1 ≤ r.active)
      × (r.active ≤ 3)
      × (r.previous_disabled ≡ r.active == 1)
      × (r.next_disabled ≡ r.active == 3)
buttons_aligned vs =
    let h = react_all-IsAligned vs initial initial-IsAligned in (h.above, h.below, h.first, h.last)

-- In every session the button for the next step and then the one for the previous step lead back to
-- the same state from the steps 1 and 2, whether or not a wallet is connected.
pub previous-next :
    (vs : List Event)
    → let r = react_all vs initial in
      r.active < 3 → react previous_clicked (react next_clicked r) ≡ r
unfolding react next previous update_progress
previous-next vs below =
    let r = react_all vs initial in
    ground (arith, step-cases r (react_all-IsAligned vs initial initial-IsAligned))
