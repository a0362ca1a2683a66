-- ===== src/IssuerApp/Steps.antt =====
-- issuer-front-end/src/Root.tsx with SelectNetwork.tsx: the three steps of the page, their two
-- buttons and the network. React runs a handler with the state of the last render; of two updates of
-- one field in a handler the later one counts.
pub mod Session
use concordium_web3id.Common.{
  ℕ, ◌+◌, ◌-◌, Bool, true, false, not, ◌&&◌, List, [], ◌∷◌, ltb, ◌==◌, if◌then◌else◌,
}

pub record Root : Type 0 where
  pub is_testnet : Bool
  pub active : ℕ
  pub is_connected : Bool
  pub next_disabled : Bool
  pub previous_disabled : Bool

abbrev pub initial : Root
initial = record {
  is_testnet = true;
  active = 1;
  is_connected = false;
  next_disabled = false;
  previous_disabled = true;
}

-- `updateProgress`: its three conditionals, one after another.
abbrev waits_for_wallet : ℕ → Root → Root
waits_for_wallet value r =
    if value == 2 && not r.is_connected then record r { next_disabled = true } else r

abbrev ends_at_last : ℕ → Root → Root
ends_at_last value r = if value == 3 then record r { next_disabled = true } else r

abbrev enables : ℕ → Root → Root
enables value r =
    if value == 1
    then record r { previous_disabled = true; next_disabled = false }
    else if value == 3
    then record r { next_disabled = true }
    else record r { previous_disabled = false; next_disabled = false }

unfoldable pub update_progress : ℕ → Root → Root
update_progress value r = enables value (ends_at_last value (waits_for_wallet value r))

abbrev pub after : ℕ → ℕ
after value = if ltb value 3 then value + 1 else value

-- `activeValue - 1 >= 1` holds above 1.
abbrev pub before : ℕ → ℕ
before value = if ltb 1 value then value - 1 else 1

unfoldable pub next : Root → Root
unfolding update_progress
next r = record (update_progress (after r.active) r) { active = after r.active }

unfoldable pub previous : Root → Root
unfolding update_progress
previous r = record (update_progress (before r.active) r) { active = before r.active }

-- What the page lets its user and the wallet do: a disabled button does nothing, the network is
-- chosen in step 2, and the wallet's component, which reports the number of connected accounts
-- whenever it is drawn and whose button "Connect To Browser Wallet" calls `next`, stands in step 3.
pub data Event : Type 0 where
  next_clicked : Event
  previous_clicked : Event
  network_clicked : (testnet : Bool) → Event
  wallet_drawn : (accounts : ℕ) → Event
  connect_clicked : Event

unfoldable pub react : Event → Root → Root
unfolding next previous
react next_clicked r = if r.next_disabled then r else next r
react previous_clicked r = if r.previous_disabled then r else previous r
react (network_clicked testnet) r = if r.active == 2 then record r { is_testnet = testnet } else r
react (wallet_drawn accounts) r =
    if r.active == 3 then record r { is_connected = ltb 0 accounts } else r
react connect_clicked r = if r.active == 3 then next r else r

abbrev pub react_all : List Event → Root → Root
react_all [] r = r
react_all (v ∷ vs) r = react_all vs (react v r)
