-- ===== src/Explorer/Providers/Idle.antt =====
-- The mobile wallet's session while the page of ProofExplorer.tsx uses another wallet, or none.
use concordium_web3id.Common.{
  is_ok, ◌≡◌, ◌⊎◌, inl, inr, String, Bool, true, false, Option, none, some, List, [], ◌∷◌, Result,
  ok, err, refl, arith, All, Option-cases, Result-cases,
}
use concordium_web3id.Explorer.Thrown.{Thrown, error}
use concordium_web3id.Explorer.Browser
use concordium_web3id.Explorer.Wallet.{
  WalletConnect, Pairing, Session, Request, connect, approved, get_account, disconnect,
  session_update, session_delete, request_verifiable_presentation,
  request_verifiable_presentation_v1, truthy, request,
}
use concordium_web3id.Explorer.Providers.{
  Which, browser, mobile, mobile_connected, Providers, initial, cleanup, set_provider, Event,
  browser_clicked, mobile_clicked, session_updated, session_deleted, react, react_all,
}

abbrev pub is_mobile : Option Which → Bool
is_mobile (some mobile) = true
is_mobile (some browser) = false
is_mobile none = false

-- Without the mobile wallet in use there is no session with it.
abbrev IsIdle : Providers → Type 0
IsIdle p = (is_mobile p.provider ≡ true) ⊎ (p.wallet_connect.topic ≡ none)

-- A disconnection that the event may start succeeds.
abbrev pub Disconnects : Event → Type 0
Disconnects (browser_clicked accounts answer) = answer ≡ ok tt
Disconnects (mobile_clicked use_old pairing answer) = answer ≡ ok tt
Disconnects _ = Unit

topic-disconnect : (w : WalletConnect) → (disconnect (ok tt) w).0.topic ≡ none
unfolding disconnect
topic-disconnect w = ground arith

topic-approved :
    (session : Session) (w : WalletConnect)
    → is_ok (approved session w).1 ≡ false
    → (approved session w).0.topic ≡ w.topic
topic-approved session w h = elim (Result-cases (get_account session.namespaces)) [
  | inl (account, read) ↦ cc (rw (approved, read) at h)
  | inr (thrown, unread) ↦ rw (approved, unread) refl
]

-- A connection that fails keeps the topic.
topic-connect :
    (use_old : Bool) (answer : Result Thrown Pairing) (w : WalletConnect)
    → is_ok (connect use_old answer w).1 ≡ false
    → (connect use_old answer w).0.topic ≡ w.topic
unfolding connect
topic-connect use_old (err e) w h = refl
topic-connect use_old (ok pairing) w h = elim (Option-cases (truthy pairing.uri)) [
  | inl existing ↦ rw (connect, existing) refl
  | inr (uri, shown) ↦ elim (Result-cases pairing.approval) [
    | inr (thrown, rejected) ↦ rw (connect, shown, rejected) refl
    | inl (session, accepted) ↦
        rw (connect, shown, accepted)
          (topic-approved session _ (rw (connect, shown, accepted) at h))
  ]
]

mobile_connected-IsIdle :
    (answer : Result Thrown (Unit {0})) (r : WalletConnect × Result Thrown (Option (List String)))
    (p : Providers)
    → IsIdle p
    → (is_ok r.1 ≡ false → r.0.topic ≡ p.wallet_connect.topic)
    → IsIdle (mobile_connected answer r p)
unfolding set_provider cleanup
mobile_connected-IsIdle answer (w, ok accounts) p h kept = inl (ground (arith, p.provider))
mobile_connected-IsIdle answer (w, err thrown) p h kept =
    let same : w.topic ≡ p.wallet_connect.topic = kept refl in ground (arith, h, same)

react-IsIdle : (v : Event) (p : Providers) → Disconnects v → IsIdle p → IsIdle (react v p)
unfolding react set_provider cleanup Browser.connect session_update session_delete
react-IsIdle (browser_clicked (err thrown) answer) p d h = h
react-IsIdle (browser_clicked (ok accounts) answer) p d h =
    ground (arith, h, d, topic-disconnect p.wallet_connect)
react-IsIdle (mobile_clicked use_old pairing answer) p d h =
    mobile_connected-IsIdle answer _ p h (topic-connect use_old pairing p.wallet_connect)
react-IsIdle (session_updated ns) p d h = ground (arith, h)
react-IsIdle session_deleted p d h = inr refl

react_all-IsIdle :
    (vs : List Event) (p : Providers) → All Disconnects vs → IsIdle p → IsIdle (react_all vs p)
react_all-IsIdle [] p d h = h
react_all-IsIdle (v ∷ vs) p d h = react_all-IsIdle vs (react v p) d.1 (react-IsIdle v p d.0 h)

-- In every session whose disconnections succeed, while the page uses the Browser Wallet or none, a
-- request of either flow through the provider for mobile wallets sends nothing and fails with "No
-- connection".
pub idle_mobile_refuses :
    {R J A : Type 0} (decode : J → Result Thrown A) (params : R)
    (client : Request R → Result Thrown J) (vs : List Event)
    → All Disconnects vs
    → is_mobile (react_all vs initial).provider ≡ false
    → let w = (react_all vs initial).wallet_connect in
      (request_verifiable_presentation decode params client w ≡ (none, err (error "No connection")))
      × (request_verifiable_presentation_v1 decode params client w
          ≡ (none, err (error "No connection")))
unfolding request_verifiable_presentation request_verifiable_presentation_v1
idle_mobile_refuses decode params client vs d other =
    elim (react_all-IsIdle vs initial d (inr refl)) [
      | inl used ↦ cc (other, used)
      | inr none_open ↦ (rw (request, none_open) refl, rw (request, none_open) refl)
    ]
