-- ===== src/Explorer/Wallet/Sessions.antt =====
-- The provider of wallet-connection.ts over whole sessions: which requests are sent, and with what.
use concordium_web3id.Common.{
  ◌≡◌, ◌≢◌, ◌↔◌, String, Bool, true, false, none, some, List, [], ◌∷◌, refl, arith, inl, inr, All,
  Result, Result-cases, ok, err, is_blank, if◌then◌else◌, ap, sym, ◌∙◌, Option-cases,
}
use concordium_web3id.Explorer.Thrown.{Thrown, error_object, error, rethrow}
use concordium_web3id.Explorer.Wallet.{
  WalletConnect, Request, Pairing, Session, Namespaces, truthy, connect, disconnect, chain_id,
  chain_id_old, method_v1, request_verifiable_presentation, request_verifiable_presentation_v1,
  session_update, session_delete, approved, get_account, disconnected,
}

-- What happens to a provider besides requests.
pub data Event : Type 0 where
  connecting : Bool → Result Thrown Pairing → Event
  disconnecting : Result Thrown (Unit {0}) → Event
  updated : Namespaces → Event
  deleted : Event

unfoldable pub happen : Event → WalletConnect → WalletConnect
unfolding connect disconnect session_update session_delete
happen (connecting use_old answer) w = (connect use_old answer w).0
happen (disconnecting answer) w = (disconnect answer w).0
happen (updated ns) w = session_update ns w
happen deleted w = session_delete w

abbrev pub happen_all : List Event → WalletConnect → WalletConnect
happen_all [] w = w
happen_all (v ∷ vs) w = happen_all vs (happen v w)

-- The chain of the last `connect`, whatever became of it, or the one before.
abbrev pub last_chain : List Event → String → String
last_chain [] chain = chain
last_chain (connecting true answer ∷ vs) chain = last_chain vs "ccd:testnet"
last_chain (connecting false answer ∷ vs) chain =
    last_chain vs "ccd:4221332d34e1694168c2a0c0b3fd0f27"
last_chain (v ∷ vs) chain = last_chain vs chain

chain-approved : (s : Session) (w : WalletConnect) → (approved s w).0.chain ≡ w.chain
chain-approved s w = elim (Result-cases (get_account s.namespaces)) [
  | inl (account, read) ↦ rw (approved, read) refl
  | inr (thrown, unread) ↦ rw (approved, unread) refl
]

chain-connect :
    (use_old : Bool) (answer : Result Thrown Pairing) (w : WalletConnect)
    → (connect use_old answer w).0.chain ≡ (if use_old then chain_id_old else chain_id)
unfolding connect
chain-connect use_old (err e) w = refl
chain-connect use_old (ok pairing) w = elim (Option-cases (truthy pairing.uri)) [
  | inl existing ↦ rw (connect, existing) refl
  | inr (uri, shown) ↦ elim (Result-cases pairing.approval) [
    | inr (thrown, rejected) ↦ rw (connect, shown, rejected) refl
    | inl (session, accepted) ↦ rw (connect, shown, accepted) (chain-approved session _)
  ]
]

chain-happen : (v : Event) (w : WalletConnect) → (happen v w).chain ≡ last_chain (v ∷ []) w.chain
unfolding happen disconnect session_update session_delete
chain-happen (connecting true answer) w = chain-connect true answer w
chain-happen (connecting false answer) w = chain-connect false answer w
chain-happen (disconnecting answer) w = ground arith
chain-happen (updated ns) w = ground arith
chain-happen deleted w = refl

last_chain-cons :
    (v : Event) (vs : List Event) (chain : String)
    → last_chain (v ∷ vs) chain ≡ last_chain vs (last_chain (v ∷ []) chain)
last_chain-cons (connecting true answer) vs chain = refl
last_chain-cons (connecting false answer) vs chain = refl
last_chain-cons (disconnecting answer) vs chain = refl
last_chain-cons (updated ns) vs chain = refl
last_chain-cons deleted vs chain = refl

chain-happen_all :
    (vs : List Event) (w : WalletConnect) → (happen_all vs w).chain ≡ last_chain vs w.chain
chain-happen_all [] w = refl
chain-happen_all (v ∷ vs) w =
    chain-happen_all vs (happen v w)
    ∙ ap (last_chain vs) (chain-happen v w)
    ∙ sym (last_chain-cons v vs w.chain)

-- The request carries the session's topic, its own method, the chain and the parameters, and there is
-- an account to answer it.
abbrev pub IsCarried :
    {P : Type 0} → String → (chain : String) → P → WalletConnect → Request P → Type 0
IsCarried method chain params w sent =
    (truthy w.topic ≡ some sent.topic)
    × (truthy w.connected_account ≢ none)
    × (sent.method ≡ method)
    × (sent.chain ≡ chain)
    × (sent.params ≡ params)

module _ {P J A : Type 0} (decode : J → Result Thrown A) (params : P)
    (client : Request P → Result Thrown J) where
  sent_iff :
      (w : WalletConnect) (sent : Request P)
      → (((request_verifiable_presentation decode params client w).0 ≡ some sent)
          ↔ IsCarried "request_verifiable_presentation" w.chain params w sent)
        × (((request_verifiable_presentation_v1 decode params client w).0 ≡ some sent)
            ↔ IsCarried "request_verifiable_presentation_v1" w.chain params w sent)
  unfolding request_verifiable_presentation request_verifiable_presentation_v1
  sent_iff w sent = ((ground arith, ground arith), (ground arith, ground arith))

  -- In every session from the start, both kinds of request are sent exactly when there is a session
  -- topic and an account, neither empty, and they carry that topic, their own method, the chain of
  -- the last `connect` (testnet's before the first), and the parameters.
  pub request_sent_iff :
      (vs : List Event) (sent : Request P)
      → let w = happen_all vs disconnected in
        let chain = last_chain vs "ccd:4221332d34e1694168c2a0c0b3fd0f27" in
        (((request_verifiable_presentation decode params client w).0 ≡ some sent)
          ↔ IsCarried "request_verifiable_presentation" chain params w sent)
        × (((request_verifiable_presentation_v1 decode params client w).0 ≡ some sent)
            ↔ IsCarried "request_verifiable_presentation_v1" chain params w sent)
  request_sent_iff vs sent =
      rw (sym (chain-happen_all vs disconnected)) (sent_iff (happen_all vs disconnected) sent)

  -- No request fails with an error that carries a wallet's code: such an error becomes "Proof request
  -- rejected in wallet".
  pub request_hides_codes :
      (w : WalletConnect) (message : String)
      → ((request_verifiable_presentation decode params client w).1
          ≢ err (error_object true message))
        × ((request_verifiable_presentation_v1 decode params client w).1
            ≢ err (error_object true message))
  unfolding request_verifiable_presentation request_verifiable_presentation_v1 rethrow
  request_hides_codes w message = (ground arith, ground arith)

-- An event that does not complete a new session.
abbrev pub IsIdle : Event → Type 0
IsIdle (connecting use_old (ok pairing)) = (s : Session) → pairing.approval ≢ ok s
IsIdle _ = Unit

happen_idle :
    (v : Event) (w : WalletConnect) → IsIdle v → w.topic ≡ none → (happen v w).topic ≡ none
unfolding happen
happen_idle (connecting use_old (ok pairing)) w idle h = elim (Result-cases pairing.approval) [
  | inl (s, approved) ↦ absurd (idle s approved)
  | inr (e, rejected) ↦ ground arith
]
happen_idle (connecting use_old (err e)) w idle h = h
happen_idle (disconnecting answer) w idle h = ground arith
happen_idle (updated ns) w idle h = ground arith
happen_idle deleted w idle h = refl

refused_without_topic :
    {P J A : Type 0} (decode : J → Result Thrown A) (params : P)
    (client : Request P → Result Thrown J) (vs : List Event) (w : WalletConnect)
    → All IsIdle vs
    → w.topic ≡ none
    → (request_verifiable_presentation decode params client (happen_all vs w)
        ≡ (none, err (error "No connection")))
      × (request_verifiable_presentation_v1 decode params client (happen_all vs w)
          ≡ (none, err (error "No connection")))
unfolding request_verifiable_presentation request_verifiable_presentation_v1
refused_without_topic decode params client [] w idle h = ground arith
refused_without_topic decode params client (v ∷ vs) w idle h =
    refused_without_topic decode params client vs (happen v w) idle.1 (happen_idle v w idle.0 h)

-- The events that end a session: the page disconnects and the client agrees, or the wallet deletes
-- the session.
abbrev pub IsEnd : Event → Type 0
IsEnd (disconnecting (ok done)) = Unit
IsEnd deleted = Unit
IsEnd _ = ⊥

topic-IsEnd : (v : Event) (w : WalletConnect) → IsEnd v → (happen v w).topic ≡ none
unfolding happen disconnect session_delete
topic-IsEnd (connecting use_old answer) w h = absurd h
topic-IsEnd (disconnecting (ok done)) w h = ground arith
topic-IsEnd (disconnecting (err e)) w h = absurd h
topic-IsEnd (updated ns) w h = absurd h
topic-IsEnd deleted w h = refl

-- Once a session has ended, by a `disconnect` that goes through or by the wallet, and until another
-- one is completed, no request is sent: each fails with "No connection", whatever else happens before
-- and in between.
pub no_request_when_closed :
    {P J A : Type 0} (decode : J → Result Thrown A) (params : P)
    (client : Request P → Result Thrown J) (us vs : List Event) (end : Event)
    → IsEnd end
    → All IsIdle vs
    → let w = happen_all vs (happen end (happen_all us disconnected)) in
      (request_verifiable_presentation decode params client w ≡ (none, err (error "No connection")))
      × (request_verifiable_presentation_v1 decode params client w
          ≡ (none, err (error "No connection")))
no_request_when_closed decode params client us vs end ended idle =
    let w = happen_all us disconnected in
    refused_without_topic decode params client vs (happen end w) idle (topic-IsEnd end w ended)

-- `disconnect` that goes through and `session_delete` end the session: topic and account are gone,
-- and an `accountChanged` event with no account is emitted.
pub session_ends :
    (w : WalletConnect) {t : String}
    → w.topic ≡ some t
    → (happen (disconnecting (ok tt)) w ≡ happen deleted w)
      × ((happen deleted w).topic ≡ none)
      × ((happen deleted w).connected_account ≡ none)
      × ((happen deleted w).emitted ≡ none ∷ w.emitted)
unfolding happen
session_ends w live = ground arith

-- A second pairing that the wallet rejects keeps the old session but not its chain: the next request
-- goes to the old topic with the chain of the rejected pairing, and the QR code stays on display.
pub rejected_pairing_changes_chain :
    {P J A : Type 0} (decode : J → Result Thrown A) (params : P)
    (client : Request P → Result Thrown J) (use_old : Bool) (uri : String) (e : Thrown)
    (w : WalletConnect) {t a : String}
    → truthy w.topic ≡ some t
    → truthy w.connected_account ≡ some a
    → is_blank uri ≡ false
    → let w' = happen (connecting use_old (ok (record { uri = some uri; approval = err e }))) w in
      ((request_verifiable_presentation_v1 decode params client w').0
        ≡ some (record {
          topic = t;
          method = method_v1;
          chain = if use_old then chain_id_old else chain_id;
          params = params;
        }))
      × (w'.qr_open ≡ true)
unfolding happen request_verifiable_presentation_v1
rejected_pairing_changes_chain decode params client use_old uri e w ht ha hu = ground arith
