-- ===== src/SomeIssuer/Discord/Session.antt =====
-- The messages that make the example issuer's page request a credential, over whole sessions.
use concordium_web3id.Common.{
  ℕ, ◌≡◌, String, Bool, true, false, Option, none, some, List, [], ◌∷◌, All, refl, arith, eq_iff,
}
use Prim.Native.String.{◌++◌ as str_append}
use concordium_web3id.SomeIssuer.Issuance.{Request}
use concordium_web3id.SomeIssuer.Discord.{
  Login, Message, open_discord_verification, on_discord_window_message, same_state, from_window,
}

-- The user logs in, or a window sends a message.
pub data Event : Type 0 where
  opened : (state : String) (window : Option ℕ) → Event
  received : Message → Event

unfoldable pub react : Event → Login → Login
react (opened state window) l = open_discord_verification state window l
react (received m) l = l

-- A message kept if it had an effect.
abbrev pub keep : {A : Type 0} → Option A → Message → List Message → List Message
keep none m later = later
keep (some a) m later = m ∷ later

-- The messages that make the page request a credential, in order.
unfoldable pub accepted : (issuer_url : String) → List Event → Login → List Message
accepted url [] l = []
accepted url (opened state window ∷ vs) l = accepted url vs (react (opened state window) l)
accepted url (received m ∷ vs) l =
    keep (on_discord_window_message {T = Unit {0}} url m l) m (accepted url vs l)

-- The logins of a session, by state and window.
abbrev pub logins : List Event → List (String × Option ℕ)
logins [] = []
logins (opened state window ∷ vs) = (state, window) ∷ logins vs
logins (received m ∷ vs) = logins vs

-- Whether a message is the answer to one of the logins, in its window and with its state.
abbrev pub answers : Message → List (String × Option ℕ) → Bool
answers m [] = false
answers m ((state, window) ∷ ls) = elim (from_window window m.source) [
  | true ↦ elim (same_state m.state (some state)) [ true ↦ true | false ↦ answers m ls ]
  | false ↦ answers m ls
]

-- A login is answered by whatever comes from its window with its state.
abbrev pub Covers : List (String × Option ℕ) → String × Option ℕ → Type 0
Covers ls p =
    (m : Message)
    → from_window p.1 m.source ≡ true
    → same_state m.state (some p.0) ≡ true
    → answers m ls ≡ true

cons-Covers :
    (q : String × Option ℕ) (ls xs : List (String × Option ℕ))
    → All (Covers ls) xs
    → All (Covers (q ∷ ls)) xs
cons-Covers q ls [] h = tt
cons-Covers q ls (p ∷ xs) h = (λ m w s. ground (arith, h.0 m w s), cons-Covers q ls xs h.1)

head-Covers : (p : String × Option ℕ) (ls : List (String × Option ℕ)) → Covers (p ∷ ls) p
head-Covers p ls m w s = ground arith

self-Covers : (ls : List (String × Option ℕ)) → All (Covers ls) ls
self-Covers [] = tt
self-Covers (p ∷ ls) = (head-Covers p ls, cons-Covers p ls ls (self-Covers ls))

-- What a message was that made the page request a credential.
pub record IsAnswer (url : String) (ls : List (String × Option ℕ)) (m : Message) : Type 0 where
  pub known : answers m ls ≡ true
  pub own_origin : str_append m.origin "/" ≡ url

abbrev pub Known : List (String × Option ℕ) → Login → Type 0
Known ls l =
    (m : Message)
    → from_window l.oauth_window m.source ≡ true
    → same_state m.state l.oauth2_state ≡ true
    → answers m ls ≡ true

on_discord_window_message-IsAnswer :
    (url : String) (ls : List (String × Option ℕ)) (m : Message) (l : Login)
    {r : Request (Unit {0})}
    → Known ls l
    → on_discord_window_message url m l ≡ some r
    → IsAnswer url ls m
unfolding on_discord_window_message
on_discord_window_message-IsAnswer url ls m l known e = record {
  known = known m (ground arith) (ground arith);
  own_origin = grind (arith, eq_iff (str_append m.origin "/") url);
}

All-keep :
    {A : Type 0} (P : Message → Type 0) (o : Option A) (m : Message) (later : List Message)
    → ((a : A) → o ≡ some a → P m)
    → All P later
    → All P (keep o m later)
All-keep P none m later h rest = rest
All-keep P (some a) m later h rest = (h a refl, rest)

accepted-IsAnswer :
    (url : String) (ls : List (String × Option ℕ)) (vs : List Event) (l : Login)
    → Known ls l
    → All (Covers ls) (logins vs)
    → All (IsAnswer url ls) (accepted url vs l)
unfolding accepted react open_discord_verification
accepted-IsAnswer url ls [] l known h = tt
accepted-IsAnswer url ls (opened state window ∷ vs) l known h =
    accepted-IsAnswer url ls vs (record { oauth2_state = some state; oauth_window = window }) h.0
      h.1
accepted-IsAnswer url ls (received m ∷ vs) l known h =
    All-keep (IsAnswer url ls) (on_discord_window_message url m l) m (accepted url vs l)
      (λ r taken. on_discord_window_message-IsAnswer url ls m l known taken)
      (accepted-IsAnswer url ls vs l known h)

-- In every session, each message that makes the page request a credential comes from the issuer's
-- own origin, from the window of a login that the user started in this session, and carries the
-- state that this login was given.
pub accepted_safe :
    (url : String) (vs : List Event)
    → All
        (IsAnswer url (logins vs))
        (accepted url vs (record { oauth2_state = none; oauth_window = none }))
accepted_safe url vs =
    accepted-IsAnswer url (logins vs) vs (record { oauth2_state = none; oauth_window = none })
      (λ m w s. cc) (self-Covers (logins vs))
