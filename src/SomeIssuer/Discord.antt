-- ===== src/SomeIssuer/Discord.antt =====
-- The logins of examples/some-issuer/frontend/src/discord/App/App.tsx and telegram/App.tsx, up to
-- their calls of `requestCredential`. Windows are numbers; `nanoid` gives the states.
pub mod Session
use concordium_web3id.Common.{
  ℕ, String, Bool, true, false, not, Option, none, some, List, [], ◌∷◌, ◌++◌, Result, ok, err, ◌==◌,
  ◌&&◌, str_eq, is_blank, if◌then◌else◌, throw_if, ◌>>=◌, ◌>>◌,
}
use Prim.Native.String.{◌++◌ as str_append}
use concordium_web3id.SomeIssuer.Issuance.{Request, telegram, discord}

-- `oAuth2State` and `oAuthWindow`
pub record Login : Type 0 where
  pub oauth2_state : Option String
  pub oauth_window : Option ℕ

-- The data of a message but its `state`.
pub data Data : Type 0 where
  success : (user_id username : String) → Data
  error : (error : String) → Data

-- `event.source`, `event.origin` and `event.data`
pub record Message : Type 0 where
  pub source : ℕ
  pub origin : String
  pub state : Option String
  pub content : Data

-- `openDiscordVerification`, with the state that `nanoid` gives and the window that is opened, none
-- if the browser refuses.
unfoldable pub open_discord_verification : (state : String) (window : Option ℕ) → Login → Login
open_discord_verification state window l = record {
  oauth2_state = some state;
  oauth_window = window;
}

abbrev pub same_state : Option String → Option String → Bool
same_state none none = true
same_state (some s) (some t) = str_eq s t
same_state _ _ = false

abbrev pub from_window : Option ℕ → ℕ → Bool
from_window none source = false
from_window (some w) source = w == source

-- `onDiscordWindowMessage`: the request that it makes, if any.
unfoldable pub on_discord_window_message :
    {T : Type 0} → (issuer_url : String) → Message → Login → Option (Request T)
on_discord_window_message issuer_url m l =
    if not (from_window l.oauth_window m.source)
    then none
    else if not (str_eq (str_append m.origin "/") issuer_url)
    then none
    else if not (same_state m.state l.oauth2_state)
    then none
    else elim m.content [ error e ↦ none | success id name ↦ some (discord id name) ]

-- `onTelegramAuth`: the request, or the message that is shown if the user has no name.
unfoldable pub on_telegram_auth :
    {T : Type 0} → (user : T) (id : String) (username : Option String) → Result String (Request T)
on_telegram_auth user id none = err "A telegram username must be available to create a credential."
on_telegram_auth user id (some name) = do
  throw_if (is_blank name) "A telegram username must be available to create a credential."
  ok (telegram user id name)
