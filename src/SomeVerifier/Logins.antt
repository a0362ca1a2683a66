-- ===== src/SomeVerifier/Logins.antt =====
-- The logins of examples/some-verifier/frontend/src/components/Issuer.tsx. Its `requestCredential` is
-- the example issuer's, for the issuer of the platform instead of the page's own address.
pub mod Session
use Prim.Native.String.{◌++◌ as str_append}
use concordium_web3id.Common.{
  String, Bool, true, false, not, Option, none, some, List, [], ◌∷◌, Result, ok, err, str_eq,
  if◌then◌else◌, ◌>>=◌,
}
use concordium_web3id.SomeIssuer.Issuance.{
  Site, Request, telegram, discord, Wallet, IssueRequest, Response, NodeAnswer, Run, Notice,
  on_submit, on_finalized, Ending, returned, thrown, waiting,
}
use concordium_web3id.SomeIssuer.Issuance as Issuance
use concordium_web3id.SomeIssuer.Discord.{Data, success, error, same_state}
use concordium_web3id.SomeVerifier.Proofs.{Issuer}
use concordium_web3id.SomeVerifier.Page.{Page, issue_telegram, issue_discord}

-- `getContractDid` is the issuer's contract in its network.
abbrev pub site_of : (network : String) → Issuer → Site
site_of network i = record {
  url = i.url;
  network = network;
  index = i.index;
  subindex = i.subindex;
}

unfoldable pub request_credential :
    {T P : Type 0}
    → (network : String) → Issuer
    → (now later : String) → Request T
    → Result String (Wallet P)
    → (server : IssueRequest T → Response P) (node : String → List NodeAnswer) → Run
request_credential network i now later req provider server node =
    Issuance.request_credential (site_of network i) now later req provider server node

-- `event.origin` and `event.data`; a message may have no state.
pub record Message : Type 0 where
  pub origin : String
  pub state : Option String
  pub content : Data

-- `onDiscordWindowMessage` up to the request: none for a message that is ignored, or the message of
-- the error.
unfoldable pub on_discord_window_message :
    {T : Type 0}
    → (issuer_url : String) → (oauth2_state : Option String) → Message
    → Result String (Option (Request T))
on_discord_window_message issuer_url oauth2_state m =
    if str_eq (str_append m.origin "/") issuer_url
    then elim m.content [
      | error e ↦ ok none
      | success id name ↦
          if same_state m.state oauth2_state
          then ok (some (discord id name))
          else err "State parameter did not match."
    ]
    else ok none

-- The page with what the logins show.
pub record Logins : Type 0 where
  pub page : Page
  pub telegram_pending : Bool
  pub discord_pending : Bool

-- Whether `setPending` was called: as the transaction is submitted.
abbrev pub was_submitted : List Notice → Bool
was_submitted [] = false
was_submitted (on_submit h ∷ ns) = true
was_submitted (on_finalized ∷ ns) = was_submitted ns

abbrev pub or_submitted : Bool → Run → Bool
or_submitted pending r = if pending then true else was_submitted r.notices

abbrev pub is_returned : Ending → Bool
is_returned returned = true
is_returned (thrown m) = false
is_returned waiting = false

-- The end of `onTelegramAuth`: an error is shown in an alert.
unfoldable pub telegram_login : Run → Logins → Logins
telegram_login r l = record {
  page = if is_returned r.ending then issue_telegram l.page else l.page;
  telegram_pending = or_submitted l.telegram_pending r;
  discord_pending = l.discord_pending;
}

-- The end of `onDiscordWindowMessage`.
unfoldable pub discord_login : Run → Logins → Logins
discord_login r l = record {
  page = if is_returned r.ending then issue_discord l.page else l.page;
  telegram_pending = l.telegram_pending;
  discord_pending = or_submitted l.discord_pending r;
}
