-- ===== src/SomeVerifier/Logins/Session.antt =====
-- What the example verifier's logins rest on.
use concordium_web3id.Common.{
  ◌≡◌, ◌↔◌, String, true, false, Option, none, some, List, Result, ok, refl, arith, eq_iff,
  if◌then◌else◌,
}
use Prim.Native.String.{◌++◌ as str_append}
use concordium_web3id.SomeIssuer.Issuance.{
  Request, Wallet, IssueRequest, Response, NodeAnswer, Run, wait, returned, Ending, thrown, waiting,
  discord,
}
use concordium_web3id.SomeIssuer.Discord.{success, same_state}
use concordium_web3id.SomeIssuer.Issuance.Outcome.{IsIssued, request_credential_returned_iff}
use concordium_web3id.SomeVerifier.Proofs.{Issuer}
use concordium_web3id.SomeVerifier.Page.{Page, issue_telegram}
use concordium_web3id.SomeVerifier.Logins.{
  Logins, site_of, request_credential, telegram_login, is_returned, on_discord_window_message,
  Message,
}

marked :
    (e : Ending) (p : Page)
    → p.telegram_issued ≡ false
    → ((if is_returned e then issue_telegram p else p).telegram_issued ≡ true) ↔ (e ≡ returned)
unfolding issue_telegram
marked returned p fresh = (λ h. refl, λ h. refl)
marked (thrown m) p fresh = (λ h. cc, λ h. cc)
marked waiting p fresh = (λ h. cc, λ h. cc)

telegram_login_returned :
    (r : Run) (l : Logins)
    → l.page.telegram_issued ≡ false
    → ((telegram_login r l).page.telegram_issued ≡ true) ↔ (r.ending ≡ returned)
unfolding telegram_login
telegram_login_returned r l fresh = marked r.ending l.page fresh

-- A login by Telegram marks its credential as issued exactly when a connected wallet took the
-- credential, the platform's issuer issued it in a transaction, the wallet accepted the proof, and
-- the node found that transaction finalized.
pub telegram_login_iff :
    {T P : Type 0} (network : String) (i : Issuer) (now later : String) (req : Request T)
    (server : IssueRequest T → Response P) (connected : Result String (Wallet P))
    (node : String → List NodeAnswer) (l : Logins)
    → l.page.telegram_issued ≡ false
    → ((telegram_login
          (request_credential network i now later req connected server node)
          l).page.telegram_issued
        ≡ true)
      ↔ ((wallet : Wallet P) × (tx_hash : String) × (connected ≡ ok wallet)
          × IsIssued (site_of network i) now later req server wallet tx_hash
          × ((wait (node tx_hash)).0 ≡ returned))
unfolding request_credential
telegram_login_iff network i now later req server connected node l fresh =
    let run = request_credential network i now later req connected server node in
    let (there, back) = telegram_login_returned run l fresh in
    let (facts, again) =
      request_credential_returned_iff (site_of network i) now later req server connected node in
    (λ h. facts (there h), λ h. back (again h))

same_state_iff : (s t : Option String) → (same_state s t ≡ true) ↔ (s ≡ t)
same_state_iff none none = (λ h. refl, λ h. refl)
same_state_iff none (some t) = (λ h. cc, λ h. cc)
same_state_iff (some s) none = (λ h. cc, λ h. cc)
same_state_iff (some s) (some t) = grind (arith, eq_iff s t)

-- A message requests a credential exactly when it comes from the issuer's origin, tells of a success,
-- and its state is the one that the last login was given, or lacks as that does.
pub on_discord_window_message_iff :
    {T : Type 0} (url : String) (oauth2_state : Option String) (m : Message) (id name : String)
    → (on_discord_window_message {T = T} url oauth2_state m ≡ ok (some (discord id name)))
      ↔ ((str_append m.origin "/" ≡ url) × (m.content ≡ success id name) × (m.state ≡ oauth2_state))
unfolding on_discord_window_message
on_discord_window_message_iff url oauth2_state m id name =
    grind (arith, eq_iff (str_append m.origin "/") url, same_state_iff m.state oauth2_state)
