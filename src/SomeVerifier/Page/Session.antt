-- ===== src/SomeVerifier/Page/Session.antt =====
-- The example verifier's page over whole sessions.
use concordium_web3id.Common.{
  ne_of_str_eq, ◌<◌, ◌≡◌, ◌≢◌, ◌&&◌, Bool, true, false, List, [], ◌∷◌, ltb, if◌then◌else◌, refl,
  arith,
}
use concordium_web3id.SomeVerifier.Proofs.{ConnectionErrorCode, not_found, rejected}
use concordium_web3id.SomeVerifier.Page.{
  VerificationStep, Page, initial, checked_count, set_checked, same, recount, with_checked,
  with_error, change_telegram, change_discord, change_full_name, issue_telegram, issue_discord,
  submit_handler, toggle_privacy_notice, toggle, too_few,
}
use concordium_web3id.SomeVerifier.Page.Prove.{
  Outcome, verified, pressed, proved, connection_message, no_wallet, creation_failed,
  proof_rejected,
}

-- What the user does, and what comes of the logins and the proofs.
pub data Event : Type 0 where
  telegram_changed discord_changed full_name_changed : Event
  telegram_issued discord_issued : Event
  submitted notice_toggled : Event
  step_toggled : VerificationStep → Event
  proof_pressed : Event
  proof_ended : Outcome → Event

unfoldable pub react : Event → Page → Page
react telegram_changed p = change_telegram p
react discord_changed p = change_discord p
react full_name_changed p = change_full_name p
react telegram_issued p = issue_telegram p
react discord_issued p = issue_discord p
react submitted p = submit_handler p
react notice_toggled p = toggle_privacy_notice p
react (step_toggled step) p = toggle step p
react proof_pressed p = pressed p
react (proof_ended o) p = proved o p

abbrev pub react_all : List Event → Page → Page
react_all [] p = p
react_all (v ∷ vs) p = react_all vs (react v p)

-- The page asks for more options only while fewer than two are set.
abbrev pub IsExplained : Page → Type 0
IsExplained p = p.proof_error ≡ too_few → checked_count p < 2

blank_ne_too_few : "" ≢ too_few
blank_ne_too_few = ne_of_str_eq "" too_few refl

wallet_ne_too_few : (code : ConnectionErrorCode) → connection_message code ≢ too_few
wallet_ne_too_few not_found = ne_of_str_eq "Wallet not found" too_few refl
wallet_ne_too_few rejected = ne_of_str_eq "Wallet connection rejected by user" too_few refl

recount-IsExplained :
    (unchanged : Bool) (p : Page)
    → (unchanged ≡ true → IsExplained p)
    → IsExplained (recount unchanged p)
recount-IsExplained true p h = h refl
recount-IsExplained false p h = ground (arith, blank_ne_too_few)

set_checked-IsExplained :
    (t d f : Bool) (p : Page) → IsExplained p → IsExplained (set_checked t d f p)
unfolding set_checked
set_checked-IsExplained t d f p h =
    recount-IsExplained
      (same t p.telegram_checked && same d p.discord_checked && same f p.full_name_checked)
      (with_checked t d f p) (ground arith)

if-IsExplained :
    (test : Bool) (p q : Page)
    → (test ≡ true → IsExplained p)
    → IsExplained q
    → IsExplained (if test then p else q)
if-IsExplained true p q h k = h refl
if-IsExplained false p q h k = k

few : (p : Page) → ltb (checked_count p) 2 ≡ true → IsExplained (with_error too_few p)
few p h e = ground arith

proved-IsExplained : (o : Outcome) (p : Page) → IsExplained (proved o p)
unfolding proved
proved-IsExplained (no_wallet code) p e = absurd (wallet_ne_too_few code e)
proved-IsExplained creation_failed p e =
    absurd (ne_of_str_eq "Proof creation failed." too_few refl e)
proved-IsExplained proof_rejected p e =
    absurd (ne_of_str_eq "The proof was rejected." too_few refl e)
proved-IsExplained verified p e = absurd (blank_ne_too_few e)

react-IsExplained : (v : Event) (p : Page) → IsExplained p → IsExplained (react v p)
unfolding react change_telegram change_discord change_full_name issue_telegram issue_discord
    submit_handler toggle_privacy_notice toggle pressed
react-IsExplained telegram_changed p h = set_checked-IsExplained _ _ _ p h
react-IsExplained discord_changed p h = set_checked-IsExplained _ _ _ p h
react-IsExplained full_name_changed p h = set_checked-IsExplained _ _ _ p h
react-IsExplained telegram_issued p h = set_checked-IsExplained _ _ _ p h
react-IsExplained discord_issued p h = set_checked-IsExplained _ _ _ p h
react-IsExplained submitted p h =
    if-IsExplained (ltb (checked_count p) 2) (with_error too_few p) (toggle_privacy_notice p)
      (few p) h
react-IsExplained notice_toggled p h = h
react-IsExplained (step_toggled step) p h = h
react-IsExplained proof_pressed p h =
    if-IsExplained (ltb (checked_count p) 2) (with_error too_few p) p (few p) h
react-IsExplained (proof_ended o) p h = proved-IsExplained o p

react_all-IsExplained : (vs : List Event) (p : Page) → IsExplained p → IsExplained (react_all vs p)
react_all-IsExplained [] p h = h
react_all-IsExplained (v ∷ vs) p h = react_all-IsExplained vs (react v p) (react-IsExplained v p h)

-- In every session, the page asks for more options only while fewer than two are set.
pub session_explained :
    (vs : List Event)
    → (react_all vs initial).proof_error ≡ too_few
    → checked_count (react_all vs initial) < 2
unfolding initial
session_explained vs = react_all-IsExplained vs initial (λ e. absurd (blank_ne_too_few e))
