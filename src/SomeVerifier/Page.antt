-- ===== src/SomeVerifier/Page.antt =====
-- The page examples/some-verifier/frontend/src/components/Verify.tsx: its options and steps.
pub mod Prove
pub mod Session
pub mod Verified
pub mod View
pub mod Consent
use concordium_web3id.Common.{
  ℕ, ◌+◌, String, Bool, true, false, not, Option, none, some, List, [], ◌∷◌, ◌++◌, Result, ok, err,
  ltb, ◌&&◌, if◌then◌else◌, ◌>>=◌,
}
use concordium_web3id.SomeVerifier.Proofs.{Issuer}

pub data VerificationStep : Type 0 where
  issue_step verify_step check_step : VerificationStep

pub record Page : Type 0 where
  pub telegram_issued : Bool
  pub discord_issued : Bool
  pub telegram_checked : Bool
  pub discord_checked : Bool
  pub full_name_checked : Bool
  pub open_step : Option VerificationStep
  pub proof_error : String
  pub show_privacy_notice : Bool

unfoldable pub initial : Page
initial = record {
  telegram_issued = false;
  discord_issued = false;
  telegram_checked = false;
  discord_checked = false;
  full_name_checked = false;
  open_step = some verify_step;
  proof_error = "";
  show_privacy_notice = false;
}

abbrev pub count : Bool → ℕ
count false = 0
count true = 1

-- `checkedCount`
abbrev pub checked_count : Page → ℕ
checked_count p = count p.telegram_checked + count p.discord_checked + count p.full_name_checked

abbrev pub with_error : String → Page → Page
with_error message p = record {
  telegram_issued = p.telegram_issued;
  discord_issued = p.discord_issued;
  telegram_checked = p.telegram_checked;
  discord_checked = p.discord_checked;
  full_name_checked = p.full_name_checked;
  open_step = p.open_step;
  proof_error = message;
  show_privacy_notice = p.show_privacy_notice;
}

abbrev pub with_open : Option VerificationStep → Page → Page
with_open step p = record {
  telegram_issued = p.telegram_issued;
  discord_issued = p.discord_issued;
  telegram_checked = p.telegram_checked;
  discord_checked = p.discord_checked;
  full_name_checked = p.full_name_checked;
  open_step = step;
  proof_error = p.proof_error;
  show_privacy_notice = p.show_privacy_notice;
}

abbrev pub same : Bool → Bool → Bool
same true b = b
same false b = not b

-- The page with the three options set.
abbrev pub with_checked : (telegram discord full_name : Bool) → Page → Page
with_checked t d f p = record {
  telegram_issued = p.telegram_issued;
  discord_issued = p.discord_issued;
  telegram_checked = t;
  discord_checked = d;
  full_name_checked = f;
  open_step = p.open_step;
  proof_error = p.proof_error;
  show_privacy_notice = p.show_privacy_notice;
}

-- The memo that counts the options runs again if one has changed, and clears the error if two are
-- set.
abbrev pub recount : (unchanged : Bool) → Page → Page
recount true p = p
recount false p = with_error (if ltb (checked_count p) 2 then p.proof_error else "") p

unfoldable pub set_checked : (telegram discord full_name : Bool) → Page → Page
set_checked t d f p =
    recount (same t p.telegram_checked && same d p.discord_checked && same f p.full_name_checked)
      (with_checked t d f p)

-- The switches.
unfoldable pub change_telegram : Page → Page
change_telegram p = set_checked (not p.telegram_checked) p.discord_checked p.full_name_checked p

unfoldable pub change_discord : Page → Page
change_discord p = set_checked p.telegram_checked (not p.discord_checked) p.full_name_checked p

unfoldable pub change_full_name : Page → Page
change_full_name p = set_checked p.telegram_checked p.discord_checked (not p.full_name_checked) p

abbrev pub with_issued : (telegram discord : Bool) → Page → Page
with_issued t d p = record {
  telegram_issued = t;
  discord_issued = d;
  telegram_checked = p.telegram_checked;
  discord_checked = p.discord_checked;
  full_name_checked = p.full_name_checked;
  open_step = p.open_step;
  proof_error = p.proof_error;
  show_privacy_notice = p.show_privacy_notice;
}

-- `issueTelegram` and `issueDiscord`
unfoldable pub issue_telegram : Page → Page
issue_telegram p =
    with_issued true p.discord_issued (set_checked true p.discord_checked p.full_name_checked p)

unfoldable pub issue_discord : Page → Page
issue_discord p =
    with_issued p.telegram_issued true (set_checked p.telegram_checked true p.full_name_checked p)

abbrev pub too_few : String
too_few = "Please select at least two options."

unfoldable pub toggle_privacy_notice : Page → Page
toggle_privacy_notice p = record {
  telegram_issued = p.telegram_issued;
  discord_issued = p.discord_issued;
  telegram_checked = p.telegram_checked;
  discord_checked = p.discord_checked;
  full_name_checked = p.full_name_checked;
  open_step = p.open_step;
  proof_error = p.proof_error;
  show_privacy_notice = not p.show_privacy_notice;
}

unfoldable pub submit_handler : Page → Page
submit_handler p = if ltb (checked_count p) 2 then with_error too_few p else toggle_privacy_notice p

abbrev pub same_step : VerificationStep → VerificationStep → Bool
same_step issue_step issue_step = true
same_step verify_step verify_step = true
same_step check_step check_step = true
same_step _ _ = false

-- The step that is open after the step `id` was toggled.
abbrev pub toggled : VerificationStep → Option VerificationStep → Option VerificationStep
toggled id none = some id
toggled id (some step) = if same_step step id then none else some id

unfoldable pub toggle : VerificationStep → Page → Page
toggle id p = with_open (toggled id p.open_step) p

-- The issuers whose credentials a proof is asked of.
unfoldable pub issuers_of : (telegram discord : Issuer) → Page → List Issuer
issuers_of telegram discord p =
    (if p.telegram_checked then telegram ∷ [] else [])
    ++ (if p.discord_checked then discord ∷ [] else [])
