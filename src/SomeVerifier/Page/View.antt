-- ===== src/SomeVerifier/Page/View.antt =====
-- The page that examples/some-verifier/frontend/src/components/Verify.tsx draws, and what a click on
-- it does. Only the open step of the accordion shows its body, and the privacy notice is a modal, so
-- nothing else can be clicked while it is open. The logins (Issuer.tsx), the removal of a
-- verification and the links in the footer are left out; `network` is the configuration's.
use Prim.Native.String.{◌++◌ as str_append}
use concordium_web3id.Common.{
  String, Bool, false, not, Option, none, some, List, [], ◌∷◌, ◌++◌, is_blank, if◌then◌else◌,
}
use concordium_web3id.Common.View.{Node, text, link, switch, alert, button, when}
use concordium_web3id.SomeVerifier.Page.{
  VerificationStep, issue_step, verify_step, check_step, Page, with_open, same_step,
  change_telegram, change_discord, change_full_name, submit_handler, toggle_privacy_notice, toggle,
}
use concordium_web3id.SomeVerifier.Page.Prove.{pressed}

pub data Button : Type 0 where
  header : VerificationStep → Button
  continue go_to_issue : Button
  telegram_option discord_option full_name_option : Button
  verify : Button
  understood cancel close_notice : Button

abbrev pub Nodes : Type 0
Nodes = List (Node ⊥ Button)

-- `stepTitleMap`
abbrev pub step_title : VerificationStep → String
step_title issue_step = "Issue credentials"
step_title verify_step = "Verification"
step_title check_step = "Check verification"

abbrev pub is_open : VerificationStep → Option VerificationStep → Bool
is_open step none = false
is_open step (some opened) = same_step opened step

-- `Step`: its header, and its text and children if it is open.
abbrev pub step_nodes : VerificationStep → Option VerificationStep → Nodes → Nodes
step_nodes step opened children =
    button (step_title step) (header step) ∷ when (is_open step opened) children

-- `PlatformOption`
abbrev pub platform_option : (label : String) → (checked : Bool) → Button → Nodes
platform_option label checked b = switch checked b ∷ text label ∷ []

abbrev pub issue_body : Nodes
issue_body =
    text
      "To verify with Concordia, you need verifiable credentials for the corresponding social media platforms in your Concordium Wallet for Web."
    ∷ text "If you already have the credentials in your wallet, you can skip this step."
    ∷ text "To add credentials to your wallet, please log in to the platforms below."
    ∷ button "Continue" continue
    ∷ []

unfoldable pub verify_body : (network : String) → Page → Nodes
verify_body network p =
    text
        "Select the platforms you want to verify, essentially proving ownership of the accounts referenced by the credentials in your wallet. Additionally, you can also choose to reveal your full name from an identity in your wallet."
      ∷ text "If these credentials do not exists in you wallet yet, go to the"
      ∷ button (step_title issue_step) go_to_issue
      ∷ text "step to add these"
      ∷ text "You must select at least 2 options."
      ∷ platform_option "Telegram" p.telegram_checked telegram_option
    ++ platform_option "Discord" p.discord_checked discord_option
    ++ platform_option
        (str_append "Full name - Requires Concordium " (str_append network " identity and account"))
        p.full_name_checked full_name_option
    ++ when (not (is_blank p.proof_error)) (alert p.proof_error ∷ [])
    ++ button "Verify" verify ∷ []

-- The invitations to the platforms are the configuration's.
abbrev pub check_body : (telegram_invite discord_invite : String) → Nodes
check_body telegram_invite discord_invite =
    text
      "To check that the verification is completed successfully, you can perform a /check on your own user by interacting with the bot on either platform."
    ∷ link "Telegram" telegram_invite
    ∷ link "Discord" discord_invite
    ∷ []

-- The accordion.
unfoldable pub steps : (network telegram_invite discord_invite : String) → Page → Nodes
unfolding verify_body
steps network telegram_invite discord_invite p =
    step_nodes issue_step p.open_step issue_body
    ++ step_nodes verify_step p.open_step (verify_body network p)
    ++ step_nodes check_step p.open_step (check_body telegram_invite discord_invite)

-- The privacy notice.
abbrev pub privacy_notice : Nodes
privacy_notice =
    text "IMPORTANT PRIVACY NOTICE"
    ∷ button "" close_notice
    ∷ text
        "Please observe that if you select the \"Full name - requires Concordium mainnet identity and account\" option, your personal full name on Discord and/or Telegram will be exposed, depending on what social media options you choose."
    ∷ text
        "If you only select the Telegram and Discord options, then only your username from the platform that is used for verification will be exposed on the platform you are verifying. For example, if you are using your Discord profile to verify your Telegram account, your Discord username will be displayed in your Telegram channel upon verification."
    ∷ text
        "The selected information may thus be visible to any person that have access to the communication channel that you use to post messages, including persons that may not be known to you."
    ∷ text
        "Please observe that once your full name or user name has been displayed on the relevant social media platform, the name will remain there permanently. You will not be able to remove this information again."
    ∷ text
        "You may however at any time change your selection of options and in that way disable any future request to show your full name or user ID. But your name or user name will not be deleted from previous communication in the relevant channel / social media platform."
    ∷ button "I understand" understood
    ∷ button "Cancel" cancel
    ∷ []

-- What can be clicked.
unfoldable pub clickable : (network telegram_invite discord_invite : String) → Page → Nodes
unfolding steps
clickable network telegram_invite discord_invite p =
    if p.show_privacy_notice then privacy_notice else steps network telegram_invite discord_invite p

-- `setShowPrivacyNotice(false)`
abbrev pub hide_notice : Page → Page
hide_notice p = record p { show_privacy_notice = false }

-- What a click does at once; "I understand" goes on with `prove`.
unfoldable pub click : Button → Page → Page
unfolding pressed change_telegram change_discord change_full_name submit_handler
    toggle_privacy_notice toggle
click (header step) p = toggle step p
click continue p = with_open (some verify_step) p
click go_to_issue p = with_open (some issue_step) p
click telegram_option p = change_telegram p
click discord_option p = change_discord p
click full_name_option p = change_full_name p
click verify p = submit_handler p
click understood p = pressed (hide_notice p)
click cancel p = hide_notice p
click close_notice p = toggle_privacy_notice p
