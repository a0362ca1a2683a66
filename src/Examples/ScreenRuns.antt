-- ===== src/Examples/ScreenRuns.antt =====
-- Tests of what the test tool and the example verifier draw.
use mathlib.Core.List.{Memᴰ}
use concordium_web3id.Common.{
  not, is_blank, ◌&&◌, ◌≡◌, ◌≢◌, refl, String, true, false, none, some, [], ◌∷◌, ◌++◌, ok, map,
  if◌then◌else◌,
}
use concordium_web3id.Common.View.{buttons, inputs, when}
use concordium_web3id.SomeVerifier.Proofs.{Issuer}
use concordium_web3id.SomeVerifier.Page
use concordium_web3id.SomeVerifier.Page.{Page, initial, verify_step}
use concordium_web3id.SomeVerifier.Page.Prove.{prove, accepted}
use concordium_web3id.SomeVerifier.Page.View.{verify, understood, hide_notice, click, clickable}
use concordium_web3id.SomeVerifier.Page.Consent.{
  IsReachable, start, next, clicked, telegram_done, discord_done, understood_proves,
}
use concordium_web3id.TestTool.Fields
use concordium_web3id.TestTool.Fields.{Fields, reason}
use concordium_web3id.TestTool.Register
use concordium_web3id.TestTool.View
use concordium_web3id.TestTool.View.{Screen, Connector, select_connector, connect, field}
use concordium_web3id.TestTool.View.Whole.{main}
use concordium_web3id.TestTool.View.Offers.{all_buttons, connecting_buttons, offered_lem}
use concordium_web3id.TestTool.View.Typing.{typed, has_handler, typed_lem}

abbrev connector : Connector
connector = record {
  error = "";
  has_type = true;
  has_connector = true;
  connect_error = "";
  is_browser_wallet = true;
  is_connecting = false;
  is_disabled = false;
}

-- The page of a connected account; its keys and its states are texts.
abbrev screen : Screen String String
screen = record {
  connector = connector;
  connected = true;
  account = "4UC8";
  fields = Fields.initial "issuer" "credential" "schema";
  keys = none;
  form = record { revocation_keys = "12" ∷ []; revocation_key_input = "34"; user_input_error = "" };
  contract = record {
    index = some (record { number = "3"; address = ok 3 });
    smart_contract_state = none;
    view_error = "";
    schema_from_contract = none;
    type_from_contract = none;
    manual_schema = none;
    manual_type = none;
    attribute_schema =
        record { tag = "degree"; type = "string"; value = none; required = true } ∷ [];
    fetching_error = "";
  };
  shown = Register.cleared;
  entry = record { state = none; error = "No entry" };
  balance = record { balance = "12000000"; public_key = "ab"; view_error = "" };
}

abbrev draw : Screen String String → View.Nodes
draw s = main (λ n. "3") (λ k. k) (λ e. e) (λ m. "metadata") s

offered_lem_example :
    buttons (draw screen)
    ≡ connecting_buttons connector.is_disabled true connector.has_type connector.has_connector
      ++ when (not (is_blank "4UC8") && true) all_buttons
offered_lem_example = offered_lem (λ n. "3") (λ k. k) (λ e. e) (λ m. "metadata") screen

typed_lem_example :
    inputs (draw (typed (field reason) "Lost" screen))
    ≡ map
        (λ e. (if has_handler (field reason) e.1 then "Lost" else e.0, e.1))
        (inputs (draw screen))
typed_lem_example =
    typed_lem (λ n. "3") (λ k. k) (λ e. e) (λ m. "metadata") (field reason) "Lost" screen

-- The logins end, "Verify" is clicked, and the notice opens.
abbrev noticed : Page
noticed = click verify (Page.issue_discord (Page.issue_telegram initial))

reaches_notice : IsReachable "testnet" "t.me" "discord.gg" noticed
unfolding initial clickable click Page.issue_discord Page.issue_telegram Page.set_checked
reaches_notice = next (next (next start telegram_done) discord_done) (
    clicked verify
      (Memᴰ.tail (Memᴰ.tail (Memᴰ.tail (Memᴰ.tail (Memᴰ.tail (Memᴰ.tail (Memᴰ.head refl))))))))

notice_asks : Memᴰ understood (buttons (clickable "testnet" "t.me" "discord.gg" noticed))
unfolding initial clickable click Page.issue_discord Page.issue_telegram Page.set_checked
notice_asks = Memᴰ.tail (Memᴰ.head refl)

abbrev issuer : Issuer
issuer = record { index = "1"; subindex = "0"; url = "https://issuer" }

understood_proves_example :
    (noticed.show_privacy_notice ≡ true)
    × (click understood noticed ≡ hide_notice noticed)
    × (prove {Address = String} {Thrown = String} {S = String} {P = String} {Api = String}
          (λ i s. ok i)
          (λ cs. "statements")
          (λ api h s. ok "proof")
          (λ t. "hash")
          (λ p t. accepted)
          issuer
          issuer
          (hide_notice noticed)
          (ok "wallet")
          "12:00"
        ≢ none)
understood_proves_example =
    understood_proves "testnet" "t.me" "discord.gg" (λ i s. ok i) (λ cs. "statements")
      (λ api h s. ok "proof") (λ t. "hash") (λ p t. accepted) issuer issuer (ok "wallet") "12:00"
      reaches_notice notice_asks
