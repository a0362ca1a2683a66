-- ===== src/Examples/ViewRuns.antt =====
-- Tests of what the proof explorer draws, and of its forms for accounts.
use concordium_web3id.Common.{
  ℕ, ◌≡◌, ◌⊎◌, ◌≤◌, ◌<◌, ◌+◌, String, true, false, Option, none, some, List, [], ◌∷◌, refl, ok,
  str_eq, if◌then◌else◌, length, ne_of_str_eq, Result, err,
}
use concordium_web3id.Common.Json.{Json}
use concordium_web3id.Explorer.Types.{TopLevelStatement, SignedInt, Kind}
use concordium_web3id.Explorer.Builders.{
  Value, timestamp, AtomicStatement, reveal_attribute, attribute_in_range, trim_left, trim_right,
}
use concordium_web3id.Explorer.Statements.{Explorer, start, add, add_identity_credential_statement}
use concordium_web3id.Explorer.Statements.Session.{
  Event, add_statement, add_top_level, check, load_idps, handle_all,
}
use concordium_web3id.Explorer.AccountForms.{
  call_of, document_issuer_in, attribute_in, membership, non_membership,
}
use concordium_web3id.Explorer.AccountForms.Sets.{IsPlain, call_of-joined}
use concordium_web3id.Explorer.Display.{statement}
use concordium_web3id.Explorer.Display.Banner.{announced_lem}
use concordium_web3id.Explorer.Details.{bytes, kilobytes, megabytes, size_of}
use concordium_web3id.Explorer.Details.Rows.{StatementTypes, render_statement}
use concordium_web3id.Explorer.Details.Sizes.{IsNearest, size_of_lem}
use concordium_web3id.Explorer.Details.Faithful.{
  statement_json, rows_of, AreDistinct, render_statement-built,
}
use concordium_web3id.Explorer.Thrown.{Thrown, error}
use concordium_web3id.Explorer.Browser
use concordium_web3id.Explorer.Wallet.{
  Pairing, Request, connect, get_account, request_verifiable_presentation,
  request_verifiable_presentation_v1,
}
use concordium_web3id.Explorer.Providers
use concordium_web3id.Explorer.Providers.Idle.{is_mobile, idle_mobile_refuses}
use concordium_web3id.Explorer.Submit.{proof_not_ok_result}
use concordium_web3id.Explorer.Submit.Panel
use concordium_web3id.Explorer.Submit.Panel.{details_show_last}

abbrev entry : String → Option ℕ
entry key = if str_eq key "nationality" then some 5 else none

dk-IsPlain : IsPlain "DK"
unfolding trim_left trim_right
dk-IsPlain = record { no_comma = refl; trimmed = refl }

de-IsPlain : IsPlain "DE"
unfolding trim_left trim_right
de-IsPlain = record { no_comma = refl; trimmed = refl }

call_of-joined_example :
    (call_of entry 9 (document_issuer_in "DK, DE") ≡ ok (membership 9 ("DK" ∷ "DE" ∷ [])))
    × (call_of entry 9 (attribute_in "nationality" true "DK, DE")
        ≡ ok (membership 5 ("DK" ∷ "DE" ∷ [])))
    × (call_of entry 9 (attribute_in "nationality" false "DK, DE")
        ≡ ok (non_membership 5 ("DK" ∷ "DE" ∷ [])))
call_of-joined_example =
    call_of-joined entry 9 5 "nationality" "DK" ("DE" ∷ []) (dk-IsPlain, (de-IsPlain, tt)) refl

-- A number's text, for the numbers below.
abbrev show : ℕ → String
show n = "3"

abbrev at_index : SignedInt → Option ℕ
at_index i = some i.magnitude

abbrev events : List (Event (AtomicStatement ℕ))
events =
    load_idps (record { name = "IP 3"; id = 3 } ∷ [])
    ∷ check (3 ∷ [])
    ∷ add_statement Kind.account (reveal_attribute "firstName" ∷ [])
    ∷ add_top_level
    ∷ []

abbrev after_events : Explorer (AtomicStatement ℕ) ℕ
after_events = record start {
  idps = record { name = "IP 3"; id = 3 } ∷ [];
  checked = 3 ∷ [];
  statement =
      TopLevelStatement.account (record { name = "IP 3"; id = 3 } ∷ [])
        (reveal_attribute "firstName" ∷ [])
      ∷ [];
}

events_run : handle_all at_index events start ≡ some after_events
unfolding handle_all add
events_run = refl

abbrev added : Explorer (AtomicStatement ℕ) ℕ
added = add_identity_credential_statement (reveal_attribute "sex" ∷ []) after_events

added_run : add at_index Kind.id (reveal_attribute "sex" ∷ []) after_events ≡ some added
unfolding add
added_run = refl

announced_lem_example :
    let shown = statement show show show after_events.statement true in
    length added.statement ≡ length shown.boxes + 1
unfolding statement
announced_lem_example =
    announced_lem at_index show show show events Kind.id (reveal_attribute "sex" ∷ [])
      (tt, (tt, (tt, (tt, tt)))) events_run added_run

size_of_lem_example :
    ((1536 < 1024) × (size_of 1536 ≡ bytes 1536))
    ⊎ ((t : ℕ) × (1024 ≤ 1536)
        × (1536 < 1048576)
        × (size_of 1536 ≡ kilobytes t)
        × (10 ≤ t)
        × (t ≤ 10240)
        × IsNearest 1024 t 1536)
    ⊎ ((t : ℕ) × (1048576 ≤ 1536)
        × (size_of 1536 ≡ megabytes t)
        × (10 ≤ t)
        × IsNearest 1048576 t 1536)
size_of_lem_example = size_of_lem 1536

-- Half a tenth is rounded upwards, and the last kilobytes are shown as 1024.0 KB.
sizes_run : (size_of 1536 ≡ kilobytes 15) × (size_of 1048575 ≡ kilobytes 10240)
unfolding size_of
sizes_run = (refl, refl)

abbrev types : StatementTypes
types = record {
  reveal_attribute = "RevealAttribute";
  attribute_in_range = "AttributeInRange";
  attribute_in_set = "AttributeInSet";
  attribute_not_in_set = "AttributeNotInSet";
}

types-AreDistinct : AreDistinct types
types-AreDistinct = record {
  reveal_range = ne_of_str_eq _ _ refl;
  reveal_in = ne_of_str_eq _ _ refl;
  range_in = ne_of_str_eq _ _ refl;
  reveal_not_in = ne_of_str_eq _ _ refl;
  range_not_in = ne_of_str_eq _ _ refl;
  in_not_in = ne_of_str_eq _ _ refl;
}

abbrev date : Json → String
date x = "1/1/2024"

abbrev stringify : Json → Option String
stringify x = some "{}"

abbrev range : AtomicStatement ℕ
range = attribute_in_range "validUntil" (timestamp "2024-01-01T00:00:00Z") (Value.number 3)

render_statement-built_example :
    render_statement date stringify types (some (statement_json show types range))
    ≡ some (rows_of show date range)
render_statement-built_example =
    render_statement-built show date stringify types range types-AreDistinct
      ((λ e. ne_of_str_eq "2024-01-01T00:00:00Z" "" refl e), tt)

-- A mobile wallet is connected, and then the Browser Wallet.
abbrev pairing : Pairing
pairing = record {
  uri = some "wc:1";
  approval = ok (record { namespaces = ("ccd", "ccd:testnet:4UC8" ∷ []) ∷ []; topic = "t" });
}

abbrev wallet_events : List Providers.Event
wallet_events =
    Providers.Event.mobile_clicked false (ok pairing) (ok tt)
    ∷ Providers.Event.browser_clicked (ok ("3kBx" ∷ [])) (ok tt)
    ∷ []

browser_used : is_mobile (Providers.react_all wallet_events Providers.initial).provider ≡ false
unfolding Providers.react Providers.set_provider Providers.cleanup connect get_account
    Browser.connect
browser_used = refl

abbrev answers : Request ℕ → Result Thrown ℕ
answers r = ok 1

idle_mobile_refuses_example :
    let w = (Providers.react_all wallet_events Providers.initial).wallet_connect in
    (request_verifiable_presentation {A = ℕ} (λ n. ok n) 7 answers w
      ≡ (none, err (error "No connection")))
    × (request_verifiable_presentation_v1 {A = ℕ} (λ n. ok n) 7 answers w
        ≡ (none, err (error "No connection")))
idle_mobile_refuses_example =
    idle_mobile_refuses (λ n. ok n) 7 answers wallet_events (refl, (refl, tt)) browser_used

abbrev panel_events : List (Panel.Event ℕ)
panel_events =
    Panel.Event.accepted 4
    ∷ Panel.Event.accepted 5
    ∷ Panel.Event.failed proof_not_ok_result
    ∷ Panel.Event.clear_clicked
    ∷ []

details_show_last_example :
    Panel.dialog
      (Panel.react Panel.Event.details_clicked (Panel.react_all panel_events Panel.initial))
    ≡ some 5
details_show_last_example = details_show_last panel_events
