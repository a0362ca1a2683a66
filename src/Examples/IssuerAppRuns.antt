-- ===== src/Examples/IssuerAppRuns.antt =====
-- Tests of the issuer front end.
use concordium_web3id.Common.{
  ◌≡◌, ◌≤◌, ◌==◌, String, true, false, some, List, [], ◌∷◌, refl, ok, All, utf16_length, get_last?,
  ne_of_str_eq,
}
use concordium_web3id.IssuerApp.Schema.{
  is_inherited, remove_spaces, Page, empty_page, plain, add_attribute, is_duplicate,
  array_to_object, put,
}
use concordium_web3id.IssuerApp.Schema.Invariant.{IsWellFormed}
use concordium_web3id.IssuerApp.Deploy.{initial}
use concordium_web3id.IssuerApp.Deploy.Page.{
  Event, key_added, react_all, IsDistinct, revocation_keys_valid,
}
use concordium_web3id.IssuerApp.Steps
use concordium_web3id.IssuerApp.Steps.Session.{buttons_aligned}
use concordium_web3id.IssuerApp.Balance.{run, groups_follow, show_balance}
use concordium_web3id.IssuerApp.Balance.Points.{
  points, is_grouped, without_points, show_balance_lem,
}
use concordium_web3id.IssuerApp.Files
use concordium_web3id.IssuerApp.Files.Session.{
  IsSound, download_saves_previous, saved_schemas-IsSound,
}

abbrev one_attribute : Page
one_attribute = record {
  attributes = ("DegreeType", plain "Degree Type" "string" "the degree") ∷ [];
  properties = ("DegreeType", plain "Degree Type" "string" "the degree") ∷ [];
  required = "DegreeType" ∷ [];
}

one_attribute_run :
    add_attribute "Degree Type" "the degree" true "string" empty_page ≡ ok one_attribute
unfolding add_attribute remove_spaces is_inherited is_duplicate array_to_object put
one_attribute_run = refl

abbrev key_64 : String
key_64 = "0123456789abcdef0123456789abcdef0123456789abcdef0123456789abcdef"

abbrev key_events : List Event
key_events = key_added (some key_64) ∷ key_added (some "short") ∷ key_added (some key_64) ∷ []

revocation_keys_valid_example :
    IsDistinct (react_all key_events initial).revocation_keys
    × All (λ k. utf16_length k ≡ 64) (react_all key_events initial).revocation_keys
revocation_keys_valid_example = revocation_keys_valid key_events

-- The steps of the page.
abbrev moves : List Steps.Event
moves =
    Steps.Event.next_clicked
    ∷ Steps.Event.network_clicked false
    ∷ Steps.Event.next_clicked
    ∷ Steps.Event.wallet_drawn 1
    ∷ Steps.Event.connect_clicked
    ∷ Steps.Event.previous_clicked
    ∷ []

moves_run : Steps.react_all moves Steps.initial ≡ record {
  is_testnet = false;
  active = 2;
  is_connected = true;
  next_disabled = false;
  previous_disabled = false;
}
unfolding Steps.react Steps.next Steps.previous Steps.update_progress
moves_run = refl

buttons_aligned_example :
    let r = Steps.react_all moves Steps.initial in
    (1 ≤ r.active)
    × (r.active ≤ 3)
    × (r.previous_disabled ≡ r.active == 1)
    × (r.next_disabled ≡ r.active == 3)
buttons_aligned_example = buttons_aligned moves

-- Balances of 8, 13 and 3 digits.
balance_run : show_balance "12345678" ≡ "12.345678"
unfolding show_balance groups_follow run
balance_run = refl

large_balance_run : show_balance "1234567890123" ≡ "1.234567.890123"
unfolding show_balance groups_follow run
large_balance_run = refl

small_balance_run : show_balance "123" ≡ "123"
unfolding show_balance groups_follow run
small_balance_run = refl

show_balance_lem_example :
    (points (show_balance "12345678") ≡ 1)
    × (is_grouped (show_balance "12345678") ≡ true)
    × (without_points (show_balance "12345678") ≡ "12345678")
show_balance_lem_example =
    show_balance_lem "12345678" (refl, (refl, (refl, (refl, (refl, (refl, (refl, (refl, tt))))))))

-- The files of the page.
abbrev red : Files.CredentialMetadata
red = record {
  title = "Red";
  logo_url = "https://example.com/logo.png";
  background_color = "#ff0000";
  image_url = some "";
}

abbrev blue : Files.CredentialMetadata
blue = record red { title = "Blue"; background_color = "#0000ff" }

abbrev degree_entered : Files.Event
degree_entered = Files.Event.attribute_submitted "Degree Type" "the degree" true "string"

abbrev head_entered : Files.SchemaHead
head_entered = record { name = "Licence"; description = "a licence"; id = "https://example.com" }

download_saves_previous_example :
    let f =
      Files.react_all
        (degree_entered ∷ Files.Event.metadata_submitted false red ∷ Files.Event.closed ∷ [])
        Files.initial in
    get_last? (Files.react (Files.Event.metadata_submitted true blue) f).saved
    ≡ some (Files.credential_metadata (Files.cleaned red))
download_saves_previous_example =
    download_saves_previous (degree_entered ∷ []) (Files.Event.closed ∷ []) false red blue (tt, tt)

abbrev schema_events : List Files.Event
schema_events =
    degree_entered ∷ degree_entered ∷ Files.Event.schema_submitted true head_entered ∷ []

saved_schemas-IsSound_example :
    let f = Files.react_all schema_events Files.initial in
    IsWellFormed f.schema × All IsSound f.saved
unfolding remove_spaces
saved_schemas-IsSound_example = saved_schemas-IsSound schema_events (
  ne_of_str_eq "DegreeType" "__proto__" refl,
  (ne_of_str_eq "DegreeType" "__proto__" refl, (tt, tt)),
)
