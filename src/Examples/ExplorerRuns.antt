-- ===== src/Examples/ExplorerRuns.antt =====
-- Tests of the statement under construction, the claims, the anchor and the forms.
use concordium_web3id.Common.{
  str_eq, if◌then◌else◌, ℕ, ◌≡◌, ◌≢◌, ◌↔◌, String, true, false, Option, none, some, List, [], ◌∷◌,
  refl, ok, Result,
}
use concordium_web3id.Explorer.Types.{
  SignedInt, IdentityProvider, Kind, TopLevelStatement, account_or_identity_claims,
}
use concordium_web3id.Explorer.Thrown.{Thrown}
use concordium_web3id.Explorer.Statements.{Explorer, start, add, add_identity_credential_statement}
use concordium_web3id.Explorer.Statements.Refinement.{view}
use concordium_web3id.Explorer.Statements.Session.{
  Event, add_statement, add_top_level, check, load_idps, perform_all, handle_all,
  handle_all_refines,
}
use concordium_web3id.Explorer.Anchor.{browser, AnchorInput, create_anchor_and_submit}
use concordium_web3id.Explorer.Anchor.Requests.{IsAnchored, create_anchor_and_submit_iff}
use concordium_web3id.Explorer.Builders.{
  AttributeOption, InSet, attribute_in_range, add_range, initial_range, select_range, typed_value,
  ◌>>=◌,
}
use concordium_web3id.Explorer.Builders.Forms.{lower, upper, edit_all, range_of_selection}

abbrev at_index : SignedInt → Option SignedInt
at_index i = some i

abbrev provider_a : IdentityProvider
provider_a = record { name = "A"; id = 3 }

abbrev clicks : List (Event String)
clicks =
    load_idps (provider_a ∷ [])
    ∷ check (3 ∷ [])
    ∷ add_statement Kind.account ("age" ∷ [])
    ∷ add_statement Kind.id ("refused" ∷ [])
    ∷ add_statement Kind.account ("country" ∷ [])
    ∷ add_top_level
    ∷ add_statement Kind.id ("name" ∷ [])
    ∷ []

abbrev clicked : Explorer String SignedInt
clicked = record {
  current = some Kind.id;
  statement =
      TopLevelStatement.account (provider_a ∷ []) ("age" ∷ "country" ∷ [])
      ∷ TopLevelStatement.id [] ("name" ∷ [])
      ∷ [];
  last_account = true;
  new_statement = false;
  idps = provider_a ∷ [];
  checked = 3 ∷ [];
  id_cred_checked = [];
  issuers = "";
}

clicks_run : handle_all at_index clicks start ≡ some clicked
unfolding handle_all add
clicks_run = refl

handle_all_refines_example :
    view clicked ≡ perform_all clicks (record { sections = []; open_kind = none })
handle_all_refines_example =
    handle_all_refines at_index clicks (tt, (tt, (tt, (tt, (tt, (tt, (tt, tt))))))) clicks_run

add_run :
    add at_index Kind.id ("more" ∷ []) clicked
    ≡ some (add_identity_credential_statement ("more" ∷ []) clicked)
unfolding add
add_run = refl

abbrev anchor_of : AnchorInput String String → Result Thrown String
anchor_of i = ok i.context

abbrev send_it : String → String → Result Thrown String
send_it account payload = ok payload

abbrev read_hash : String → Result Thrown String
read_hash s = ok s

create_anchor_and_submit_iff_example :
    ((create_anchor_and_submit anchor_of send_it read_hash
        (some (browser (some "account")))
        clicked.statement
        account_or_identity_claims
        "context"
        true
        (record { submission_result = none; transaction_hash = none })).transaction_hash
      ≡ some "context")
    ↔ ((clicked.statement ≢ [])
        × IsAnchored anchor_of send_it read_hash
            (browser (some "account"))
            clicked.statement
            account_or_identity_claims
            "context"
            true
            "context")
create_anchor_and_submit_iff_example =
    create_anchor_and_submit_iff anchor_of send_it read_hash (browser (some "account"))
      clicked.statement account_or_identity_claims "context" true
      (record { submission_result = none; transaction_hash = none }) "context"

abbrev digits_only : String → Option ℕ
digits_only s = if str_eq s "7" then some 7 else if str_eq s "9" then some 9 else none

abbrev degrees : AttributeOption
degrees = record { value = "Degrees"; label = "degrees"; type = some "integer" }

range_of_selection_example :
    add_range digits_only (
      edit_all
        (upper "5" ∷ lower "7" ∷ upper "9" ∷ [])
        (select_range (some degrees) (initial_range degrees)))
    ≡ (do
      x ← typed_value digits_only "7" (some "integer")
      y ← typed_value digits_only "9" (some "integer")
      some (attribute_in_range "degrees" x y ∷ []))
range_of_selection_example =
    range_of_selection digits_only degrees (initial_range degrees)
      (upper "5" ∷ lower "7" ∷ upper "9" ∷ []) refl refl

abbrev letters : InSet
letters = record { set = "7, x"; selected = ("degrees", some "integer") }
