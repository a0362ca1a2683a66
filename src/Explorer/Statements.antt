-- ===== src/Explorer/Statements.antt =====
-- The statement under construction in
-- test-tools/proof-explorer/src/components/ProofExplorer.tsx: the component's state that the buttons
-- change, and its handlers. A handler runs with the state of the last render, as React runs one for
-- each click. `create_address` is `ContractAddress.create(i, 0)` of the web SDK, `none` where it
-- throws; it throws while React runs the update, which takes the component down.
pub mod Refinement
pub mod Session
use concordium_web3id.Common.{
  ℕ, String, Bool, true, false, not, ◌||◌, Option, none, some, List, [], ◌∷◌, ◌++◌, ◌==◌,
  if◌then◌else◌, select, is_empty, init, map_last,
}
use mathlib.Core.Option
use concordium_web3id.Explorer.Types.{SignedInt, IdentityProvider, Kind, TopLevelStatement}
use concordium_web3id.Explorer.Issuers.{parse_issuers}

pub record Explorer (A Address : Type 0) : Type 0 where
  pub current : Option Kind
  pub statement : List (TopLevelStatement A Address)
  pub last_account : Bool
  pub new_statement : Bool
  pub idps : List IdentityProvider
  pub checked : List ℕ
  pub id_cred_checked : List ℕ
  pub issuers : String

-- The state before the first click.
abbrev pub start : {A Address : Type 0} → Explorer A Address
start = record {
  current = none;
  statement = [];
  last_account = true;
  new_statement = true;
  idps = [];
  checked = [];
  id_cred_checked = [];
  issuers = "";
}

abbrev pub same_kind : Kind → Kind → Bool
same_kind Kind.account Kind.account = true
same_kind Kind.id Kind.id = true
same_kind Kind.web3id Kind.web3id = true
same_kind _ _ = false

-- `currentStatementType && currentStatementType != k`
abbrev pub is_mixing : Option Kind → Kind → Bool
is_mixing none k = false
is_mixing (some j) k = not (same_kind j k)

-- `checked.includes(id)`
abbrev pub includes_id : List ℕ → ℕ → Bool
includes_id [] n = false
includes_id (m ∷ ms) n = elim (m == n) [ true ↦ true | false ↦ includes_id ms n ]

-- `idps.filter(({ id }) => checked.includes(id))`
abbrev pub chosen : List IdentityProvider → List ℕ → List IdentityProvider
chosen idps checked = select (λ p. includes_id checked p.id) idps

module _ {A Address : Type 0} where
  -- `last.statement.statement = last.statement.statement.concat(a)`
  abbrev pub extend : List A → TopLevelStatement A Address → TopLevelStatement A Address
  extend a (TopLevelStatement.account idps s) = TopLevelStatement.account idps (s ++ a)
  extend a (TopLevelStatement.id idps s) = TopLevelStatement.id idps (s ++ a)
  extend a (TopLevelStatement.web3id issuers s) = TopLevelStatement.web3id issuers (s ++ a)

  unfoldable pub add_identity_credential_statement :
      List A → Explorer A Address → Explorer A Address
  add_identity_credential_statement a e =
      if is_mixing e.current Kind.id
      then e
      else if not e.last_account || e.new_statement || is_empty e.statement
      then record e {
        current = some Kind.id;
        last_account = true;
        new_statement = false;
        statement = e.statement ++ TopLevelStatement.id (chosen e.idps e.id_cred_checked) a ∷ [];
      }
      else record e { current = some Kind.id; statement = map_last (extend a) e.statement }

  unfoldable pub add_account_statement : List A → Explorer A Address → Explorer A Address
  add_account_statement a e =
      if is_mixing e.current Kind.account
      then e
      else if not e.last_account || e.new_statement || is_empty e.statement
      then record e {
        current = some Kind.account;
        last_account = true;
        new_statement = false;
        statement = e.statement ++ TopLevelStatement.account (chosen e.idps e.checked) a ∷ [];
      }
      else record e { current = some Kind.account; statement = map_last (extend a) e.statement }

  -- `handleAddTopLevel`
  unfoldable pub handle_add_top_level : Explorer A Address → Explorer A Address
  handle_add_top_level e = record e { new_statement = true; current = none }

  -- The button "Clear last credential statement".
  unfoldable pub clear_last : Explorer A Address → Explorer A Address
  clear_last e = record e { current = none; statement = init e.statement }

-- `.map((i) => ContractAddress.create(i, 0))`
abbrev pub addresses :
    {Address : Type 0} → (SignedInt → Option Address) → List SignedInt → Option (List Address)
addresses create_address [] = some []
addresses create_address (i ∷ is) = elim (create_address i) [
  | none ↦ none
  | some a ↦ Option.map (λ rest. a ∷ rest) (addresses create_address is)
]

module _ {A Address : Type 0} (create_address : SignedInt → Option Address) where
  unfoldable pub add_web3id_statement : List A → Explorer A Address → Option (Explorer A Address)
  add_web3id_statement a e =
      if is_mixing e.current Kind.web3id
      then some e
      else if e.last_account || e.new_statement || is_empty e.statement
      then Option.map
          (λ issuers. record e {
            current = some Kind.web3id;
            last_account = false;
            new_statement = false;
            statement = e.statement ++ TopLevelStatement.web3id issuers a ∷ [];
          })
          (addresses create_address (parse_issuers e.issuers))
      else some
          (record e { current = some Kind.web3id; statement = map_last (extend a) e.statement })

  -- The handler that the builder of a column calls with its atomic statements.
  unfoldable pub add : Kind → List A → Explorer A Address → Option (Explorer A Address)
  unfolding add_identity_credential_statement add_account_statement add_web3id_statement
  add Kind.account a e = some (add_account_statement a e)
  add Kind.id a e = some (add_identity_credential_statement a e)
  add Kind.web3id a e = add_web3id_statement a e
