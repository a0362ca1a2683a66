-- ===== src/Explorer/Statements/Refinement.antt =====
-- The statement under construction of ProofExplorer.tsx as its user sees it, beside the handlers.
use mathlib.Core.List.{map-append}
use concordium_web3id.Common.{
  ◌≡◌, ◌⊎◌, Option-cases, inl, inr, true, false, Option, none, some, List, [], ◌∷◌, ◌++◌, map,
  if◌then◌else◌, refl, arith, is_empty, is_empty-append_one, is_empty-map_last, init, map_last,
  map-map_last,
}
use concordium_web3id.Explorer.Types.{SignedInt, Kind, TopLevelStatement, kind, atoms}
use concordium_web3id.Explorer.Issuers.{parse_issuers}
use concordium_web3id.Explorer.Statements.{Explorer, addresses, chosen, same_kind, extend, add}

-- The credential statements, each with its kind, and the one that is open for more.
pub record Document (A : Type 0) : Type 0 where
  pub sections : List (Kind × List A)
  pub open_kind : Option Kind

module _ {A : Type 0} where
  -- Further atomic statements of the open kind go to the last section, those of another kind are
  -- refused, and with none open a new section begins.
  abbrev pub write : Kind → List A → Document A → Document A
  write k a d = elim d.open_kind [
    | none ↦ record { sections = d.sections ++ (k, a) ∷ []; open_kind = some k }
    | some j ↦
        if same_kind j k
        then record d { sections = map_last (λ s. (s.0, s.1 ++ a)) d.sections }
        else d
  ]

  abbrev pub close : Document A → Document A
  close d = record d { open_kind = none }

  abbrev pub drop_last : Document A → Document A
  drop_last d = record { sections = init d.sections; open_kind = none }

module _ {A Address : Type 0} where
  abbrev pub section : TopLevelStatement A Address → Kind × List A
  section s = (kind s, atoms s)

  abbrev pub view : Explorer A Address → Document A
  view e = record { sections = map section e.statement; open_kind = e.current }

  -- The flags agree with the type of the open statement.
  abbrev pub IsOpen : Option Kind → Explorer A Address → Type 0
  IsOpen none e = (e.new_statement ≡ true) ⊎ (e.statement ≡ [])
  IsOpen (some Kind.web3id) e =
      (e.new_statement ≡ false) × (e.last_account ≡ false) × (is_empty e.statement ≡ false)
  IsOpen (some k) e =
      (e.new_statement ≡ false) × (e.last_account ≡ true) × (is_empty e.statement ≡ false)

  abbrev pub IsConsistent : Explorer A Address → Type 0
  IsConsistent e = IsOpen e.current e

  section-extend :
      (a : List A) (s : TopLevelStatement A Address) → section (extend a s) ≡ (kind s, atoms s ++ a)
  section-extend a (TopLevelStatement.account idps s) = refl
  section-extend a (TopLevelStatement.id idps s) = refl
  section-extend a (TopLevelStatement.web3id issuers s) = refl

  sections-extend :
      (a : List A) (l : List (TopLevelStatement A Address))
      → map section (map_last (extend a) l) ≡ map_last (λ s. (s.0, s.1 ++ a)) (map section l)
  sections-extend a l = map-map_last section (extend a) _ (section-extend a) l

  sections-append :
      (l : List (TopLevelStatement A Address)) (s : TopLevelStatement A Address)
      → map section (l ++ s ∷ []) ≡ map section l ++ section s ∷ []
  sections-append l s = map-append section l (s ∷ [])

  module _ (create_address : SignedInt → Option Address) where
    -- In a consistent state each handler does to the document what `write` does, and keeps the state
    -- consistent.
    pub add_refines :
        (k : Kind) (a : List A) (e : Explorer A Address) {e' : Explorer A Address}
        → IsConsistent e
        → add create_address k a e ≡ some e'
        → IsConsistent e' × (view e' ≡ write k a (view e))
    unfolding add
    add_refines Kind.account a e h done = ground (
      arith,
      sections-extend a e.statement,
      sections-append e.statement (TopLevelStatement.account (chosen e.idps e.checked) a),
      is_empty-append_one e.statement (TopLevelStatement.account (chosen e.idps e.checked) a),
      is_empty-map_last (extend a) e.statement,
    )
    add_refines Kind.id a e h done = ground (
      arith,
      sections-extend a e.statement,
      sections-append e.statement (TopLevelStatement.id (chosen e.idps e.id_cred_checked) a),
      is_empty-append_one e.statement (TopLevelStatement.id (chosen e.idps e.id_cred_checked) a),
      is_empty-map_last (extend a) e.statement,
    )
    add_refines Kind.web3id a e h done =
        elim (Option-cases (addresses create_address (parse_issuers e.issuers))) [
          | inl refused ↦
              ground
                (arith, sections-extend a e.statement, is_empty-map_last (extend a) e.statement)
          | inr (l, accepted) ↦ ground (
            arith,
            sections-extend a e.statement,
            sections-append e.statement (TopLevelStatement.web3id l a),
            is_empty-append_one e.statement (TopLevelStatement.web3id l a),
            is_empty-map_last (extend a) e.statement,
          )
        ]
