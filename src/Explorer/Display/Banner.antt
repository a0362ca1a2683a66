-- ===== src/Explorer/Display/Banner.antt =====
-- What StatementDisplay.tsx shows over the sessions of ProofExplorer.tsx.
use concordium_web3id.Common.{
  length-map, ℕ, ◌≡◌, String, not, Option, some, List, [], ◌∷◌, refl, arith, All, is_some,
  Option-cases, inl, inr, length, ◌+◌, length-append, length-map_last, ◌∙◌, ap, sym, if◌then◌else◌,
}
use concordium_web3id.Explorer.Types.{SignedInt, Kind, TopLevelStatement}
use concordium_web3id.Explorer.Builders.{AtomicStatement}
use concordium_web3id.Explorer.Issuers.{parse_issuers}
use concordium_web3id.Explorer.Statements.{
  Explorer, start, add, addresses, add_account_statement, add_identity_credential_statement,
  add_web3id_statement, extend, chosen,
}
use concordium_web3id.Explorer.Statements.Refinement.{IsConsistent}
use concordium_web3id.Explorer.Statements.Session.{
  Event, add_statement, clear, IsKeeping, handle, handle_all, handle_all_from,
}
use concordium_web3id.Explorer.Display.{statement}

module _ {A Address : Type 0} (create_address : SignedInt → Option Address) where
  -- A new statement is announced exactly while no kind is current.
  abbrev IsAnnounced : Explorer A Address → Type 0
  IsAnnounced e = e.new_statement ≡ not (is_some e.current)

  handle-IsAnnounced :
      (v : Event A) (e : Explorer A Address) {e' : Explorer A Address}
      → IsAnnounced e
      → IsKeeping v
      → handle create_address v e ≡ some e'
      → IsAnnounced e'
  unfolding handle add add_account_statement add_identity_credential_statement add_web3id_statement
  handle-IsAnnounced (add_statement Kind.account a) e h keep done = ground arith
  handle-IsAnnounced (add_statement Kind.id a) e h keep done = ground arith
  handle-IsAnnounced (add_statement Kind.web3id a) e h keep done =
      elim (Option-cases (addresses create_address (parse_issuers e.issuers))) [
        | inl refused ↦ ground arith
        | inr (l, accepted) ↦ ground arith
      ]
  handle-IsAnnounced clear e h keep done = absurd keep
  handle-IsAnnounced _ e h keep done = ground arith

  handle_all-IsAnnounced :
      (vs : List (Event A)) (e : Explorer A Address) {e' : Explorer A Address}
      → IsAnnounced e
      → All IsKeeping vs
      → handle_all create_address vs e ≡ some e'
      → IsAnnounced e'
  unfolding handle_all
  handle_all-IsAnnounced [] e h keep done = ground arith
  handle_all-IsAnnounced (v ∷ vs) e h keep done = elim (Option-cases (handle create_address v e)) [
    | inl thrown ↦ cc
    | inr (next, e1) ↦
        handle_all-IsAnnounced vs next (handle-IsAnnounced v e h keep.0 e1) keep.1
          (rw (e1, handle_all) at done)
  ]

  -- How many credential statements there are after an addition.
  length-add :
      (k : Kind) (a : List A) (e : Explorer A Address) {e' : Explorer A Address}
      → IsAnnounced e
      → IsConsistent e
      → add create_address k a e ≡ some e'
      → length e'.statement ≡ length e.statement + (if e.new_statement then 1 else 0)
  unfolding add add_account_statement add_identity_credential_statement add_web3id_statement
  length-add Kind.account a e h c done = ground (
    arith,
    length-append e.statement (TopLevelStatement.account (chosen e.idps e.checked) a ∷ []),
    length-map_last (extend a) e.statement,
  )
  length-add Kind.id a e h c done = ground (
    arith,
    length-append e.statement (TopLevelStatement.id (chosen e.idps e.id_cred_checked) a ∷ []),
    length-map_last (extend a) e.statement,
  )
  length-add Kind.web3id a e h c done =
      elim (Option-cases (addresses create_address (parse_issuers e.issuers))) [
        | inl refused ↦ ground (arith, length-map_last (extend a) e.statement)
        | inr (l, accepted) ↦ ground (
          arith,
          length-append e.statement (TopLevelStatement.web3id l a ∷ []),
          length-map_last (extend a) e.statement,
        )
      ]

module _ {N Address : Type 0} where
  -- In a session without clearing, an addition that does not throw begins one more credential
  -- statement exactly when the page announces a new one; else their number stays as it is.
  pub announced_lem :
      (create_address : SignedInt → Option Address) (show_id : ℕ → String)
      (show_address : Address → String) (show_number : N → String)
      (vs : List (Event (AtomicStatement N))) {e e' : Explorer (AtomicStatement N) Address}
      (k : Kind) (a : List (AtomicStatement N))
      → All IsKeeping vs
      → handle_all create_address vs start ≡ some e
      → add create_address k a e ≡ some e'
      → let shown = statement show_id show_address show_number e.statement e.new_statement in
        length e'.statement ≡ length shown.boxes + (if shown.new_statement_started then 1 else 0)
  unfolding statement
  announced_lem create_address show_id show_address show_number vs {e} {e'} k a keep session added =
      let announced = handle_all-IsAnnounced create_address vs start refl keep session in
      let consistent = (handle_all_from create_address vs start (inl refl) keep session).0 in
      length-add create_address k a e announced consistent added
      ∙ ap (λ n. n + (if e.new_statement then 1 else 0)) (sym (length-map _ e.statement))
