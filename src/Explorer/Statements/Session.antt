-- ===== src/Explorer/Statements/Session.antt =====
-- Whole sessions with the statement under construction: every sequence of clicks and page events.
use concordium_web3id.Common.{
  ℕ, ◌≡◌, ◌⊎◌, String, true, false, Option, none, some, List, [], ◌∷◌, refl, inl, inr, arith, init,
  init-append_two, is_empty-append_one, map_last-append_one, map-init, All, Option-cases, ◌∙◌, ap,
  ◌++◌,
}
use concordium_web3id.Explorer.Types.{SignedInt, IdentityProvider, Kind, TopLevelStatement}
use concordium_web3id.Explorer.Statements.{
  Explorer, start, extend, add_account_statement, add_identity_credential_statement, add,
  handle_add_top_level, clear_last,
}
use concordium_web3id.Explorer.Statements.Refinement.{
  Document, write, close, drop_last, section, view, IsConsistent, add_refines,
}

-- What the user and the page do, in order.
pub data Event (A : Type 0) : Type 0 where
  add_statement : Kind → List A → Event A
  add_top_level : Event A
  clear : Event A
  load_idps : List IdentityProvider → Event A
  check : List ℕ → Event A
  check_id_cred : List ℕ → Event A
  edit_issuers : String → Event A

module _ {A : Type 0} where
  -- The same session on the document.
  abbrev pub perform : Event A → Document A → Document A
  perform (add_statement k a) d = write k a d
  perform add_top_level d = close d
  perform clear d = drop_last d
  perform (load_idps l) d = d
  perform (check l) d = d
  perform (check_id_cred l) d = d
  perform (edit_issuers s) d = d

  abbrev pub perform_all : List (Event A) → Document A → Document A
  perform_all [] d = d
  perform_all (v ∷ vs) d = perform_all vs (perform v d)

  -- Any event but clearing.
  abbrev pub IsKeeping : Event A → Type 0
  IsKeeping clear = ⊥
  IsKeeping _ = Unit

module _ {A Address : Type 0} where
  unfoldable pub handle :
      (SignedInt → Option Address) → Event A → Explorer A Address → Option (Explorer A Address)
  unfolding handle_add_top_level clear_last
  handle create_address (add_statement k a) e = add create_address k a e
  handle create_address add_top_level e = some (handle_add_top_level e)
  handle create_address clear e = some (clear_last e)
  handle create_address (load_idps l) e = some (record e { idps = l })
  handle create_address (check l) e = some (record e { checked = l })
  handle create_address (check_id_cred l) e = some (record e { id_cred_checked = l })
  handle create_address (edit_issuers s) e = some (record e { issuers = s })

  -- The session: nothing once an update has thrown.
  unfoldable pub handle_all :
      (SignedInt → Option Address)
      → List (Event A)
      → Explorer A Address
      → Option (Explorer A Address)
  unfolding handle
  handle_all create_address [] e = some e
  handle_all create_address (v ∷ vs) e = elim (handle create_address v e) [
    | none ↦ none
    | some e' ↦ handle_all create_address vs e'
  ]

  -- An event that keeps a consistent state consistent: any but clearing, which must leave nothing
  -- or come while a new statement is announced.
  abbrev pub IsTame : Event A → Explorer A Address → Type 0
  IsTame clear e = (e.new_statement ≡ true) ⊎ (init e.statement ≡ [])
  IsTame _ e = Unit

  handle_refines :
      (create_address : SignedInt → Option Address) (v : Event A) (e : Explorer A Address)
      {e' : Explorer A Address}
      → IsConsistent e
      → IsTame v e
      → handle create_address v e ≡ some e'
      → IsConsistent e' × (view e' ≡ perform v (view e))
  unfolding handle
  handle_refines create_address (add_statement k a) e h tame done =
      add_refines create_address k a e h done
  handle_refines create_address clear e h tame done = ground (arith, map-init section e.statement)
  handle_refines create_address _ e h tame done = ground arith

  -- Clearing does to the document what it should, in every state.
  view-clear_last : (e : Explorer A Address) → view (clear_last e) ≡ drop_last (view e)
  unfolding clear_last
  view-clear_last e = ground (arith, map-init section e.statement)

  keeping-IsTame : (v : Event A) (e : Explorer A Address) → IsKeeping v → IsTame v e
  keeping-IsTame clear e h = absurd h
  keeping-IsTame (add_statement k a) e h = tt
  keeping-IsTame _ e h = tt

  pub handle_all_from :
      (create_address : SignedInt → Option Address) (vs : List (Event A)) (e : Explorer A Address)
      {e' : Explorer A Address}
      → IsConsistent e
      → All IsKeeping vs
      → handle_all create_address vs e ≡ some e'
      → IsConsistent e' × (view e' ≡ perform_all vs (view e))
  unfolding handle_all
  handle_all_from create_address [] e h keep done = ground arith
  handle_all_from create_address (v ∷ vs) e {e'} h keep done =
      elim (Option-cases (handle create_address v e)) [
        | inl thrown ↦ cc
        | inr (next, e1) ↦
            let (ok_next, seen) =
              handle_refines create_address v e h (keeping-IsTame v e keep.0) e1 in
            let (ok_end, seen_end) =
              handle_all_from create_address vs next ok_next keep.1 (rw (e1, handle_all) at done) in
            (ok_end, seen_end ∙ ap (perform_all vs) seen)
      ]

  -- Without clearing, any session that does not throw leaves the component with the document that
  -- the same session makes from the empty one: each atomic statement in a section of its own kind.
  pub handle_all_refines :
      (create_address : SignedInt → Option Address) (vs : List (Event A)) {e : Explorer A Address}
      → All IsKeeping vs
      → handle_all create_address vs start ≡ some e
      → view e ≡ perform_all vs (record { sections = []; open_kind = none })
  handle_all_refines create_address vs keep done =
      (handle_all_from create_address vs start (inl refl) keep done).1

  -- Clearing while the last two credential statements stand and no new one is announced: the next
  -- atomic statements about an account or an identity join the statement before the cleared one, of
  -- whatever kind it is, if the cleared one was of those two kinds.
  pub clear_last_merges :
      (before : List (TopLevelStatement A Address)) (s t : TopLevelStatement A Address) (a : List A)
      (e : Explorer A Address)
      → e.statement ≡ before ++ s ∷ t ∷ []
      → e.new_statement ≡ false
      → e.last_account ≡ true
      → ((add_account_statement a (clear_last e)).statement ≡ before ++ extend a s ∷ [])
        × ((add_identity_credential_statement a (clear_last e)).statement
            ≡ before ++ extend a s ∷ [])
  unfolding clear_last add_account_statement add_identity_credential_statement
  clear_last_merges before s t a e shape old account =
      let left : init e.statement ≡ before ++ s ∷ [] = rw shape (init-append_two before s t) in
      ground (arith, left, is_empty-append_one before s, map_last-append_one (extend a) before s)
