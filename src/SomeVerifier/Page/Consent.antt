-- ===== src/SomeVerifier/Page/Consent.antt =====
-- Sessions with the example verifier's page in which only what can be clicked is clicked.
use mathlib.Core.List.Memᴰ
use mathlib.Core.Path.{subst}
use mathlib.Core.Bool.{false≢true}
use mathlib.Core.List.{Memᴰ, append_assoc}
use concordium_web3id.Common.{
  ◌≤◌, ◌≡◌, ◌≢◌, ◌+◌, sym, ◌∙◌, Bool, true, false, String, List, [], ◌∷◌, Option, none, some, refl,
  arith, Result, ltb, if◌then◌else◌, All, ◌++◌,
}
use concordium_web3id.Common.View.{buttons, buttons_laws, when}
use concordium_web3id.SomeVerifier.Proofs.{Issuer, Call, ConnectionErrorCode}
use concordium_web3id.SomeVerifier.Page.{
  VerificationStep, issue_step, verify_step, check_step, Page, initial, checked_count, set_checked,
  issue_telegram, issue_discord, submit_handler, toggle_privacy_notice, toggle, change_telegram,
  change_discord, change_full_name, with_checked, recount, count,
}
use concordium_web3id.SomeVerifier.Page.Prove.{
  PostAnswer, Outcome, no_wallet, creation_failed, proof_rejected, verified, prove, proved, pressed,
}
use concordium_web3id.SomeVerifier.Page.View.{
  Button, header, continue, go_to_issue, telegram_option, discord_option, full_name_option, verify,
  understood, cancel, close_notice, is_open, steps, clickable, click, hide_notice, privacy_notice,
}

-- The buttons of the notice.
abbrev on_notice : Button → Bool
on_notice understood = true
on_notice cancel = true
on_notice close_notice = true
on_notice _ = false

-- The buttons of the accordion, by the step that is open.
abbrev page_buttons : Option VerificationStep → List Button
page_buttons opened =
    header issue_step ∷ when (is_open issue_step opened) (continue ∷ [])
    ++ header verify_step
      ∷ when (is_open verify_step opened)
          (go_to_issue ∷ telegram_option ∷ discord_option ∷ full_name_option ∷ verify ∷ [])
    ++ header check_step ∷ []

member-All : {A : Type 0} (P : A → Type 0) {x : A} (xs : List A) → Memᴰ x xs → All P xs → P x
member-All P [] m h = absurd (Memᴰ.not-nil m)
member-All P (y ∷ ys) (Memᴰ.head e) h = subst P (sym e) h.0
member-All P (y ∷ ys) (Memᴰ.tail m) h = member-All P ys m h.1

page_buttons-on_page :
    (opened : Option VerificationStep) → All (λ b. on_notice b ≡ false) (page_buttons opened)
page_buttons-on_page none = (refl, (refl, (refl, tt)))
page_buttons-on_page (some issue_step) = (refl, (refl, (refl, (refl, tt))))
page_buttons-on_page (some verify_step) =
    (refl, (refl, (refl, (refl, (refl, (refl, (refl, (refl, tt))))))))
page_buttons-on_page (some check_step) = (refl, (refl, (refl, tt)))

recount-same :
    (u : Bool) (p : Page)
    → ((recount u p).show_privacy_notice ≡ p.show_privacy_notice)
      × (checked_count (recount u p) ≡ checked_count p)
recount-same true p = (refl, refl)
recount-same false p = (refl, refl)

set_checked-show :
    (t d f : Bool) (p : Page) → (set_checked t d f p).show_privacy_notice ≡ p.show_privacy_notice
unfolding set_checked
set_checked-show t d f p = (recount-same _ (with_checked t d f p)).0

checked_count-set_checked :
    (t d f : Bool) (p : Page) → checked_count (set_checked t d f p) ≡ count t + count d + count f
unfolding set_checked
checked_count-set_checked t d f p = (recount-same _ (with_checked t d f p)).1

count_le : (b : Bool) → count b ≤ 1
count_le b = ground arith

module _ (network telegram_invite discord_invite : String) where
  -- One thing that happens: a click, the end of a login, or the end of a proof.
  pub data Step : Page → Page → Type 0 where
    clicked :
        {p : Page} (b : Button)
        → Memᴰ b (buttons (clickable network telegram_invite discord_invite p))
        → Step p (click b p)
    telegram_done : {p : Page} → Step p (issue_telegram p)
    discord_done : {p : Page} → Step p (issue_discord p)
    proof_ended : {p : Page} (o : Outcome) → Step p (proved o p)

  -- A page that a session reaches.
  pub data IsReachable : Page → Type 0 where
    start : IsReachable initial
    next : {p q : Page} → IsReachable p → Step p q → IsReachable q

  buttons-steps :
      (p : Page)
      → buttons (steps network telegram_invite discord_invite p) ≡ page_buttons p.open_step
  unfolding steps
  buttons-steps p = simp (buttons_laws, append_assoc) refl

  -- While the notice is open, two options are set.
  abbrev IsInformed : Page → Type 0
  IsInformed p = p.show_privacy_notice ≡ true → 2 ≤ checked_count p

  drawn_lem :
      (shown : Bool) (p : Page) (b : Button)
      → Memᴰ b (
          buttons
            (if shown then privacy_notice else steps network telegram_invite discord_invite p))
      → on_notice b ≡ shown
  drawn_lem true p b m =
      member-All (λ b. on_notice b ≡ true) (close_notice ∷ understood ∷ cancel ∷ []) m
        (refl, (refl, (refl, tt)))
  drawn_lem false p b m =
      member-All (λ b. on_notice b ≡ false) (page_buttons p.open_step)
        (subst (Memᴰ b) (buttons-steps p) m) (page_buttons-on_page p.open_step)

  -- What can be clicked is on the notice exactly if the notice is open.
  offered_lem :
      (p : Page) (b : Button)
      → Memᴰ b (buttons (clickable network telegram_invite discord_invite p))
      → on_notice b ≡ p.show_privacy_notice
  unfolding clickable
  offered_lem p b m = drawn_lem p.show_privacy_notice p b m

  kept-IsInformed :
      (p q : Page)
      → q.show_privacy_notice ≡ p.show_privacy_notice
      → checked_count p ≤ checked_count q
      → IsInformed p
      → IsInformed q
  kept-IsInformed p q e le h k = omega (arith, h (sym e ∙ k), le)

  closed-IsInformed :
      (p q : Page)
      → q.show_privacy_notice ≡ p.show_privacy_notice
      → false ≡ p.show_privacy_notice
      → IsInformed q
  closed-IsInformed p q e f k = absurd (false≢true (f ∙ sym e ∙ k))

  click-IsInformed :
      (b : Button) (p : Page)
      → on_notice b ≡ p.show_privacy_notice
      → IsInformed p
      → IsInformed (click b p)
  unfolding click pressed change_telegram change_discord change_full_name submit_handler
      toggle_privacy_notice toggle
  click-IsInformed (header step) p o h = h
  click-IsInformed continue p o h = h
  click-IsInformed go_to_issue p o h = h
  click-IsInformed telegram_option p o h =
      closed-IsInformed p (change_telegram p) (set_checked-show _ _ _ p) o
  click-IsInformed discord_option p o h =
      closed-IsInformed p (change_discord p) (set_checked-show _ _ _ p) o
  click-IsInformed full_name_option p o h =
      closed-IsInformed p (change_full_name p) (set_checked-show _ _ _ p) o
  click-IsInformed verify p o h = ground arith
  click-IsInformed understood p o h = ground arith
  click-IsInformed cancel p o h = λ k. absurd (false≢true k)
  click-IsInformed close_notice p o h = ground arith

  proved-IsInformed : (o : Outcome) (p : Page) → IsInformed p → IsInformed (proved o p)
  unfolding proved
  proved-IsInformed (no_wallet code) p h = h
  proved-IsInformed creation_failed p h = h
  proved-IsInformed proof_rejected p h = h
  proved-IsInformed verified p h = h

  Step-IsInformed : {p q : Page} → Step p q → IsInformed p → IsInformed q
  unfolding issue_telegram issue_discord proved
  Step-IsInformed (clicked {p} b m) h = click-IsInformed b p (offered_lem p b m) h
  Step-IsInformed (telegram_done {p}) h =
      kept-IsInformed p (issue_telegram p) (set_checked-show _ _ _ p)
        (omega (
          arith,
          checked_count-set_checked true p.discord_checked p.full_name_checked p,
          count_le p.telegram_checked,
        ))
        h
  Step-IsInformed (discord_done {p}) h =
      kept-IsInformed p (issue_discord p) (set_checked-show _ _ _ p)
        (omega (
          arith,
          checked_count-set_checked p.telegram_checked true p.full_name_checked p,
          count_le p.discord_checked,
        ))
        h
  Step-IsInformed (proof_ended {p} o) h = proved-IsInformed o p h

  IsReachable-IsInformed : {p : Page} → IsReachable p → IsInformed p
  unfolding initial
  IsReachable-IsInformed start = λ k. absurd (false≢true k)
  IsReachable-IsInformed (next r st) = Step-IsInformed st (IsReachable-IsInformed r)

  -- On every page that a session reaches by what can be clicked, by logins and by proofs that end,
  -- "I understand" can be clicked only while the privacy notice is open; two options are then set,
  -- so that the click closes the notice without an error and goes on to a proof.
  pub understood_proves :
      {Address Thrown S P Api : Type 0} (create_address : String → String → Result Thrown Address)
      (get_statements : List (Call Address) → S) (request : Api → String → S → Result Thrown P)
      (hash : String → String) (post : P → (timestamp : String) → PostAnswer)
      (telegram discord : Issuer) (provider : Result ConnectionErrorCode Api) (timestamp : String)
      {p : Page}
      → IsReachable p
      → Memᴰ understood (buttons (clickable network telegram_invite discord_invite p))
      → (p.show_privacy_notice ≡ true)
        × (click understood p ≡ hide_notice p)
        × (prove create_address get_statements request hash post telegram discord
              (hide_notice p)
              provider
              timestamp
            ≢ none)
  unfolding prove click pressed
  understood_proves create_address get_statements request hash post telegram discord provider
        timestamp {p} r m =
      let shown : p.show_privacy_notice ≡ true = sym (offered_lem p understood m) in
      let enough : ltb (checked_count p) 2 ≡ false =
        ground (arith, IsReachable-IsInformed r shown) in
      (shown, rw enough refl, ground arith)
