-- ===== src/IssuerApp/Balance.antt =====
-- The account's balance as issuer-front-end/src/Main.tsx and test-tools/issuer-front-end/src/Main.tsx
-- show it, `accountBalance.replace(/(\d)(?=(\d\d\d\d\d\d)+(?!\d))/g, '$1.')`, and the state that the
-- queries for the account set. The node comes in by its answers.
pub mod Points
use Prim.Native.Char.{Char, code}
use concordium_web3id.Common.{
  ℕ, suc, ◌%◌, String, Bool, true, false, not, ◌&&◌, Option, none, some, Result, ok, err, ltb, ◌==◌,
  if◌then◌else◌,
}

-- `\d`
abbrev pub is_digit : Char → Bool
is_digit c = ltb 47 (code c) && ltb (code c) 58

-- How many digits a text starts with.
unfoldable pub run : String → ℕ
run String.[] = 0
run (String.◌∷◌ c s) = if is_digit c then suc (run s) else 0

-- The lookahead: one or more groups of six digits, and no digit after them.
unfoldable pub groups_follow : String → Bool
unfolding run
groups_follow s = ltb 0 (run s) && run s % 6 == 0

unfoldable pub show_balance : String → String
unfolding groups_follow
show_balance String.[] = ""
show_balance (String.◌∷◌ c s) =
    if is_digit c && groups_follow s
    then String.◌∷◌ c (String.◌∷◌ "." (show_balance s))
    else String.◌∷◌ c (show_balance s)

-- `accountBalance`, `viewErrorAccountBalance` and `accountExistsOnNetwork`.
pub record Account : Type 0 where
  pub balance : String
  pub view_error : String
  pub exists : Bool

abbrev pub unknown : Account
unknown = record { balance = ""; view_error = ""; exists = true }

-- `s.replaceAll('%20', ' ')`
unfoldable pub spaced : String → String
spaced (String.◌∷◌ a (String.◌∷◌ b (String.◌∷◌ c s))) =
    let shorter = spaced s in
    let rest = spaced (String.◌∷◌ b (String.◌∷◌ c s)) in
    if code a == b'%' && code b == b'2' && code c == b'0'
    then String.◌∷◌ " " shorter
    else String.◌∷◌ a rest
spaced s = s

-- The answer to a query for the account: it failed with a message, there is no client, or the amount
-- in microCCD as decimal digits.
unfoldable pub answered : Result String (Option String) → Account → Account
unfolding spaced
answered (ok (some amount)) a = record { balance = amount; view_error = ""; exists = true }
answered (ok none) a = record a { view_error = "" }
answered (err message) a = record { balance = ""; view_error = spaced message; exists = false }
