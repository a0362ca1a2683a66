-- ===== src/IssuerApp/Balance/Points.antt =====
-- Where a shown balance has points.
use Prim.Native.Char.{Char, code}
use concordium_web3id.Common.{
  ℕ, suc, ◌≡◌, ◌+◌, ◌-◌, ◌/◌, ◌%◌, String, Bool, true, ◌==◌, refl, ap, arith, if◌then◌else◌, not,
  ◌&&◌, ◌||◌,
}
use concordium_web3id.IssuerApp.Balance.{is_digit, run, groups_follow, show_balance}

-- A text of digits only.
abbrev pub AllDigits : String → Type 0
AllDigits String.[] = Unit
AllDigits (String.◌∷◌ c s) = (is_digit c ≡ true) × AllDigits s

abbrev pub length : String → ℕ
length String.[] = 0
length (String.◌∷◌ c s) = suc (length s)

abbrev is_point : Char → Bool
is_point c = code c == b'.'

-- How many points a text has, and the text without them.
abbrev pub points : String → ℕ
points String.[] = 0
points (String.◌∷◌ c s) = if is_point c then suc (points s) else points s

unfoldable pub without_points : String → String
without_points String.[] = ""
without_points (String.◌∷◌ c s) =
    if is_point c then without_points s else String.◌∷◌ c (without_points s)

run-AllDigits : (s : String) → AllDigits s → run s ≡ length s
unfolding run
run-AllDigits String.[] h = refl
run-AllDigits (String.◌∷◌ c s) h = rw h.0 (ap suc (run-AllDigits s h.1))

without_points-show_balance : (s : String) → AllDigits s → without_points (show_balance s) ≡ s
unfolding without_points show_balance
without_points-show_balance String.[] h = refl
without_points-show_balance (String.◌∷◌ c s) h =
    ground (arith, h.0, without_points-show_balance s h.1)

points-show_balance : (s : String) → AllDigits s → points (show_balance s) ≡ (length s - 1) / 6
unfolding show_balance groups_follow
points-show_balance String.[] h = refl
points-show_balance (String.◌∷◌ c s) h =
    ground (arith, h.0, run-AllDigits s h.1, points-show_balance s h.1)

-- Whether exactly six digits, and then a point or the end, stand behind every point.
abbrev pub is_grouped : String → Bool
is_grouped String.[] = true
is_grouped (String.◌∷◌ c s) = (not (is_point c) || run s == 6) && is_grouped s

-- The shown text starts with what is left over of groups of six, or with a whole group.
run-show_balance :
    (s : String)
    → AllDigits s
    → run (show_balance s) ≡ (length s - 1) % 6 + (if length s == 0 then 0 else 1)
unfolding run show_balance groups_follow
run-show_balance String.[] h = refl
run-show_balance (String.◌∷◌ c s) h =
    ground (arith, h.0, run-AllDigits s h.1, run-show_balance s h.1)

is_grouped-show_balance : (s : String) → AllDigits s → is_grouped (show_balance s) ≡ true
unfolding run show_balance groups_follow
is_grouped-show_balance String.[] h = refl
is_grouped-show_balance (String.◌∷◌ c s) h =
    ground (arith, h.0, run-AllDigits s h.1, run-show_balance s h.1, is_grouped-show_balance s h.1)

-- A balance of n digits is shown with (n - 1) / 6 points, rounded down, so with none up to six
-- digits and with one from seven to twelve; six digits stand behind each point; and without its
-- points the shown text is the balance.
pub show_balance_lem :
    (s : String)
    → AllDigits s
    → (points (show_balance s) ≡ (length s - 1) / 6)
      × (is_grouped (show_balance s) ≡ true)
      × (without_points (show_balance s) ≡ s)
show_balance_lem s h =
    (points-show_balance s h, is_grouped-show_balance s h, without_points-show_balance s h)
