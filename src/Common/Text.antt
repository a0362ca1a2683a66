-- ===== src/Common/Text.antt =====
-- JavaScript strings as native strings: a string's `length` counts UTF-16 code units.
use Prim.Native.Nat.{ℕ, ◌+◌}
use Prim.Native.Char.{Char, code}
use Prim.Native.String.{String}
use mathlib.Core.Path.{◌≡◌, refl}
use mathlib.Core.Logic.{◌≢◌}
use mathlib.Core.Bool.{Bool, true, false}
use mathlib.Core.List.{List, [], ◌∷◌}
use text.Mathlib.Text.{◌==◌}
use text.Mathlib.TextEquality.{eq_iff}
use text.Mathlib.TextLemmas.{cons-ne-nil}
use concordium_web3id.Common.Tests.{ltb, ◌==◌ as same_number, if◌then◌else◌}

-- The code units of one character: two (a surrogate pair) above U+FFFF.
abbrev pub units : Char → ℕ
units c = if ltb (code c) 65536 then 1 else 2

-- `s.length`
abbrev pub utf16_length : String → ℕ
utf16_length String.[] = 0
utf16_length (String.◌∷◌ c s) = units c + utf16_length s

-- `s === ''`; a string is falsy exactly when it is empty
abbrev pub is_blank : String → Bool
is_blank String.[] = true
is_blank (String.◌∷◌ c s) = false

-- `list.includes(s)`
abbrev pub includes : List String → String → Bool
includes [] s = false
includes (t ∷ ts) s = elim (t == s) [ true ↦ true | false ↦ includes ts s ]

abbrev pub starts_with : String → String → Bool
starts_with String.[] s = true
starts_with (String.◌∷◌ c p) String.[] = false
starts_with (String.◌∷◌ c p) (String.◌∷◌ d s) =
    if same_number (code c) (code d) then starts_with p s else false

-- `/p/.test(s)` for a pattern `p` of plain characters
abbrev pub contains : String → String → Bool
contains p String.[] = is_blank p
contains p (String.◌∷◌ c s) = elim (starts_with p (String.◌∷◌ c s)) [
  | true ↦ true
  | false ↦ contains p s
]

pub not-is_blank : (s : String) → s ≢ "" → is_blank s ≡ false
not-is_blank String.[] h = absurd (h refl)
not-is_blank (String.◌∷◌ c s) h = refl

pub ne_of_not-is_blank : (s : String) → is_blank s ≡ false → s ≢ ""
ne_of_not-is_blank String.[] h = cc
ne_of_not-is_blank (String.◌∷◌ c s) h = cons-ne-nil c s

pub ne_of_str_eq : (s t : String) → (s == t) ≡ false → s ≢ t
ne_of_str_eq s t h e = let same : (s == t) ≡ true = (eq_iff s t).1 e in cc (h, same)
