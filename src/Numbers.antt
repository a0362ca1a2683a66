-- ===== src/Numbers.antt =====
-- The runtime's `parseInt(s)` and `BigInt(x)`, on texts as lists of code points. A number is an
-- integer here, since `parseInt` gives nothing else; `none` stands for NaN and for the infinities,
-- on which `BigInt` throws a RangeError; `-0` is zero.
use Prim.Native.Char.{code}
use Prim.Native.Nat.{◌^◌}
use concordium_web3id.Common.{
  ℕ, zero, suc, ◌+◌, ◌-◌, ◌*◌, ◌/◌, ◌%◌, ◌<◌, ◌≡◌, String, Bool, true, false, not, ◌&&◌, ◌||◌,
  Option, none, some, List, [], ◌∷◌, ltb, ◌==◌, if◌then◌else◌, refl, arith,
}

-- A JavaScript integer as its sign and its magnitude; zero is not negative.
pub record SignedInt : Type 0 where
  pub negative : Bool
  pub magnitude : ℕ

abbrev pub codes : String → List ℕ
codes String.[] = []
codes (String.◌∷◌ c s) = code c ∷ codes s

-- White space and line terminators, as `trim` and `parseInt` skip them.
unfoldable pub is_space : ℕ → Bool
is_space c =
    (ltb 8 c && ltb c 14)
    || c == 32
    || c == 160
    || c == 5760
    || (ltb 8191 c && ltb c 8203)
    || c == 8232
    || c == 8233
    || c == 8239
    || c == 8287
    || c == 12288
    || c == 65279

unfoldable pub trim_start : List ℕ → List ℕ
unfolding is_space
trim_start [] = []
trim_start (c ∷ cs) = elim (is_space c) [ true ↦ trim_start cs | false ↦ c ∷ cs ]

-- The value of a digit in a base of at most 16.
abbrev digit : ℕ → Option ℕ
digit c =
    if ltb 47 c && ltb c 58
    then some (c - 48)
    else if ltb 64 c && ltb c 71
    then some (c - 55)
    else if ltb 96 c && ltb c 103
    then some (c - 87)
    else none

abbrev digit_below : ℕ → ℕ → Option ℕ
digit_below base c = elim (digit c) [ none ↦ none | some d ↦ if ltb d base then some d else none ]

-- The digits up to the first other character; nothing if there is none.
digits_value : ℕ → Option ℕ → List ℕ → Option ℕ
digits_value base acc [] = acc
digits_value base acc (c ∷ cs) = elim (digit_below base c) [
  | none ↦ acc
  | some d ↦ digits_value base (some (elim acc [ none ↦ d | some n ↦ n * base + d ])) cs
]

-- After the sign: hexadecimal behind `0x` or `0X`, else decimal.
magnitude : List ℕ → Option ℕ
unfolding digits_value
magnitude (c ∷ x ∷ cs) =
    if c == 48 && (x == 120 || x == 88)
    then digits_value 16 none cs
    else digits_value 10 none (c ∷ x ∷ cs)
magnitude cs = digits_value 10 none cs

-- How often a number is halved until it has 53 bits.
exponent : ℕ → ℕ → ℕ
exponent zero n = 0
exponent (suc fuel) n = let rest = suc (exponent fuel (n / 2)) in if ltb n (2 ^ 53) then 0 else rest

abbrev half_even : ℕ → ℕ → ℕ → ℕ
half_even q r unit =
    if ltb unit (2 * r) || (2 * r == unit && q % 2 == 1) then (q + 1) * unit else q * unit

-- The double nearest to a natural number, ties to even; nothing at Infinity.
pub to_double : ℕ → Option ℕ
unfolding exponent
to_double n =
    let unit = 2 ^ exponent 1100 n in
    let rounded = half_even (n / unit) (n % unit) unit in
    if ltb rounded (2 ^ 1024) then some rounded else none

abbrev signed : Bool → Option ℕ → Option SignedInt
signed negative none = none
signed negative (some n) = some (record { negative = negative && not (n == 0); magnitude = n })

abbrev rounded : Option ℕ → Option ℕ
unfolding to_double
rounded none = none
rounded (some n) = to_double n

unsigned : Bool → List ℕ → Option SignedInt
unfolding magnitude rounded
unsigned negative cs = signed negative (rounded (magnitude cs))

after_space : List ℕ → Option SignedInt
unfolding unsigned
after_space [] = none
after_space (c ∷ cs) =
    if c == 45
    then unsigned true cs
    else if c == 43
    then unsigned false cs
    else unsigned false (c ∷ cs)

-- `parseInt(x, 16)`, where `0x` may stand after the sign.
hex_unsigned : Bool → List ℕ → Option SignedInt
unfolding digits_value rounded
hex_unsigned negative (c ∷ x ∷ cs) =
    if c == 48 && (x == 120 || x == 88)
    then signed negative (rounded (digits_value 16 none cs))
    else signed negative (rounded (digits_value 16 none (c ∷ x ∷ cs)))
hex_unsigned negative cs = signed negative (rounded (digits_value 16 none cs))

hex_after_space : List ℕ → Option SignedInt
unfolding hex_unsigned
hex_after_space [] = none
hex_after_space (c ∷ cs) =
    if c == 45
    then hex_unsigned true cs
    else if c == 43
    then hex_unsigned false cs
    else hex_unsigned false (c ∷ cs)

unfoldable pub parse_hex : List ℕ → Option SignedInt
unfolding hex_after_space trim_start
parse_hex cs = hex_after_space (trim_start cs)

-- `BigInt(parseInt(x))`
unfoldable pub parse_int : List ℕ → Option SignedInt
unfolding after_space trim_start
parse_int cs = after_space (trim_start cs)

exponent-eq-zero : (fuel n : ℕ) → n < 2 ^ 53 → exponent fuel n ≡ 0
unfolding exponent
exponent-eq-zero zero n h = refl
exponent-eq-zero (suc fuel) n h = ground arith

-- Below 2^53 a number is its own double.
pub to_double-eq_self : (n : ℕ) → n < 2 ^ 53 → to_double n ≡ some n
unfolding to_double
to_double-eq_self n h = rw (exponent-eq-zero 1100 n h) (ground arith)
