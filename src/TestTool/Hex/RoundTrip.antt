-- ===== src/TestTool/Hex/RoundTrip.antt =====
-- Bytes that are written in hexadecimal, two digits each, and read back by `hexToBytes`.
use concordium_web3id.Common.{
  ℕ, zero, suc, ◌+◌, ◌/◌, ◌%◌, ◌<◌, ◌≡◌, String, Option, none, some, List, [], ◌∷◌, map, ltb,
  if◌then◌else◌, refl, arith, All, true, false, Bool, not, ◌&&◌, ◌==◌,
}
use concordium_web3id.Numbers.{SignedInt, parse_hex}
use concordium_web3id.TestTool.Hex.{code_units, pair_up, hex_to_bytes}

-- The code of a digit, in lower case.
abbrev pub hex_digit : ℕ → ℕ
hex_digit d = if ltb d 10 then 48 + d else 87 + d

abbrev pub written : List ℕ → List ℕ
written [] = []
written (b ∷ bs) = hex_digit (b / 16) ∷ hex_digit (b % 16) ∷ written bs

abbrev pub byte : ℕ → Option SignedInt
byte b = some (record { negative = false; magnitude = b })

-- Whether a number that was read is the byte.
accepts : Option SignedInt → ℕ → Bool
accepts none b = false
accepts (some n) b = not n.negative && n.magnitude == b

accepts_eq : (o : Option SignedInt) (b : ℕ) → accepts o b ≡ true → o ≡ byte b
unfolding accepts
accepts_eq none b h = ground arith
accepts_eq (some n) b h = let record { negative = sign; magnitude = value } = n in grind arith

-- Whether a test holds of every number below `n`.
unfoldable pub holds_below : (ℕ → Bool) → ℕ → Bool
holds_below test zero = true
holds_below test (suc n) = test n && holds_below test n

pub holds_below_at : (test : ℕ → Bool) (n b : ℕ) → b < n → holds_below test n ≡ true → test b ≡ true
unfolding holds_below
holds_below_at test zero b lt h = absurd (omega arith)
holds_below_at test (suc n) b lt h = grind (arith, holds_below_at test n b)

is_read : ℕ → Bool
is_read b = accepts (parse_hex (hex_digit (b / 16) ∷ hex_digit (b % 16) ∷ [])) b

every_byte : holds_below is_read 256 ≡ true
unfolding holds_below is_read accepts parse_hex
every_byte = refl

parse_hex-byte :
    (b : ℕ) → b < 256 → parse_hex (hex_digit (b / 16) ∷ hex_digit (b % 16) ∷ []) ≡ byte b
unfolding is_read
parse_hex-byte b h = accepts_eq _ b (holds_below_at is_read 256 b h every_byte)

pair_up-written : (bs : List ℕ) → All (λ b. b < 256) bs → pair_up (written bs) ≡ map byte bs
unfolding pair_up
pair_up-written [] h = refl
pair_up-written (b ∷ bs) h = rw (parse_hex-byte b h.0, pair_up-written bs h.1)

-- A text that writes bytes in hexadecimal, two lower-case digits each, is read as those bytes.
pub hex_to_bytes-written :
    (bs : List ℕ) (hex : String)
    → All (λ b. b < 256) bs
    → code_units hex ≡ written bs
    → hex_to_bytes hex ≡ map byte bs
unfolding hex_to_bytes
hex_to_bytes-written bs hex h e = rw e (pair_up-written bs h)
