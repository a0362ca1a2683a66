-- ===== src/TestTool/Hex.antt =====
-- `hexToBytes` of test-tools/issuer-front-end/src/Main.tsx, on the text's UTF-16 code units.
pub mod RoundTrip
use Prim.Native.Char.{code}
use concordium_web3id.Common.{
  ℕ, ◌+◌, ◌-◌, ◌/◌, ◌%◌, ◌≡◌, String, Bool, true, false, Option, none, some, List, [], ◌∷◌, ◌++◌,
  ltb, if◌then◌else◌, refl,
}
use concordium_web3id.Numbers.{SignedInt, parse_hex}

-- A character beyond U+FFFF is a pair of surrogates.
abbrev units_of : ℕ → List ℕ
units_of c =
    if ltb c 65536 then c ∷ [] else (55296 + (c - 65536) / 1024) ∷ (56320 + (c - 65536) % 1024) ∷ []

unfoldable pub code_units : String → List ℕ
code_units String.[] = []
code_units (String.◌∷◌ c s) = units_of (code c) ++ code_units s

-- `for (let c = 0; c < hex.length; c += 2) bytes.push(parseInt(hex.substr(c, 2), 16))`: the last
-- slice may have one code unit, and `none` is NaN.
unfoldable pub pair_up : List ℕ → List (Option SignedInt)
pair_up [] = []
pair_up (a ∷ []) = parse_hex (a ∷ []) ∷ []
pair_up (a ∷ b ∷ rest) = parse_hex (a ∷ b ∷ []) ∷ pair_up rest

unfoldable pub hex_to_bytes : String → List (Option SignedInt)
unfolding code_units pair_up parse_hex
hex_to_bytes hex = pair_up (code_units hex)

hex_to_bytes_test :
    hex_to_bytes "83fe0dz1 f-"
    ≡ some (record { negative = false; magnitude = 131 })
      ∷ some (record { negative = false; magnitude = 254 })
      ∷ some (record { negative = false; magnitude = 13 })
      ∷ none
      ∷ some (record { negative = false; magnitude = 15 })
      ∷ none
      ∷ []
unfolding hex_to_bytes
hex_to_bytes_test = refl
