-- ===== src/SomeVerifier/Hash.antt =====
-- `hash` of examples/some-verifier/frontend/src/lib/util.ts: the text of a message's digest.
-- `digest` is the runtime's `crypto.subtle.digest` with SHA-256, on bytes.
pub mod Text
use Prim.Native.Char.{Char, code}
use concordium_web3id.Common.{
  ℕ, zero, suc, ◌+◌, ◌/◌, ◌%◌, ◌≡◌, String, List, [], ◌∷◌, ◌++◌, ltb, if◌then◌else◌, refl,
}

-- `new TextEncoder().encode(message)`
abbrev encoded : ℕ → List ℕ
encoded c =
    if ltb c 128
    then c ∷ []
    else if ltb c 2048
    then (192 + c / 64) ∷ (128 + c % 64) ∷ []
    else if ltb c 65536
    then (224 + c / 4096) ∷ (128 + c / 64 % 64) ∷ (128 + c % 64) ∷ []
    else (240 + c / 262144) ∷ (128 + c / 4096 % 64) ∷ (128 + c / 64 % 64) ∷ (128 + c % 64) ∷ []

unfoldable pub encode : String → List ℕ
encode String.[] = []
encode (String.◌∷◌ c s) = encoded (code c) ++ encode s

-- A digit in base 16.
abbrev character : ℕ → String → Char
character n String.[] = "0"
character zero (String.◌∷◌ c s) = c
character (suc n) (String.◌∷◌ c s) = character n s

abbrev pub digit : ℕ → Char
digit d = character d "0123456789abcdef"

-- `b.toString(16).padStart(2, '0')` before a text, for a byte.
abbrev pub padded : ℕ → String → String
padded b rest =
    if ltb b 16
    then String.◌∷◌ "0" (String.◌∷◌ (digit b) rest)
    else String.◌∷◌ (digit (b / 16)) (String.◌∷◌ (digit (b % 16)) rest)

-- `hashArray.map(…).join('')`
unfoldable pub hex : List ℕ → String
hex [] = ""
hex (b ∷ bs) = padded b (hex bs)

unfoldable pub hash : (digest : List ℕ → List ℕ) → String → String
unfolding encode hex
hash digest message = hex (digest (encode message))
