-- ===== src/Examples/HashRuns.antt =====
-- Tests of the text of a digest.
use concordium_web3id.Common.{ℕ, ◌≡◌, ◌↔◌, ◌<◌, List, [], ◌∷◌, map, refl, arith, All, length}
use concordium_web3id.TestTool.Hex.{code_units, hex_to_bytes}
use concordium_web3id.TestTool.Hex.RoundTrip.{byte}
use concordium_web3id.SomeVerifier.Hash.{encode, hex, hash}
use concordium_web3id.SomeVerifier.Hash.Text.{hash_lem}

abbrev eight : List ℕ → List ℕ
eight rest = 0 ∷ 15 ∷ 16 ∷ 127 ∷ 128 ∷ 200 ∷ 254 ∷ 255 ∷ rest

-- In place of SHA-256: the same 32 bytes for every message.
abbrev digest : List ℕ → List ℕ
digest message = eight (eight (eight (eight [])))

eight_small : (rest : List ℕ) → All (λ b. b < 256) rest → All (λ b. b < 256) (eight rest)
eight_small rest h = (
  omega arith,
  (
    omega arith,
    (omega arith, (omega arith, (omega arith, (omega arith, (omega arith, (omega arith, h)))))),
  ),
)

bytes_small : (x : List ℕ) → All (λ b. b < 256) (digest x)
bytes_small x =
    eight_small (eight (eight (eight [])))
      (eight_small (eight (eight [])) (eight_small (eight []) (eight_small [] tt)))

hex_run : hex (0 ∷ 10 ∷ 255 ∷ []) ≡ "000aff"
unfolding hex
hex_run = refl

encode_run : encode "aé€" ≡ 97 ∷ 195 ∷ 169 ∷ 226 ∷ 130 ∷ 172 ∷ []
unfolding encode
encode_run = refl

hash_lem_example :
    (length (code_units (hash digest "a")) ≡ 64)
    × (hex_to_bytes (hash digest "a") ≡ map byte (digest (encode "a")))
    × (hash digest "a" ≡ hash digest "b" ↔ digest (encode "a") ≡ digest (encode "b"))
hash_lem_example = hash_lem digest "a" "b" (λ x. refl) bytes_small
