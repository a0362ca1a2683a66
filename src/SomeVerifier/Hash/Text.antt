-- ===== src/SomeVerifier/Hash/Text.antt =====
-- The text of a digest tells the digest.
use Prim.Native.Char.{code}
use concordium_web3id.Common.{
  ℕ, ◌*◌, ◌/◌, ◌%◌, ◌<◌, ◌≡◌, ◌↔◌, String, true, Bool, List, [], ◌∷◌, map, refl, ap, sym, ◌∙◌,
  arith, All, ltb, ◌==◌, length, Bool-cases, inl, inr, Option, some, none,
}
use concordium_web3id.Numbers.{SignedInt}
use concordium_web3id.TestTool.Hex.{code_units, hex_to_bytes}
use concordium_web3id.TestTool.Hex.RoundTrip.{
  hex_digit, written, byte, holds_below, holds_below_at, hex_to_bytes-written,
}
use concordium_web3id.SomeVerifier.Hash.{digit, padded, hex, encode, hash}

is_digit_of : ℕ → Bool
is_digit_of d = code (digit d) == hex_digit d

every_digit : holds_below is_digit_of 16 ≡ true
unfolding holds_below is_digit_of
every_digit = refl

code-digit : (d : ℕ) → d < 16 → code (digit d) ≡ hex_digit d
unfolding is_digit_of
code-digit d h =
    let same : (code (digit d) == hex_digit d) ≡ true =
      holds_below_at is_digit_of 16 d h every_digit in
    ground arith

-- A digit is one code unit.
code_units-digit :
    (d : ℕ) (s : String) → d < 16 → code_units (String.◌∷◌ (digit d) s) ≡ hex_digit d ∷ code_units s
unfolding code_units
code_units-digit d s h =
    let small : ltb (hex_digit d) 65536 ≡ true = ground arith in rw (code-digit d h, small) refl

-- The code units of a text that starts with a byte's two digits.
code_units-padded :
    (b : ℕ) (s : String)
    → b < 256
    → code_units (padded b s) ≡ hex_digit (b / 16) ∷ hex_digit (b % 16) ∷ code_units s
code_units-padded b s h = elim (Bool-cases (ltb b 16)) [
  | inl low ↦
      let none_above : b / 16 ≡ 0 = ground arith in
      let itself : b % 16 ≡ b = ground arith in
      rw (low, none_above, itself)
        (code_units-digit 0 _ (omega arith)
          ∙ ap (λ l. hex_digit 0 ∷ l) (code_units-digit b s (ground arith)))
  | inr high ↦ rw high (
      code_units-digit (b / 16) _ (ground arith)
      ∙ ap (λ l. hex_digit (b / 16) ∷ l) (code_units-digit (b % 16) s (ground arith)))
]

code_units-hex : (bs : List ℕ) → All (λ b. b < 256) bs → code_units (hex bs) ≡ written bs
unfolding code_units hex
code_units-hex [] h = refl
code_units-hex (b ∷ bs) h =
    code_units-padded b (hex bs) h.0
    ∙ ap (λ l. hex_digit (b / 16) ∷ hex_digit (b % 16) ∷ l) (code_units-hex bs h.1)

length-written : (bs : List ℕ) → length (written bs) ≡ 2 * length bs
length-written [] = refl
length-written (b ∷ bs) = ground (arith, length-written bs)

magnitude_of : Option SignedInt → ℕ
magnitude_of none = 0
magnitude_of (some n) = n.magnitude

magnitudes : List (Option SignedInt) → List ℕ
unfolding magnitude_of
magnitudes [] = []
magnitudes (o ∷ os) = magnitude_of o ∷ magnitudes os

magnitudes-map : (bs : List ℕ) → magnitudes (map byte bs) ≡ bs
unfolding magnitudes
magnitudes-map [] = refl
magnitudes-map (b ∷ bs) = ap (λ l. b ∷ l) (magnitudes-map bs)

-- If the runtime's digest has 32 bytes, the text of a message's digest has 64 code units and is read
-- back as the digest of the message's encoding, so that two messages have the same text exactly when
-- their digests are the same.
pub hash_lem :
    (digest : List ℕ → List ℕ) (m n : String)
    → ((x : List ℕ) → length (digest x) ≡ 32)
    → ((x : List ℕ) → All (λ b. b < 256) (digest x))
    → (length (code_units (hash digest m)) ≡ 64)
      × (hex_to_bytes (hash digest m) ≡ map byte (digest (encode m)))
      × (hash digest m ≡ hash digest n ↔ digest (encode m) ≡ digest (encode n))
unfolding hash
hash_lem digest m n sized bytes =
    let read = λ (t : String).
      hex_to_bytes-written (digest (encode t)) (hex (digest (encode t))) (bytes (encode t))
        (code_units-hex (digest (encode t)) (bytes (encode t))) in
    (
      rw (code_units-hex (digest (encode m)) (bytes (encode m)))
          (length-written (digest (encode m)) ∙ ap (λ k. 2 * k) (sized (encode m))),
      read m,
      (
        λ same.
            sym (magnitudes-map (digest (encode m)))
            ∙ ap magnitudes (sym (read m) ∙ ap hex_to_bytes same ∙ read n)
            ∙ magnitudes-map (digest (encode n)),
        λ same. ap hex same,
      ),
    )
