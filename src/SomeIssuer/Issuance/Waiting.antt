-- ===== src/SomeIssuer/Issuance/Waiting.antt =====
-- The loop of `requestCredential` that waits for the transaction, and the holder that it reads out of
-- the credential's id.
use Prim.Native.Char.{Char, code}
use Prim.Native.String.{◌++◌ as str_append}
use Prim.Native.String.append
use concordium_web3id.Common.{
  ℕ, zero, suc, ◌≡◌, String, Bool, false, Option, none, some, List, [], ◌∷◌, ◌++◌, ◌==◌, ◌||◌, refl,
  ap, ◌∙◌, arith, get_last?, get_last?-append_one, Bool-cases, inl, inr,
}
use concordium_web3id.SomeIssuer.Issuance.{
  NodeAnswer, finalized, not_found, rpc_error, Ending, returned, thrown, waiting, wait, split_colon,
  holder_of, or_blank,
}

-- How an answer ends the loop, if it does.
abbrev pub decided : NodeAnswer → Option Ending
decided finalized = some returned
decided not_found = none
decided (rpc_error message) = some (thrown message)

abbrev pub unknown : ℕ → List NodeAnswer
unknown zero = []
unknown (suc n) = not_found ∷ unknown n

-- However often the node has not found the transaction, the loop ends in the round of the first
-- other answer: it returns if that is the finalization, and throws the error otherwise.
pub wait_ends :
    (n : ℕ) (answer : NodeAnswer) (later : List NodeAnswer) {e : Ending}
    → decided answer ≡ some e
    → wait (unknown n ++ answer ∷ later) ≡ (e, suc n)
unfolding wait
wait_ends zero finalized later d = ground arith
wait_ends zero not_found later d = cc
wait_ends zero (rpc_error message) later d = ground arith
wait_ends (suc n) answer later d = rw (wait_ends n answer later d) refl

-- Until then it goes on.
wait_goes_on : (n : ℕ) → wait (unknown n) ≡ (waiting, n)
unfolding wait
wait_goes_on zero = refl
wait_goes_on (suc n) = rw (wait_goes_on n) refl

abbrev pub has_colon : String → Bool
has_colon String.[] = false
has_colon (String.◌∷◌ c s) = code c == 58 || has_colon s

split_colon_whole : (s : String) → has_colon s ≡ false → split_colon s ≡ s ∷ []
unfolding split_colon
split_colon_whole String.[] h = refl
split_colon_whole (String.◌∷◌ c s) h = ground (arith, split_colon_whole s)

-- What the parts of a text with a last colon are.
abbrev EndsWith : List String → String → Type 0
EndsWith parts key =
    (first : String) × (middle : List String) × (parts ≡ (first ∷ middle) ++ key ∷ [])

split_colon-cons :
    (c : Char) (s first : String) (middle : List String) (key : String)
    → split_colon s ≡ (first ∷ middle) ++ key ∷ []
    → EndsWith (split_colon (String.◌∷◌ c s)) key
unfolding split_colon
split_colon-cons c s first middle key e = elim (Bool-cases (code c == 58)) [
  | inl colon ↦ ("", first ∷ middle, rw (e, colon) refl)
  | inr other ↦ (String.◌∷◌ c first, middle, rw (e, other) refl)
]

split_colon-last :
    (prefix key : String)
    → has_colon key ≡ false
    → EndsWith (split_colon (str_append prefix (String.◌∷◌ ":" key))) key
unfolding split_colon
split_colon-last String.[] key h =
    ("", [], rw (append.nil (String.◌∷◌ ":" key), split_colon_whole key h) refl)
split_colon-last (String.◌∷◌ c s) key h =
    let (first, middle, e) = split_colon-last s key h in
    let (first', middle', e') =
      split_colon-cons c (str_append s (String.◌∷◌ ":" key)) first middle key e in
    (first', middle', ap split_colon (append.cons c s (String.◌∷◌ ":" key)) ∙ e')

last_of :
    (id key : String) {parts : List String}
    → split_colon id ≡ parts
    → get_last? parts ≡ some key
    → holder_of id ≡ key
unfolding holder_of
last_of id key e last = ap or_blank (ap get_last? e ∙ last)

-- The holder is what stands behind the last colon of the credential's id.
pub holder_of-last :
    (prefix key : String)
    → has_colon key ≡ false
    → holder_of (str_append prefix (String.◌∷◌ ":" key)) ≡ key
unfolding holder_of
holder_of-last prefix key h =
    let (first, middle, e) = split_colon-last prefix key h in
    last_of (str_append prefix (String.◌∷◌ ":" key)) key e
      (get_last?-append_one (first ∷ middle) key)
