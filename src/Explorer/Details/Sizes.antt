-- ===== src/Explorer/Details/Sizes.antt =====
-- How sizes and long texts are shown in ProofDetails.tsx.
use concordium_web3id.Common.{
  ℕ, ◌≡◌, ◌⊎◌, ◌≤◌, ◌<◌, ◌+◌, ◌-◌, ◌*◌, ◌/◌, String, true, false, some, List, [], ◌∷◌, ◌++◌, refl,
  ◌∙◌, arith, inl, inr, ltb, length, length-append, utf16_length, Bool-cases, if◌then◌else◌,
}
use concordium_web3id.Common.Json.{string}
use concordium_web3id.Explorer.Details.{
  bytes, kilobytes, megabytes, to_tenths, size_of, units_of, utf16, take, whole, start, expanded,
}
use concordium_web3id.Explorer.Details.Rows.{truncated_text}

-- The number of tenths is the nearest one: it differs from the size by half a tenth at most.
abbrev pub IsNearest : (unit tenths n : ℕ) → Type 0
IsNearest unit tenths n = (unit * tenths ≤ 10 * n + unit / 2) × (10 * n < unit * tenths + unit / 2)

-- A size below 1024 is shown in bytes; one below 1048576 in kilobytes, from 1.0 to 1024.0; any other
-- in megabytes, from 1.0; kilobytes and megabytes to the nearest tenth.
pub size_of_lem :
    (n : ℕ)
    → ((n < 1024) × (size_of n ≡ bytes n))
      ⊎ ((t : ℕ) × (1024 ≤ n)
          × (n < 1048576)
          × (size_of n ≡ kilobytes t)
          × (10 ≤ t)
          × (t ≤ 10240)
          × IsNearest 1024 t n)
      ⊎ ((t : ℕ) × (1048576 ≤ n) × (size_of n ≡ megabytes t) × (10 ≤ t) × IsNearest 1048576 t n)
unfolding size_of
size_of_lem n = elim (Bool-cases (ltb n 1024)) [
  | inl small ↦ inl (ground arith, ground arith)
  | inr large ↦ elim (Bool-cases (ltb n 1048576)) [
    | inl middle ↦ inr (
        inl (
          to_tenths 1024 n,
          ground arith,
          ground arith,
          ground arith,
          ground arith,
          ground arith,
          (ground arith, ground arith),
        ))
    | inr huge ↦ inr (
        inr (
          to_tenths 1048576 n,
          ground arith,
          ground arith,
          ground arith,
          (ground arith, ground arith),
        ))
  ]
]

length-utf16 : (s : String) → length (utf16 s) ≡ utf16_length s
length-utf16 String.[] = refl
length-utf16 (String.◌∷◌ c s) =
    length-append (units_of c) (utf16 s) ∙ ground (arith, length-utf16 s)

-- What follows the start that is taken.
abbrev drop : ℕ → List ℕ → List ℕ
drop n [] = []
drop n (u ∷ us) = let rest = drop (n - 1) us in if ltb 0 n then rest else u ∷ us

take-append-drop : (n : ℕ) (us : List ℕ) → us ≡ take n us ++ drop n us
take-append-drop n [] = refl
take-append-drop n (u ∷ us) = ground (arith, take-append-drop (n - 1) us)

length-take : (n : ℕ) (us : List ℕ) → n ≤ length us → length (take n us) ≡ n
length-take n [] h = ground arith
length-take n (u ∷ us) h = ground (arith, length-take (n - 1) us)

-- A text of at most so many code units is shown whole. A longer one is shown by exactly that many of
-- its first code units with the number of all of them until it is expanded, and then by all.
pub truncated_text_lem :
    (max : ℕ) (s : String)
    → ((utf16_length s ≤ max)
        × (truncated_text false max (some (string s)) ≡ some (whole (utf16 s)))
        × (truncated_text true max (some (string s)) ≡ some (whole (utf16 s))))
      ⊎ ((shown rest : List ℕ) × (max < utf16_length s)
          × (truncated_text false max (some (string s)) ≡ some (start shown (utf16_length s)))
          × (length shown ≡ max)
          × (utf16 s ≡ shown ++ rest)
          × (truncated_text true max (some (string s)) ≡ some (expanded (utf16 s))))
unfolding truncated_text
truncated_text_lem max s = elim (Bool-cases (ltb max (length (utf16 s)))) [
  | inr short ↦
      let size : utf16_length s ≤ max = ground (arith, length-utf16 s) in
      inl (size, rw short refl, rw short refl)
  | inl long ↦
      let size : max < length (utf16 s) = ground arith in
      inr (
        take max (utf16 s),
        drop max (utf16 s),
        rw (length-utf16 s) at size,
        rw (long, length-utf16 s) refl,
        length-take max (utf16 s) (ground arith),
        take-append-drop max (utf16 s),
        rw long refl,
      )
]
