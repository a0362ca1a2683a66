-- ===== src/Explorer/Details.antt =====
-- test-tools/proof-explorer/src/components/ProofDetails.tsx: the helpers that turn sizes and texts
-- into what the dialog shows. The code divides numbers of bytes by a power of two, exactly as long
-- as they are below 2^53; `toFixed(1)` rounds to the nearest tenth, a half upwards.
pub mod Rows
pub mod Credential
pub mod Dialog
pub mod Sizes
pub mod Faithful
use Prim.Native.Char.{Char, code}
use Prim.Native.String.{◌++◌ as str_append}
use concordium_web3id.Common.{
  ℕ, ◌+◌, ◌-◌, ◌*◌, ◌/◌, ◌%◌, String, Bool, true, false, List, [], ◌∷◌, ◌++◌, ltb, if◌then◌else◌,
  str_eq, ◌||◌,
}

-- A size as it is shown: whole bytes, or tenths of a kilobyte or of a megabyte.
pub data Size : Type 0 where
  bytes : ℕ → Size
  kilobytes : (tenths : ℕ) → Size
  megabytes : (tenths : ℕ) → Size

-- The nearest tenth of `n / unit`.
abbrev pub to_tenths : ℕ → ℕ → ℕ
to_tenths unit n = (10 * n + unit / 2) / unit

-- `formatSize`, by its three cases and then as a text.
unfoldable pub size_of : ℕ → Size
size_of n =
    if ltb n 1024
    then bytes n
    else if ltb n 1048576
    then kilobytes (to_tenths 1024 n)
    else megabytes (to_tenths 1048576 n)

abbrev pub tenths_text : (show : ℕ → String) → ℕ → String
tenths_text show t = str_append (show (t / 10)) (str_append "." (show (t % 10)))

abbrev pub size_text : (show : ℕ → String) → Size → String
size_text show (bytes n) = str_append (show n) " bytes"
size_text show (kilobytes t) = str_append (tenths_text show t) " KB"
size_text show (megabytes t) = str_append (tenths_text show t) " MB"

unfoldable pub format_size : (show : ℕ → String) → ℕ → String
unfolding size_of
format_size show n = size_text show (size_of n)

-- `new TextEncoder().encode(s).length`
abbrev pub utf8_units : Char → ℕ
utf8_units c =
    if ltb (code c) 128
    then 1
    else if ltb (code c) 2048
    then 2
    else if ltb (code c) 65536
    then 3
    else 4

abbrev pub utf8_length : String → ℕ
utf8_length String.[] = 0
utf8_length (String.◌∷◌ c s) = utf8_units c + utf8_length s

-- The code units of a text.
abbrev pub units_of : Char → List ℕ
units_of c =
    if ltb (code c) 65536
    then code c ∷ []
    else (55296 + (code c - 65536) / 1024) ∷ (56320 + (code c - 65536) % 1024) ∷ []

abbrev pub utf16 : String → List ℕ
utf16 String.[] = []
utf16 (String.◌∷◌ c s) = units_of c ++ utf16 s

-- `l.substring(0, n)`
abbrev pub take : ℕ → List ℕ → List ℕ
take n [] = []
take n (u ∷ us) = let rest = take (n - 1) us in if ltb 0 n then u ∷ rest else []

-- What `TruncatedText` shows of a text: all of it, or its start with the number of its code units
-- behind "[Show More]", or all of it with "[Show Less]".
pub data Truncated : Type 0 where
  whole : List ℕ → Truncated
  start : List ℕ → (chars : ℕ) → Truncated
  expanded : List ℕ → Truncated
