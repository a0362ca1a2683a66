-- ===== src/Explorer/Issuers.antt =====
-- `parseIssuers` of test-tools/proof-explorer/src/services/credential-provider-services.tsx.
use concordium_web3id.Common.{
  ℕ, ◌≡◌, String, Bool, true, false, not, none, some, List, [], ◌∷◌, ◌==◌, refl, is_empty, select,
}
use concordium_web3id.Explorer.Types.{SignedInt}
use concordium_web3id.Numbers.{codes, trim_start, parse_int}

-- `s.split(',')`: at least one part.
unfoldable pub split_comma : List ℕ → List (List ℕ)
split_comma [] = [] ∷ []
split_comma (c ∷ cs) = elim (split_comma cs) [
  | [] ↦ (c ∷ []) ∷ []
  | p ∷ ps ↦ elim (c == 44) [ true ↦ [] ∷ p ∷ ps | false ↦ (c ∷ p) ∷ ps ]
]

-- `x.trim().length != 0`: what is not white space throughout.
abbrev pub is_written : List ℕ → Bool
unfolding trim_start
is_written part = not (is_empty (trim_start part))

-- The parts that are numbers, in order.
abbrev pub numbers : List (List ℕ) → List SignedInt
unfolding parse_int
numbers [] = []
numbers (p ∷ ps) = elim (parse_int p) [ none ↦ numbers ps | some n ↦ n ∷ numbers ps ]

unfoldable pub parse_issuers : String → List SignedInt
unfolding split_comma parse_int
parse_issuers s = numbers (select is_written (split_comma (codes s)))

parse_issuers_test :
    parse_issuers "5916, 5830,, x,-7,0x1F"
    ≡ record { negative = false; magnitude = 5916 }
      ∷ record { negative = false; magnitude = 5830 }
      ∷ record { negative = true; magnitude = 7 }
      ∷ record { negative = false; magnitude = 31 }
      ∷ []
unfolding parse_issuers
parse_issuers_test = refl
