-- ===== src/Common/Objects.antt =====
-- JavaScript objects used as maps: the values by key, an assigned key in its old place. The key
-- `__proto__` is left out.
use Prim.Native.String.{String}
use mathlib.Core.Path.{◌≡◌, refl}
use mathlib.Core.Option.{Option, none, some}
use mathlib.Core.List.{List, [], ◌∷◌}
use text.Mathlib.Text.{◌==◌}
use text.Mathlib.TextEquality.{eq_iff}
use native.Mathlib.Omega.{arith}
use concordium_web3id.Common.Tests.{if◌then◌else◌}

module _ {A : Type 0} where
  abbrev pub find : String → List (String × A) → Option A
  find key [] = none
  find key ((k, v) ∷ rest) = if k == key then some v else find key rest

  -- `object[key] = v`
  unfoldable pub assign : String → A → List (String × A) → List (String × A)
  assign key v [] = (key, v) ∷ []
  assign key v ((k, w) ∷ rest) = if k == key then (key, v) ∷ rest else (k, w) ∷ assign key v rest

  pub find-assign :
      (key j : String) (v : A) (l : List (String × A))
      → find j (assign key v l) ≡ (if key == j then some v else find j l)
  unfolding assign
  find-assign key j v [] = refl
  find-assign key j v ((k, w) ∷ rest) =
      ground (arith, eq_iff k key, eq_iff k j, eq_iff key j, find-assign key j v rest)
