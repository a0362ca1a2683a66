-- ===== src/Common/Lists.antt =====
-- Lists measured by native numbers, and predicates on lists by recursion.
use Prim.Native.Nat.{ℕ, suc, ◌+◌}
use mathlib.Core.Path.{◌≡◌, refl, ap}
use mathlib.Core.Bool.{Bool, true, false}
use mathlib.Core.Option.{Option, none, some}
use mathlib.Core.List.{List, [], ◌∷◌, ◌++◌, map}
use native.Mathlib.Omega.{arith}

module _ {ℓ} {A : Type ℓ} where
  abbrev pub length : List A → ℕ
  length [] = 0
  length (x ∷ xs) = suc (length xs)

  abbrev pub is_empty : List A → Bool
  is_empty [] = true
  is_empty (x ∷ xs) = false

  -- The elements that pass a Boolean test, in order.
  abbrev pub select : (A → Bool) → List A → List A
  select p [] = []
  select p (x ∷ xs) = elim (p x) [ true ↦ x ∷ select p xs | false ↦ select p xs ]

  -- All elements but the last.
  abbrev pub init : List A → List A
  init [] = []
  init (x ∷ []) = []
  init (x ∷ y ∷ xs) = x ∷ init (y ∷ xs)

  abbrev pub get_last? : List A → Option A
  get_last? [] = none
  get_last? (x ∷ []) = some x
  get_last? (x ∷ y ∷ xs) = get_last? (y ∷ xs)

  -- The list with a function applied to its last element.
  abbrev pub map_last : (A → A) → List A → List A
  map_last f [] = []
  map_last f (x ∷ []) = f x ∷ []
  map_last f (x ∷ y ∷ xs) = x ∷ map_last f (y ∷ xs)

  pub length-append : (xs ys : List A) → length (xs ++ ys) ≡ length xs + length ys
  length-append [] ys = omega arith
  length-append (x ∷ xs) ys = omega (arith, length-append xs ys)

  pub select-append :
      (p : A → Bool) (xs ys : List A) → select p (xs ++ ys) ≡ select p xs ++ select p ys
  select-append p [] ys = refl
  select-append p (x ∷ xs) ys = ground (arith, select-append p xs ys)

  pub get_last?-append_one : (xs : List A) (x : A) → get_last? (xs ++ x ∷ []) ≡ some x
  get_last?-append_one [] x = refl
  get_last?-append_one (y ∷ []) x = refl
  get_last?-append_one (y ∷ z ∷ xs) x = get_last?-append_one (z ∷ xs) x

  pub init-append_one : (xs : List A) (x : A) → init (xs ++ x ∷ []) ≡ xs
  init-append_one [] x = refl
  init-append_one (y ∷ []) x = refl
  init-append_one (y ∷ z ∷ xs) x = ap (λ t. y ∷ t) (init-append_one (z ∷ xs) x)

  pub init-append_two : (xs : List A) (x y : A) → init (xs ++ x ∷ y ∷ []) ≡ xs ++ x ∷ []
  init-append_two [] x y = refl
  init-append_two (z ∷ []) x y = refl
  init-append_two (z ∷ w ∷ xs) x y = ap (λ t. z ∷ t) (init-append_two (w ∷ xs) x y)

  pub map_last-append_one :
      (f : A → A) (xs : List A) (x : A) → map_last f (xs ++ x ∷ []) ≡ xs ++ f x ∷ []
  map_last-append_one f [] x = refl
  map_last-append_one f (y ∷ []) x = refl
  map_last-append_one f (y ∷ z ∷ xs) x = ap (λ t. y ∷ t) (map_last-append_one f (z ∷ xs) x)

  pub length-map_last : (f : A → A) (xs : List A) → length (map_last f xs) ≡ length xs
  length-map_last f [] = refl
  length-map_last f (x ∷ []) = refl
  length-map_last f (x ∷ y ∷ xs) = ap suc (length-map_last f (y ∷ xs))

  pub is_empty-append_one : (xs : List A) (x : A) → is_empty (xs ++ x ∷ []) ≡ false
  is_empty-append_one [] x = refl
  is_empty-append_one (y ∷ xs) x = refl

  pub is_empty-map_last : (f : A → A) (xs : List A) → is_empty (map_last f xs) ≡ is_empty xs
  is_empty-map_last f [] = refl
  is_empty-map_last f (x ∷ []) = refl
  is_empty-map_last f (x ∷ y ∷ xs) = refl

module _ {ℓ κ} {A : Type ℓ} {B : Type κ} where
  pub length-map : (g : A → B) (xs : List A) → length (map g xs) ≡ length xs
  length-map g [] = refl
  length-map g (x ∷ xs) = ap suc (length-map g xs)

  pub map-init : (g : A → B) (xs : List A) → map g (init xs) ≡ init (map g xs)
  map-init g [] = refl
  map-init g (x ∷ []) = refl
  map-init g (x ∷ y ∷ xs) = ap (λ t. g x ∷ t) (map-init g (y ∷ xs))

  pub map-map_last :
      (g : A → B) (f : A → A) (h : B → B)
      → ((x : A) → g (f x) ≡ h (g x))
      → (xs : List A) → map g (map_last f xs) ≡ map_last h (map g xs)
  map-map_last g f h eq [] = refl
  map-map_last g f h eq (x ∷ []) = ap (λ t. t ∷ []) (eq x)
  map-map_last g f h eq (x ∷ y ∷ xs) = ap (λ t. g x ∷ t) (map-map_last g f h eq (y ∷ xs))

module _ {ℓ κ} {A : Type ℓ} (P : A → Type κ) where
  abbrev pub All : List A → Type κ
  All [] = Unit
  All (x ∷ xs) = P x × All xs

  pub All-append : (xs ys : List A) → All xs → All ys → All (xs ++ ys)
  All-append [] ys h k = k
  All-append (x ∷ xs) ys h k = (h.0, All-append xs ys h.1 k)
