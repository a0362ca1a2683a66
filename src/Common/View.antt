-- ===== src/Common/View.antt =====
-- What the components draw: the texts, inputs, buttons and alerts of a page in their order, without
-- their style. `Input` says which handler an input's change calls, `Button` which one a click calls.
use Prim.Native.String.{String, ◌++◌ as str_append}
use mathlib.Core.Path.{◌≡◌, refl, ap}
use mathlib.Core.Bool.{Bool, true, false, not}
use mathlib.Core.List.{List, [], ◌∷◌, ◌++◌, map}

-- An `input` is drawn with the value it is given, a `free_input` with what was typed into it. An
-- `action` is a button, which may be disabled.
pub data Node (Input Button : Type 0) : Type 0 where
  text : String → Node Input Button
  link : (label url : String) → Node Input Button
  input : (value : String) → Input → Node Input Button
  free_input : (placeholder : String) → Input → Node Input Button
  switch : (checked : Bool) → Button → Node Input Button
  action : (label : String) → (disabled : Bool) → Button → Node Input Button
  alert : String → Node Input Button

-- `{test && nodes}`
abbrev pub when : {A : Type 0} → Bool → List A → List A
when true xs = xs
when false xs = []

pub when-nil : {A : Type 0} (test : Bool) → when {A = A} test [] ≡ []
when-nil true = refl
when-nil false = refl

pub map-when :
    {A B : Type 0} (f : A → B) (test : Bool) (xs : List A)
    → map f (when test xs) ≡ when test (map f xs)
map-when f true xs = refl
map-when f false xs = refl

module _ {Input Button : Type 0} where
  abbrev pub button : String → Button → Node Input Button
  button label b = action label false b

  -- `Error: {message}.`
  abbrev pub error_alert : String → Node Input Button
  error_alert message = alert (str_append "Error: " (str_append message "."))

  -- The buttons and switches that can be clicked.
  abbrev pub buttons : List (Node Input Button) → List Button
  buttons [] = []
  buttons (action label false b ∷ ns) = b ∷ buttons ns
  buttons (switch checked b ∷ ns) = b ∷ buttons ns
  buttons (_ ∷ ns) = buttons ns

  -- The inputs that are drawn with a value.
  abbrev pub inputs : List (Node Input Button) → List (String × Input)
  inputs [] = []
  inputs (input value i ∷ ns) = (value, i) ∷ inputs ns
  inputs (_ ∷ ns) = inputs ns

  -- The alerts.
  abbrev pub alerts : List (Node Input Button) → List String
  alerts [] = []
  alerts (alert message ∷ ns) = message ∷ alerts ns
  alerts (_ ∷ ns) = alerts ns

  pub buttons-append :
      (ms ns : List (Node Input Button)) → buttons (ms ++ ns) ≡ buttons ms ++ buttons ns
  buttons-append [] ns = refl
  buttons-append (text s ∷ ms) ns = buttons-append ms ns
  buttons-append (link s u ∷ ms) ns = buttons-append ms ns
  buttons-append (input v i ∷ ms) ns = buttons-append ms ns
  buttons-append (free_input p i ∷ ms) ns = buttons-append ms ns
  buttons-append (switch c b ∷ ms) ns = ap (λ l. b ∷ l) (buttons-append ms ns)
  buttons-append (action s false b ∷ ms) ns = ap (λ l. b ∷ l) (buttons-append ms ns)
  buttons-append (action s true b ∷ ms) ns = buttons-append ms ns
  buttons-append (alert s ∷ ms) ns = buttons-append ms ns

  pub buttons-action :
      (label : String) (disabled : Bool) (b : Button) (ns : List (Node Input Button))
      → buttons (action label disabled b ∷ ns) ≡ when (not disabled) (b ∷ []) ++ buttons ns
  buttons-action label false b ns = refl
  buttons-action label true b ns = refl

  pub buttons-when :
      (test : Bool) (ns : List (Node Input Button))
      → buttons (when test ns) ≡ when test (buttons ns)
  buttons-when true ns = refl
  buttons-when false ns = refl

  pub alerts-append :
      (ms ns : List (Node Input Button)) → alerts (ms ++ ns) ≡ alerts ms ++ alerts ns
  alerts-append [] ns = refl
  alerts-append (text s ∷ ms) ns = alerts-append ms ns
  alerts-append (link s u ∷ ms) ns = alerts-append ms ns
  alerts-append (input v i ∷ ms) ns = alerts-append ms ns
  alerts-append (free_input p i ∷ ms) ns = alerts-append ms ns
  alerts-append (switch c b ∷ ms) ns = alerts-append ms ns
  alerts-append (action s d b ∷ ms) ns = alerts-append ms ns
  alerts-append (alert s ∷ ms) ns = ap (λ l. s ∷ l) (alerts-append ms ns)

  pub inputs-append :
      (ms ns : List (Node Input Button)) → inputs (ms ++ ns) ≡ inputs ms ++ inputs ns
  inputs-append [] ns = refl
  inputs-append (text s ∷ ms) ns = inputs-append ms ns
  inputs-append (link s u ∷ ms) ns = inputs-append ms ns
  inputs-append (input v i ∷ ms) ns = ap (λ l. (v, i) ∷ l) (inputs-append ms ns)
  inputs-append (free_input p i ∷ ms) ns = inputs-append ms ns
  inputs-append (switch c b ∷ ms) ns = inputs-append ms ns
  inputs-append (action s d b ∷ ms) ns = inputs-append ms ns
  inputs-append (alert s ∷ ms) ns = inputs-append ms ns

  pub inputs-when :
      (test : Bool) (ns : List (Node Input Button)) → inputs (when test ns) ≡ when test (inputs ns)
  inputs-when true ns = refl
  inputs-when false ns = refl

pub ruleset buttons_laws = (buttons-append, buttons-when, when-nil)

pub ruleset inputs_laws = (inputs-append, inputs-when, when-nil)
