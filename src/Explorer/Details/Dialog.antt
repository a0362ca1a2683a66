-- ===== src/Explorer/Details/Dialog.antt =====
-- The dialog of test-tools/proof-explorer/src/components/ProofDetails.tsx: its two views and the
-- switch between them. A proof is an object literal, so its `toString()` is that of every object.
use concordium_web3id.Common.{
  ℕ, String, Bool, true, false, Option, none, some, List, [], ◌∷◌, ◌++◌, if◌then◌else◌,
  utf16_length, is_blank,
}
use concordium_web3id.Common.Json.{Json, array, string, nil, cons, get}
use concordium_web3id.Explorer.Builders.{◌>>=◌}
use concordium_web3id.Explorer.Details.{format_size, utf8_length}
use concordium_web3id.Explorer.Details.Rows.{
  Row, pre, badges, title, StatementTypes, draw, when, badge_list,
}
use concordium_web3id.Explorer.Details.Credential.{all_rows, badge_row, render_credential}

pub data Proof : Type 0 where
  presentation : Json → Proof
  presentation_v1 : Json → Proof

abbrev pub value : Proof → Json
value (presentation v) = v
value (presentation_v1 v) = v

-- `proof.toString()`
abbrev pub proof_text : Proof → String
proof_text proof = "[object Object]"

-- What the buttons "Copy to Clipboard" and "Copy Raw Data" write.
unfoldable pub copied : Proof → String
copied proof = proof_text proof

-- The line with the size: the size as text, and the number of characters.
unfoldable pub size_line : (show : ℕ → String) → Proof → String × ℕ
unfolding format_size
size_line show proof =
    (format_size show (utf8_length (proof_text proof)), utf16_length (proof_text proof))

pub data Shown : Type 0 where
  nothing : Shown
  raw_view : (size : String × ℕ) (json : String) → Shown
  structured_view : (size : String × ℕ) (rows : List Row) → Shown

-- `viewMode`, which starts as 'structured', and the button that switches it.
pub data ViewMode : Type 0 where
  structured raw : ViewMode

unfoldable pub switch_view : ViewMode → ViewMode
switch_view structured = raw
switch_view raw = structured

module _ (show : ℕ → String) (date : Json → String) (stringify : Json → Option String)
    (to_lower : String → String) (to_json : Json → Option Json) (types : StatementTypes) where
  -- `getProofType`, where `to_json` is a presentation's `toJSON()`.
  unfoldable pub get_proof_type : Proof → Option (Option Json)
  get_proof_type (presentation_v1 v) = do j ← to_json v; some (get "type" (some j))
  get_proof_type (presentation v) = some (get "type" (some v))

  abbrev pub type_badges : Option Json → Option (List Row)
  type_badges (some (array items)) = do
    bs ← badge_list to_lower items
    some (badges "Type:" bs ∷ [])
  type_badges x = badge_row date stringify to_lower x

  unfoldable pub credential_rows : Option Json → Option (List Row)
  unfolding render_credential draw when
  credential_rows (some (array (cons x rest))) = do
    rows ← all_rows (render_credential date stringify to_lower types) (cons x rest)
    some (title "Verifiable Credentials" ∷ rows)
  credential_rows (some (array nil)) = some []
  credential_rows (some (string s)) = if is_blank s then some [] else none
  credential_rows x = when x (some [])

  abbrev pub context_rows : Option Json → Option (List Row)
  context_rows none = some []
  context_rows (some c) = do s ← stringify c; some (pre "Presentation Context:" s ∷ [])

  -- `renderStructuredView`
  unfoldable pub render_structured_view : Proof → Option Shown
  unfolding get_proof_type when badge_list credential_rows size_line
  render_structured_view proof = do
    type ← get_proof_type proof
    let context = get "presentationContext" (some (value proof))
    context' ← when context (context_rows context)
    types' ← when type (type_badges type)
    credentials ← credential_rows (get "verifiableCredential" (some (value proof)))
    some (structured_view (size_line show proof) (context' ++ types' ++ credentials))

  -- `renderRawView`
  unfoldable pub render_raw_view : Proof → Option Shown
  unfolding size_line
  render_raw_view proof = do s ← stringify (value proof); some (raw_view (size_line show proof) s)

  -- `ProofDetails`
  unfoldable pub proof_details : (is_open : Bool) → Option Proof → ViewMode → Option Shown
  unfolding render_structured_view render_raw_view
  proof_details is_open none mode = some nothing
  proof_details false (some proof) mode = some nothing
  proof_details true (some proof) structured = render_structured_view proof
  proof_details true (some proof) raw = render_raw_view proof
