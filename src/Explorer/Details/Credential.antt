-- ===== src/Explorer/Details/Credential.antt =====
-- test-tools/proof-explorer/src/components/ProofDetails.tsx: `renderProofItem` and
-- `renderCredential`, as rows; `none` where drawing throws.
use concordium_web3id.Common.{
  ℕ, String, false, ◌||◌, Option, none, some, List, [], ◌∷◌, ◌++◌, if◌then◌else◌,
}
use concordium_web3id.Common.Json.{Json, string, array, Items, nil, cons, get}
use concordium_web3id.Explorer.Builders.{◌>>=◌}
use concordium_web3id.Explorer.Details.Rows.{
  Row, row, badges, long, title, StatementTypes, member, draw, when, truncated_text, to_text,
  equals, badge, badge_list, format_value, format_set, render_statement,
}

abbrev pub all_rows : (Json → Option (List Row)) → Items → Option (List Row)
all_rows f nil = some []
all_rows f (cons x rest) = do r ← f x; rs ← all_rows f rest; some (r ++ rs)

unfoldable pub long_row : String → ℕ → Option Json → Option (List Row)
unfolding truncated_text
long_row label max x = do t ← truncated_text false max x; some (long label t ∷ [])

module _ (date : Json → String) (stringify : Json → Option String)
    (to_lower : String → String) where
  -- `{x !== undefined && row}` with a formatted value
  unfoldable pub bound_row : String → Option Json → Option (List Row)
  unfolding format_value
  bound_row label none = some []
  bound_row label (some x) = do s ← format_value date stringify (some x); some (row label s ∷ [])

  unfoldable pub bound_rows : Option Json → Option (List Row)
  unfolding bound_row
  bound_rows x = do
    lower ← bound_row "Lower Bound:" (get "lower" x)
    upper ← bound_row "Upper Bound:" (get "upper" x)
    some (lower ++ upper)

  unfoldable pub member_rows : Option Json → Option (List Row)
  unfolding format_set
  member_rows none = some []
  member_rows (some set) = do s ← format_set date stringify (some set); some (row "Set:" s ∷ [])

  abbrev pub typed_rows : Option Json → Option Json → Option (List Row)
  typed_rows type x =
      if equals type "AttributeInRange"
      then bound_rows x
      else if equals type "AttributeInSet" || equals type "AttributeNotInSet"
      then member_rows (get "set" x)
      else some []

  abbrev pub badge_row : Option Json → Option (List Row)
  badge_row none = none
  badge_row (some x) = do b ← badge to_lower x; some (badges "Type:" (b ∷ []) ∷ [])

  abbrev pub child_row : String → Option Json → Option (List Row)
  child_row label x = do s ← draw x; some (row label s ∷ [])

  -- `renderProofItem`
  unfoldable pub render_proof_item : Json → Option (List Row)
  unfolding member when badge draw bound_rows member_rows long_row
  render_proof_item j = do
    type ← member "type" (some j)
    let x = some j
    badge' ← when type (badge_row type)
    attribute ← when (get "attribute" x) (child_row "Attribute:" (get "attribute" x))
    typed ← typed_rows type x
    proof ← when (get "proof" x) (long_row "Proof:" 40 (get "proof" x))
    some (badge' ++ attribute ++ typed ++ proof)

  -- The part "Type:" of a credential.
  unfoldable pub type_row : Option Json → Option (List Row)
  unfolding badge badge_list
  type_row (some (array items)) = do bs ← badge_list to_lower items; some (badges "Type:" bs ∷ [])
  type_row x = do b ← badge to_lower (string (to_text x)); some (badges "Type:" (b ∷ []) ∷ [])

  unfoldable pub value_rows : Option Json → Option (List Row)
  unfolding render_proof_item long_row
  value_rows (some (array items)) = all_rows render_proof_item items
  value_rows (some (string s)) = long_row "Proof Value:" 50 (some (string s))
  value_rows (some x) = do s ← stringify x; long_row "Proof Value:" 50 (some (string s))
  value_rows none = some []

  -- The sections of the credential's subject.
  unfoldable pub proof_rows : Option Json → Option (List Row)
  unfolding draw when value_rows
  proof_rows proof = do
    type ← draw (get "type" proof)
    let created = get "created" proof
    let value = get "proofValue" proof
    created_row ←
        when created (elim created [ none ↦ none | some d ↦ some (row "Created:" (date d) ∷ []) ])
    value' ← when value (value_rows value)
    some (title "Proof" ∷ row "Type:" type ∷ created_row ++ value')

  unfoldable pub statement_rows : StatementTypes → Option Json → Option (List Row)
  unfolding render_statement
  statement_rows types (some (array items)) = do
    rows ← all_rows (λ x. render_statement date stringify types (some x)) items
    some (title "Statements" ∷ rows)
  statement_rows types x = do
    rows ← render_statement date stringify types x
    some (title "Statements" ∷ rows)

  unfoldable pub subject_rows : StatementTypes → Option Json → Option (List Row)
  unfolding when proof_rows statement_rows
  subject_rows types subject = do
    let statement = get "statement" subject
    let proof = get "proof" subject
    statements ← when statement (statement_rows types statement)
    proofs ← when proof (proof_rows proof)
    some (statements ++ proofs)

  -- `renderCredential`: the pattern at its start throws on `undefined` and `null`, and so does the
  -- subject's `id`, which is read before the test for a subject.
  unfoldable pub render_credential : StatementTypes → Json → Option (List Row)
  unfolding member when type_row subject_rows long_row
  render_credential types c = do
    subject ← member "credentialSubject" (some c)
    issuer ← long_row "Issuer:" 40 (get "issuer" (some c))
    type ← type_row (get "type" (some c))
    id ← member "id" subject
    id' ← long_row "Credential Subject ID:" 40 id
    sections ← when subject (subject_rows types subject)
    some (issuer ++ type ++ id' ++ sections)
