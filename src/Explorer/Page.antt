-- ===== src/Explorer/Page.antt =====
-- The forms that test-tools/proof-explorer/src/components/ProofExplorer.tsx draws, by column: each
-- column hands its statements to the handler of its kind.
pub mod Known
use concordium_web3id.Common.{String, Bool, true, false, List, [], ◌∷◌, ◌++◌}
use concordium_web3id.Explorer.Types.{Kind}
use concordium_web3id.Explorer.AccountForms.{
  Form, age_bound, document_expiry_no_earlier, document_issuer_in, attribute_in, eu_attribute_in,
  initial,
}

-- A form of a column: one of those for attributes in general, or one for accounts and identities.
pub data PageForm : Type 0 where
  reveal_attribute : PageForm
  attribute_in_range : PageForm
  attribute_in_set : (member : Bool) → PageForm
  account_form : Form → PageForm

-- The middle part of the columns for accounts and for identities, each form as it is first drawn, for
-- the web SDK's `AttributeKeyString.nationality` and `.countryOfResidence`.
abbrev pub account_forms : (nationality country : String) → List Form
account_forms nationality country =
    age_bound true "18"
    ∷ age_bound false "18"
    ∷ Form.age_in_range "18" "64"
    ∷ document_expiry_no_earlier "20250505"
    ∷ document_issuer_in ""
    ∷ attribute_in nationality true ""
    ∷ attribute_in nationality false ""
    ∷ attribute_in country true ""
    ∷ attribute_in country false ""
    ∷ eu_attribute_in true
    ∷ eu_attribute_in false
    ∷ []

abbrev pub general_forms : List PageForm
general_forms = attribute_in_range ∷ attribute_in_set true ∷ attribute_in_set false ∷ []

abbrev pub page_forms : List Form → List PageForm
page_forms [] = []
page_forms (f ∷ fs) = account_form f ∷ page_forms fs

unfoldable pub column : (nationality country : String) → Kind → List PageForm
column nationality country Kind.web3id = reveal_attribute ∷ general_forms
column nationality country Kind.account =
    reveal_attribute ∷ page_forms (account_forms nationality country) ++ general_forms
column nationality country Kind.id =
    reveal_attribute ∷ page_forms (account_forms nationality country) ++ general_forms
