-- ===== src/TestTool/View/Credential.antt =====
-- The test tool's boxes that register a credential: steps 4 and 11 to 13 of
-- test-tools/issuer-front-end/src/Main.tsx.
use Prim.Native.String.{◌++◌ as str_append}
use concordium_web3id.Common.{
  String, Bool, true, false, not, List, [], ◌∷◌, ◌++◌, is_blank, Option, none, some,
}
use concordium_web3id.Common.View.{text, input, free_input, switch, button, when}
use concordium_web3id.TestTool.Attributes.{AttributeDetails, Message}
use concordium_web3id.TestTool.Register.{
  regular, delayed, wrong_proof, wrong_attributes, Shown, wrong_list,
}
use concordium_web3id.TestTool.Contract.{Page}
use concordium_web3id.TestTool.Fields.{
  Fields, valid_from_date, valid_until_date, credential_meta_data, auxiliary_data,
  attribute_input_place_holder, render_add_prompt,
}
use concordium_web3id.TestTool.View.{
  own, attribute, manual_type, manual_schema, register, issue_delayed, expiry_switch,
  revocable_switch, Nodes, test_box, labelled, error_of, message_text, option_text,
}

abbrev words : List (String × Bool) → String → String
words [] last = last
words ((w, highlighted) ∷ ws) last = str_append w (str_append " " (words ws last))

-- `{attributeSchema.map((item) => …)}`; `wrong` where the list is `WRONG_ATTRIBUTES`.
unfoldable pub attribute_inputs : (wrong : Bool) → List AttributeDetails → Nodes
unfolding render_add_prompt attribute_input_place_holder
attribute_inputs wrong [] = []
attribute_inputs wrong (item ∷ items) =
    text (words (render_add_prompt item) item.tag)
    ∷ free_input (attribute_input_place_holder item) (attribute wrong item.tag)
    ∷ attribute_inputs wrong items

-- The switch for the expiry date and the two dates.
unfoldable pub dates : Fields → Nodes
dates fs =
    text "Credential has expiry date"
      ∷ switch (not fs.has_expiry_date) expiry_switch
      ∷ text "Credential has NO expiry date"
      ∷ labelled "Add `validFrom`:" valid_from_date fs
    ++ when fs.has_expiry_date (labelled "Add`validUntil`:" valid_until_date fs)

unfoldable pub auxiliary : Fields → Nodes
auxiliary fs =
    labelled "Add `AuxiliaryData` (the hex string will be converted into bytes):" auxiliary_data fs
    ++ text "Holder can revoke credential"
      ∷ switch (not fs.holder_revocable) revocable_switch
      ∷ text "Holder can NOT revoke credential"
      ∷ []

abbrev metadata : Fields → Nodes
metadata fs = labelled "Add `CredentialMetadata`:" credential_meta_data fs

-- `{credentialPublicKey && …}`
abbrev public_key_of : String → Nodes
public_key_of key = when (not (is_blank key)) (text "Credential Public Key:" ∷ text key ∷ [])

-- `{parsingError && …}`
abbrev pub parsing_error_of : Option Message → Nodes
parsing_error_of none = []
parsing_error_of (some m) = error_of (message_text m)

-- What stands below the button, and in step 11 also the second button.
abbrev pub registered : Shown → Nodes
registered s = public_key_of s.credential_public_key ++ parsing_error_of s.parsing_error

abbrev pub delayed_registered : Shown → Nodes
delayed_registered s =
    parsing_error_of s.parsing_error
    ++ button "Issuer sends `issueCredential` Tx" issue_delayed
      ∷ public_key_of s.credential_public_key

-- Step 4.
unfoldable pub regular_box : Fields → Page → Shown → Nodes
unfolding attribute_inputs dates auxiliary
regular_box fs p s = test_box "Step 4: Register a credential" (
    attribute_inputs false p.attribute_schema
    ++ dates fs
    ++ metadata fs
    ++ auxiliary fs
    ++ button "Register Credential" (register regular) ∷ registered s)

-- Step 11.
unfoldable pub delayed_box : Fields → Page → Shown → Nodes
unfolding attribute_inputs dates auxiliary
delayed_box fs p s =
    test_box "Step 11: Register a credential (Issuer registers credential with some delay)" (
      attribute_inputs false p.attribute_schema
      ++ dates fs
      ++ metadata fs
      ++ text "Add manually a `CredentialType`:"
        ∷ input (option_text p.manual_type) (own manual_type)
        ∷ text "Add manually a `CredentialSchema`:"
        ∷ input (option_text p.manual_schema) (own manual_schema)
        ∷ auxiliary fs
      ++ button "Register Credential in Browser Wallet" (register delayed) ∷ delayed_registered s)

-- Step 12.
unfoldable pub wrong_proof_box : Fields → Page → Shown → Nodes
unfolding attribute_inputs dates auxiliary
wrong_proof_box fs p s =
    test_box "Step 12: Register a credential (Issuer fails to provide correct randomness/signature)"
      (attribute_inputs false p.attribute_schema
        ++ dates fs
        ++ metadata fs
        ++ auxiliary fs
        ++ button "Register Credential" (register wrong_proof) ∷ registered s)

-- Step 13; the attributes are those of `WRONG_ATTRIBUTES`.
unfoldable pub wrong_attributes_box : Fields → Shown → Nodes
unfolding attribute_inputs dates auxiliary
wrong_attributes_box fs s = test_box "Step 13: Register a credential (with wrong attributes)" (
    attribute_inputs true wrong_list
    ++ dates fs
    ++ metadata fs
    ++ auxiliary fs
    ++ button "Register Credential" (register wrong_attributes) ∷ registered s)
