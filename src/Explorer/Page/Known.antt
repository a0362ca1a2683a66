-- ===== src/Explorer/Page/Known.antt =====
-- The names of attributes in the forms of ProofExplorer.tsx.
use concordium_web3id.Common.{
  ◌≡◌, String, Bool, true, false, Option, some, List, [], ◌∷◌, ok, refl, All, ◌++◌,
}
use concordium_web3id.Explorer.Types.{Kind}
use concordium_web3id.Explorer.AccountForms.{
  Call, Form, age_bound, document_expiry_no_earlier, document_issuer_in, attribute_in,
  eu_attribute_in, change, call_of, attribute_in_call, to_attributes_keys, membership,
  non_membership, parts,
}
use concordium_web3id.Explorer.Page.{
  PageForm, account_form, account_forms, page_forms, general_forms, column,
}

module _ {Key : Type 0} (entry : String → Option Key) where
  -- The enumeration has the form's attribute, if the form has one.
  abbrev IsKnown : Form → Type 0
  IsKnown (attribute_in attribute member set) = (k : Key) × (entry attribute ≡ some k)
  IsKnown _ = Unit

  -- The texts typed one after another, each with whether it goes to the second input.
  abbrev pub change_all : List (Bool × String) → Form → Form
  change_all [] f = f
  change_all ((second, s) ∷ es) f = change_all es (change second s f)

  change-IsKnown : (second : Bool) (s : String) (f : Form) → IsKnown f → IsKnown (change second s f)
  unfolding change
  change-IsKnown second s (age_bound younger bound) h = tt
  change-IsKnown false s (Form.age_in_range lower upper) h = tt
  change-IsKnown true s (Form.age_in_range lower upper) h = tt
  change-IsKnown second s (document_expiry_no_earlier lower) h = tt
  change-IsKnown second s (document_issuer_in set) h = tt
  change-IsKnown second s (attribute_in attribute member set) h = h
  change-IsKnown second s (eu_attribute_in nationality) h = tt

  change_all-IsKnown :
      (es : List (Bool × String)) (f : Form) → IsKnown f → IsKnown (change_all es f)
  change_all-IsKnown [] f h = h
  change_all-IsKnown ((second, s) ∷ es) f h =
      change_all-IsKnown es (change second s f) (change-IsKnown second s f h)

  -- The button of a form asks the builder for a call and does not throw.
  abbrev pub IsCalled : Key → Form → Type 0
  IsCalled id_doc_issuer f = (call : Call Key) × (call_of entry id_doc_issuer f ≡ ok call)

  call_of-known : (id_doc_issuer : Key) (f : Form) → IsKnown f → IsCalled id_doc_issuer f
  unfolding call_of attribute_in_call
  call_of-known i (age_bound younger bound) h = (_, refl)
  call_of-known i (Form.age_in_range lower upper) h = (_, refl)
  call_of-known i (document_expiry_no_earlier lower) h = (_, refl)
  call_of-known i (document_issuer_in set) h = (_, refl)
  call_of-known i (attribute_in attribute true set) h =
      (membership h.0 (parts set), rw (to_attributes_keys, h.1) refl)
  call_of-known i (attribute_in attribute false set) h =
      (non_membership h.0 (parts set), rw (to_attributes_keys, h.1) refl)
  call_of-known i (eu_attribute_in nationality) h = (_, refl)

  -- The same for a form of a column after the texts are typed into it, if it is one for accounts.
  abbrev pub Works : Key → List (Bool × String) → PageForm → Type 0
  Works id_doc_issuer es (account_form f) = IsCalled id_doc_issuer (change_all es f)
  Works id_doc_issuer es _ = Unit

  call_of-typed :
      (id_doc_issuer : Key) (es : List (Bool × String)) (f : Form)
      → IsKnown f
      → IsCalled id_doc_issuer (change_all es f)
  call_of-typed i es f h = call_of-known i (change_all es f) (change_all-IsKnown es f h)

  All-page_forms :
      (id_doc_issuer : Key) (es : List (Bool × String)) (fs : List Form) (rest : List PageForm)
      → All IsKnown fs
      → All (Works id_doc_issuer es) rest
      → All (Works id_doc_issuer es) (page_forms fs ++ rest)
  All-page_forms i es [] rest h r = r
  All-page_forms i es (f ∷ fs) rest h r =
      (call_of-typed i es f h.0, All-page_forms i es fs rest h.1 r)

  account_forms-AreKnown :
      (nationality country : String) {n c : Key}
      → entry nationality ≡ some n
      → entry country ≡ some c
      → All IsKnown (account_forms nationality country)
  account_forms-AreKnown nationality country {n} {c} hn hc =
      (tt, (tt, (tt, (tt, (tt, ((n, hn), ((n, hn), ((c, hc), ((c, hc), (tt, (tt, tt)))))))))))

  -- Whatever is typed into a form of any column, its button "Add", if it is one of those for accounts
  -- and identities, calls the builder and throws nothing of its own, provided that `AttributesKeys`
  -- has the two attributes that the page names.
  pub column-Works :
      (id_doc_issuer : Key) (nationality country : String) (k : Kind) (es : List (Bool × String))
      {n c : Key}
      → entry nationality ≡ some n
      → entry country ≡ some c
      → All (Works id_doc_issuer es) (column nationality country k)
  unfolding column
  column-Works i nationality country Kind.web3id es hn hc = (tt, (tt, (tt, (tt, tt))))
  column-Works i nationality country Kind.account es hn hc = (
    tt,
    All-page_forms i es (account_forms nationality country) general_forms
        (account_forms-AreKnown nationality country hn hc) (tt, (tt, (tt, tt))),
  )
  column-Works i nationality country Kind.id es hn hc = (
    tt,
    All-page_forms i es (account_forms nationality country) general_forms
        (account_forms-AreKnown nationality country hn hc) (tt, (tt, (tt, tt))),
  )
