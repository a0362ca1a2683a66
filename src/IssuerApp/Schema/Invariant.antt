-- ===== src/IssuerApp/Schema/Invariant.antt =====
-- The schema that the page of CreateSchemaAndMetadataFiles.tsx builds from its attributes.
use concordium_web3id.Common.{
  ◌≡◌, ◌≢◌, String, Bool, true, false, Option, none, some, List, [], ◌∷◌, ◌++◌, refl, ap, sym, ◌∙◌,
  arith, ok, All, All-append, str_eq, eq_iff, if◌then◌else◌, is_some, Bool-cases, inl, inr,
}
use concordium_web3id.IssuerApp.Schema.{
  AttributeSchema, Entries, Page, empty_page, remove_spaces, is_duplicate, put, array_to_object,
  new_attribute, add_attribute, clear_attributes,
}

abbrev pub lookup : String → Entries → Option AttributeSchema
lookup key [] = none
lookup key ((k, v) ∷ rest) = if str_eq k key then some v else lookup key rest

-- No key stands twice.
abbrev pub HasSingleKeys : Entries → Type 0
HasSingleKeys [] = Unit
HasSingleKeys ((k, v) ∷ rest) = (lookup k rest ≡ none) × HasSingleKeys rest

lookup-append_one :
    (k key : String) (v : AttributeSchema) (l : Entries)
    → lookup k l ≡ none
    → str_eq key k ≡ false
    → lookup k (l ++ (key, v) ∷ []) ≡ none
lookup-append_one k key v [] h e = ground arith
lookup-append_one k key v ((j, w) ∷ l) h e = ground (arith, lookup-append_one k key v l)

append_one-HasSingleKeys :
    (key : String) (v : AttributeSchema) (l : Entries)
    → HasSingleKeys l
    → is_duplicate key l ≡ false
    → HasSingleKeys (l ++ (key, v) ∷ [])
unfolding is_duplicate
append_one-HasSingleKeys key v [] h e = (refl, tt)
append_one-HasSingleKeys key v ((k, w) ∷ l) h e = ground (
  arith,
  eq_iff k key,
  eq_iff key k,
  lookup-append_one k key v l,
  append_one-HasSingleKeys key v l h.1,
)

put_fresh :
    (key : String) (v : AttributeSchema) (l : Entries)
    → is_duplicate key l ≡ false
    → put key v l ≡ l ++ (key, v) ∷ []
unfolding put is_duplicate
put_fresh key v [] h = refl
put_fresh key v ((k, w) ∷ rest) h = ground (arith, put_fresh key v rest)

array_to_object-append_one :
    (acc l : Entries) (key : String) (v : AttributeSchema)
    → array_to_object acc (l ++ (key, v) ∷ []) ≡ put key v (array_to_object acc l)
unfolding array_to_object
array_to_object-append_one acc [] key v = refl
array_to_object-append_one acc ((k, w) ∷ l) key v = array_to_object-append_one (put k w acc) l key v

lookup-append_some :
    (key : String) (l m : Entries)
    → is_some (lookup key l) ≡ true
    → is_some (lookup key (l ++ m)) ≡ true
lookup-append_some key [] m h = cc
lookup-append_some key ((k, v) ∷ l) m h = ground (arith, lookup-append_some key l m)

lookup-append_self :
    (key : String) (v : AttributeSchema) (l : Entries)
    → is_some (lookup key (l ++ (key, v) ∷ [])) ≡ true
lookup-append_self key v [] = ground (arith, eq_iff key key)
lookup-append_self key v ((k, w) ∷ l) = ground (arith, lookup-append_self key v l)

-- The schema's properties are the page's attributes, also built anew, no key stands twice, and every
-- required key is that of an attribute.
pub record IsWellFormed (p : Page) : Type 0 where
  pub same : p.properties ≡ p.attributes
  pub distinct : array_to_object [] p.attributes ≡ p.attributes
  pub single : HasSingleKeys p.attributes
  pub known : All (λ r. is_some (lookup r p.attributes) ≡ true) p.required

All-known :
    (l m : Entries) (rs : List String)
    → All (λ r. is_some (lookup r l) ≡ true) rs
    → All (λ r. is_some (lookup r (l ++ m)) ≡ true) rs
All-known l m [] h = tt
All-known l m (r ∷ rs) h = (lookup-append_some r l m h.0, All-known l m rs h.1)

pub empty_page-IsWellFormed : IsWellFormed empty_page
unfolding array_to_object
empty_page-IsWellFormed = record { same = refl; distinct = refl; single = tt; known = tt }

-- Adding an attribute to a well-formed page, where it does not fail, keeps the page well formed.
pub add_attribute-IsWellFormed :
    (title description : String) (is_required : Bool) (type : String) (p : Page) {q : Page}
    → IsWellFormed p
    → add_attribute title description is_required type p ≡ ok q
    → IsWellFormed q
unfolding add_attribute
add_attribute-IsWellFormed title description is_required type p {q} h e =
    let key = remove_spaces title in
    let v = new_attribute title description type in
    elim (Bool-cases (is_duplicate key p.attributes)) [
      | inl taken ↦ cc (taken)
      | inr fresh ↦
          let built : array_to_object [] (p.attributes ++ (key, v) ∷ [])
              ≡ p.attributes ++ (key, v) ∷ [] =
            array_to_object-append_one [] p.attributes key v
            ∙ ap (put key v) h.distinct
            ∙ put_fresh key v p.attributes fresh in
          let q_attributes : q.attributes ≡ p.attributes ++ (key, v) ∷ [] = ground arith in
          let q_properties : q.properties ≡ array_to_object [] (p.attributes ++ (key, v) ∷ []) =
            ground arith in
          record {
            same = q_properties ∙ built ∙ sym q_attributes;
            distinct = rw q_attributes built;
            single = rw q_attributes (append_one-HasSingleKeys key v p.attributes h.single fresh);
            known = rw q_attributes (elim (Bool-cases is_required) [
              | inl needed ↦
                  let q_required : q.required ≡ p.required ++ key ∷ [] = ground arith in
                  rw q_required (
                    All-append _ p.required (key ∷ [])
                      (All-known p.attributes ((key, v) ∷ []) p.required h.known)
                      (lookup-append_self key v p.attributes, tt))
              | inr optional ↦
                  let q_required : q.required ≡ p.required = ground arith in
                  rw q_required (All-known p.attributes ((key, v) ∷ []) p.required h.known)
            ]);
          }
    ]

-- Clearing the attributes forgets neither the properties nor the required keys: the next attribute
-- that is added makes a schema which still requires a key that no property of it has.
pub clear_attributes_keeps_required :
    (title description : String) (is_required : Bool) (type : String) (p : Page) (r : String)
    (rs : List String)
    → p.required ≡ r ∷ rs
    → r ≢ remove_spaces title
    → (q : Page) × (add_attribute title description is_required type (clear_attributes p) ≡ ok q)
      × ((later : List String) × (q.required ≡ r ∷ later))
      × (lookup r q.properties ≡ none)
unfolding add_attribute clear_attributes is_duplicate array_to_object put
clear_attributes_keeps_required title description is_required type p r rs holds other =
    let key = remove_spaces title in
    let v = new_attribute title description type in
    (
      record {
        attributes = (key, v) ∷ [];
        properties = (key, v) ∷ [];
        required = if is_required then p.required ++ key ∷ [] else p.required;
      },
      refl,
      (if is_required then rs ++ key ∷ [] else rs, ground arith),
      ground (arith, eq_iff key r),
    )
