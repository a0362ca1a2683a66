-- ===== src/Explorer/Tags.antt =====
-- The attributes' tags that `Issuers` of test-tools/proof-explorer/src/services/
-- credential-provider-services.tsx collects from the issuers' schemas, and the identity providers
-- that are checked there. The node and `fetch` come in by what they give for each issuer.
pub mod Labels
use concordium_web3id.Common.{
  ℕ, ◌≡◌, String, Bool, true, false, Option, none, some, List, [], ◌∷◌, ◌++◌, ◌==◌, map, includes,
  str_eq, init, refl, arith, if◌then◌else◌,
}

pub record Tag : Type 0 where
  pub value : Option String
  pub label : String
  pub type : Option String

-- An entry of a schema's attributes; `const` is its `properties.type.const`.
pub record Entry : Type 0 where
  pub title : Option String
  pub type : String
  pub const : String

abbrev pub dummy : Tag
dummy = record { value = some "Dummy"; label = "Dummy value for testing"; type = none }

abbrev pub labels : List Tag → List String
labels tags = map (λ t. t.label) tags

-- The update of the tags by one attribute.
unfoldable pub add_tag : String × Entry → List Tag → List Tag
add_tag (tag, v) tags =
    if includes (labels tags) tag
    then tags
    else record {
      value = v.title;
      label = tag;
      type = some (if str_eq v.type "object" then v.const else v.type);
    }
      ∷ tags

unfoldable pub add_tags : List (String × Entry) → List Tag → List Tag
unfolding add_tag
add_tags [] tags = tags
add_tags (e ∷ es) tags = add_tags es (add_tag e tags)

-- What is found for an issuer: nothing if a call fails, or the attributes of its schema.
pub data Found : Type 0 where
  unread : Found
  attributes : List (String × Entry) → Found

unfoldable pub add_found : List Found → List Tag → List Tag
unfolding add_tags
add_found [] tags = tags
add_found (unread ∷ rest) tags = add_found rest tags
add_found (attributes es ∷ rest) tags = add_found rest (add_tags es tags)

-- `fetchContracts`, one found for each issuer.
unfoldable pub fetch_contracts : List Found → List Tag
unfolding add_found
fetch_contracts found = add_found found (dummy ∷ [])

-- `splice(indexOf(id), 1)`: without the first occurrence, or without the last element if there is
-- none, since the index is then -1.
abbrev pub without : ℕ → List ℕ → Option (List ℕ)
without id [] = none
without id (x ∷ xs) =
    if x == id then some xs else elim (without id xs) [ none ↦ none | some ys ↦ some (x ∷ ys) ]

unfoldable pub handle_check : (checked : Bool) → (id : ℕ) → List ℕ → List ℕ
handle_check true id ids = ids ++ id ∷ []
handle_check false id ids = elim (without id ids) [ none ↦ init ids | some rest ↦ rest ]
