-- ===== src/Explorer/AccountForms/Sets.antt =====
-- The sets that are typed into the forms of AccountStatementBuilders.tsx.
use Prim.Native.Char.{code}
use concordium_web3id.Common.{
  ◌≡◌, String, Bool, true, false, List, [], ◌∷◌, map, refl, ap, ◌∙◌, arith, ok, All, ◌==◌,
  if◌then◌else◌, is_blank, Option, some, ap, Bool-cases, inl, inr,
}
use concordium_web3id.Numbers.{is_space}
use concordium_web3id.Explorer.Builders.{split_comma, trim_left, trim_right, trim}
use concordium_web3id.Explorer.AccountForms.{
  parts, document_issuer_in_call, attribute_in_call, to_attributes_keys, call_of, attribute_in,
  document_issuer_in, membership, non_membership,
}

abbrev pub has_comma : String → Bool
has_comma String.[] = false
has_comma (String.◌∷◌ c s) = if code c == b',' then true else has_comma s

-- A text without commas and without white space at its ends.
pub record IsPlain (s : String) : Type 0 where
  pub no_comma : has_comma s ≡ false
  pub trimmed : trim s ≡ s

-- One text and then another.
abbrev pub followed_by : String → String → String
followed_by String.[] t = t
followed_by (String.◌∷◌ c s) t = String.◌∷◌ c (followed_by s t)

-- The texts with a comma and a space between them.
abbrev pub joined : String → List String → String
joined s [] = s
joined s (t ∷ ts) = followed_by s (String.◌∷◌ "," (String.◌∷◌ " " (joined t ts)))

split_comma-cons : (s : String) → (p : String) × (ps : List String) × (split_comma s ≡ p ∷ ps)
unfolding split_comma
split_comma-cons String.[] = ("", [], refl)
split_comma-cons (String.◌∷◌ c s) =
    let (p, ps, e) = split_comma-cons s in
    elim (Bool-cases (code c == b',')) [
      | inl comma ↦ ("", p ∷ ps, rw (e, comma) refl)
      | inr other ↦ (String.◌∷◌ c p, ps, rw (e, other) refl)
    ]

split_comma-plain : (s : String) → has_comma s ≡ false → split_comma s ≡ s ∷ []
unfolding split_comma
split_comma-plain String.[] h = refl
split_comma-plain (String.◌∷◌ c s) h = ground (arith, split_comma-plain s)

split_comma-append :
    (s t : String)
    → has_comma s ≡ false
    → split_comma (followed_by s (String.◌∷◌ "," t)) ≡ s ∷ split_comma t
unfolding split_comma
split_comma-append String.[] t h = let (p, ps, e) = split_comma-cons t in rw (e) refl
split_comma-append (String.◌∷◌ c s) t h = ground (arith, split_comma-append s t)

-- What is left of a leading space and a text trimmed on the right.
trim_left-space :
    (s : String) → trim_left (if is_blank s then "" else String.◌∷◌ " " s) ≡ trim_left s
unfolding trim_left is_space
trim_left-space String.[] = refl
trim_left-space (String.◌∷◌ c s) = refl

-- A leading space is trimmed.
trim-space : (s : String) → trim (String.◌∷◌ " " s) ≡ trim s
unfolding trim_right is_space
trim-space s = trim_left-space (trim_right s)

parts-space : (s : String) → parts (String.◌∷◌ " " s) ≡ parts s
unfolding parts split_comma
parts-space s =
    let (p, ps, e) = split_comma-cons s in rw e (ap (λ t. t ∷ map trim ps) (trim-space p))

parts-joined : (s : String) (ts : List String) → All IsPlain (s ∷ ts) → parts (joined s ts) ≡ s ∷ ts
unfolding parts
parts-joined s [] h = rw (split_comma-plain s h.0.no_comma) (ap (λ t. t ∷ []) h.0.trimmed)
parts-joined s (t ∷ ts) h =
    rw (split_comma-append s (String.◌∷◌ " " (joined t ts)) h.0.no_comma)
      (rw h.0.trimmed (ap (λ l. s ∷ l) (parts-space (joined t ts) ∙ parts-joined t ts h.1)))

-- One or more texts without commas and without white space at their ends, entered with a comma and
-- a space between them, reach the web SDK as exactly these texts in their order: from the form for
-- the document's issuer, and from those for an attribute in and not in a set whose name is known.
pub call_of-joined :
    {Key : Type 0} (entry : String → Option Key) (id_doc_issuer key : Key) (attribute : String)
    (s : String) (ts : List String)
    → All IsPlain (s ∷ ts)
    → entry attribute ≡ some key
    → (call_of entry id_doc_issuer (document_issuer_in (joined s ts))
        ≡ ok (membership id_doc_issuer (s ∷ ts)))
      × (call_of entry id_doc_issuer (attribute_in attribute true (joined s ts))
          ≡ ok (membership key (s ∷ ts)))
      × (call_of entry id_doc_issuer (attribute_in attribute false (joined s ts))
          ≡ ok (non_membership key (s ∷ ts)))
unfolding call_of document_issuer_in_call attribute_in_call to_attributes_keys
call_of-joined entry id_doc_issuer key attribute s ts plain known =
    let read = parts-joined s ts plain in
    (
      rw read refl,
      rw (to_attributes_keys, known, read) refl,
      rw (to_attributes_keys, known, read) refl,
    )
