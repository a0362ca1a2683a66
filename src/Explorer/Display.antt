-- ===== src/Explorer/Display.antt =====
-- test-tools/proof-explorer/src/components/statements/StatementDisplay.tsx: what the page shows of
-- the statement under construction. `show_id`, `show_number` and `show_address` are the texts of an
-- identity provider's number, of a `bigint` and of `[index, subindex]`.
pub mod Banner
use Prim.Native.String.{◌++◌ as str_append}
use concordium_web3id.Common.{ℕ, String, Bool, List, [], ◌∷◌, map, is_empty, if◌then◌else◌}
use concordium_web3id.Explorer.Types.{IdentityProvider, TopLevelStatement, atoms}
use concordium_web3id.Explorer.Builders.{
  Value, text, number, timestamp, AtomicStatement, reveal_attribute, attribute_in_range,
  attribute_in_set, attribute_not_in_set,
}

-- The box above a credential statement: red without issuers, else with one line for each.
pub data IssuerBox : Type 0 where
  no_issuers : (message : String) → IssuerBox
  allowed : (heading : String) (lines : List String) → IssuerBox

-- The box of an atomic statement: its heading, the attribute and the labelled lines.
pub record Item : Type 0 where
  pub heading : String
  pub tag : String
  pub lines : List (String × String)

-- The page's part for the statement.
pub record Shown : Type 0 where
  pub boxes : List (IssuerBox × List Item)
  pub new_statement_started : Bool

-- `v.toString()`; a timestamp is an object without a `toString` of its own.
unfoldable pub to_string : {N : Type 0} (show_number : N → String) → Value N → String
to_string show_number (text s) = s
to_string show_number (number n) = show_number n
to_string show_number (timestamp t) = "[object Object]"

-- `set.join(', ')`
unfoldable pub join : {N : Type 0} (show_number : N → String) → List (Value N) → String
unfolding to_string
join show_number [] = ""
join show_number (v ∷ []) = to_string show_number v
join show_number (v ∷ w ∷ vs) =
    str_append (to_string show_number v) (str_append ", " (join show_number (w ∷ vs)))

unfoldable pub item : {N : Type 0} (show_number : N → String) → AtomicStatement N → Item
unfolding to_string join
item show_number (reveal_attribute tag) = record {
  heading = "Reveal attribute";
  tag = tag;
  lines = [];
}
item show_number (attribute_in_range tag lower upper) = record {
  heading = "Attribute in range";
  tag = tag;
  lines = ("Lower: ", to_string show_number lower) ∷ ("Upper: ", to_string show_number upper) ∷ [];
}
item show_number (attribute_in_set tag set) = record {
  heading = "Attribute in set";
  tag = tag;
  lines = ("Set: ", join show_number set) ∷ [];
}
item show_number (attribute_not_in_set tag set) = record {
  heading = "Attribute not in set";
  tag = tag;
  lines = ("Set: ", join show_number set) ∷ [];
}

module _ {Address : Type 0} (show_id : ℕ → String) (show_address : Address → String) where
  abbrev pub provider_line : IdentityProvider → String
  provider_line p = str_append (show_id p.id) (str_append ":" p.name)

  abbrev pub box : String → String → List String → IssuerBox
  box message heading lines = if is_empty lines then no_issuers message else allowed heading lines

  -- `Issuer`
  unfoldable pub issuer_box : {A : Type 0} → TopLevelStatement A Address → IssuerBox
  issuer_box (TopLevelStatement.id idps s) =
      box "No issuers selected for an identity credential statement."
        "Statement about an identity credential" (map provider_line idps)
  issuer_box (TopLevelStatement.account idps s) =
      box "No issuers selected for an account statement." "Statement about an account credential"
        (map provider_line idps)
  issuer_box (TopLevelStatement.web3id issuers s) =
      box "No issuers selected for Web3Id credential statement."
        "Statement about a Web3ID credential" (map show_address issuers)

  -- `Statement`
  unfoldable pub statement :
      {N : Type 0} (show_number : N → String)
      → List (TopLevelStatement (AtomicStatement N) Address)
      → (new_statement : Bool) → Shown
  unfolding issuer_box item
  statement show_number inner new_statement = record {
    boxes = map (λ s. (issuer_box s, map (item show_number) (atoms s))) inner;
    new_statement_started = new_statement;
  }
