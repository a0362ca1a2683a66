-- ===== src/TestTool/Register/Consistent.antt =====
-- The credential that Main.tsx registers in the contract, the one it asks the backend to sign and
-- the one that the wallet holds.
use Prim.Native.String.{◌++◌}
use Prim.Native.String.append
use Prim.Native.Char.{Char}
use concordium_web3id.Common.{
  ◌≡◌, ◌≢◌, ◌↔◌, String, Bool, true, Option, none, some, [], ◌∷◌, ok, err, Result, refl, is_some,
  All, arith, ap, utf16_length,
}
use concordium_web3id.Registry.Types.{Index, Transaction, Error}
use concordium_web3id.Registry.Safety.{target, named, contract_at}
use concordium_web3id.Registry.Writing.{issue_credential}
use concordium_web3id.TestTool.Attributes.Form.{is_readable, parse_attributes_from_form_iff}
use concordium_web3id.TestTool.Register.{
  Scenario, regular, delayed, wrong_proof, wrong_attributes, Inputs, Credential, press, form_of,
  issuer_did, contract_of, kind_of, Commitments,
}
use concordium_web3id.TestTool.Register.Calls.{
  key_of_id, take_out, drop_prefix, did_prefix, commitments_of, register, registration_for,
}

drop_prefix-append : (p key : String) → drop_prefix p (p ++ key) ≡ some key
unfolding drop_prefix
drop_prefix-append String.[] key = ap some (append.nil key)
drop_prefix-append (String.◌∷◌ c p) key =
    rw (append.cons c p key) (ground (arith, drop_prefix-append p key))

take_out_found :
    (c : Char) (p id : String) {key : String}
    → drop_prefix (String.◌∷◌ c p) id ≡ some key
    → take_out (String.◌∷◌ c p) id ≡ key
unfolding take_out drop_prefix
take_out_found c p String.[] e = ground arith
take_out_found c p (String.◌∷◌ d id) e = grind arith

-- The key in an id that the wallet makes of the prefix and a key.
key_of_id-prefixed : (key : String) → key_of_id (did_prefix ++ key) ≡ key
unfolding key_of_id
key_of_id-prefixed key =
    take_out_found "d" "id:ccd:testnet:pkc:" (did_prefix ++ key) (drop_prefix-append did_prefix key)

module _ {Schema Keys : Type 0} (iso_string : String → Option String) where
  registration_for-named :
      (i : Inputs) (n : Index) (key : String) {t : Transaction Schema Keys}
      → registration_for iso_string i n key ≡ ok t
      → (target t.payload ≡ contract_at (some n))
        × (named t.parameter ≡ key ∷ [])
        × (utf16_length key ≡ 64)
  unfolding registration_for issue_credential
  registration_for-named i n key e = ground arith

  registered :
      (i : Inputs) (n : Index) (key : String) {t : Transaction Schema Keys}
      → some (registration_for iso_string i n (key_of_id (did_prefix ++ key))) ≡ some (ok t)
      → (target t.payload ≡ contract_at (some n))
        × (named t.parameter ≡ key ∷ [])
        × (utf16_length key ≡ 64)
  registered i n key {t} e =
      let is_key = key_of_id-prefixed key in registration_for-named i n key {t = t} cc

  register-named :
      (sc : Scenario) (i : Inputs) (n : Index) (key : String) {t : Transaction Schema Keys}
      → register iso_string sc i n (did_prefix ++ key) ≡ some (ok t)
      → (target t.payload ≡ contract_at (some n))
        × (named t.parameter ≡ key ∷ [])
        × (utf16_length key ≡ 64)
  unfolding register
  register-named regular i n key e = registered i n key e
  register-named delayed i n key e = cc
  register-named wrong_proof i n key e = registered i n key e
  register-named wrong_attributes i n key e = registered i n key e

module _ {Big : Type 0} (big_int : String → Option Big) (is_date : String → Bool)
    (show : Index → String) where
  press_index :
      (sc : Scenario) (i : Inputs) (provider : Bool) {n : Index} {c : Credential Big}
      → (press big_int is_date show sc i provider).request ≡ some (n, c)
      → (i.index ≡ some n) × (c.issuer ≡ issuer_did (show n))
  unfolding press contract_of kind_of
  press_index sc i provider e = ground arith

  -- What the credential's type and schema are taken from, by button.
  abbrev pub HasKind : Scenario → Inputs → Type 0
  HasKind delayed i = (i.manual_type ≢ none) × (i.manual_schema ≢ none)
  HasKind _ i = (i.type_from_contract ≢ none) × (i.schema_from_contract ≢ none)

  -- A button hands a credential to the wallet exactly when a contract is set, the type and the
  -- schema it uses are, the wallet is found, and its attributes can be read.
  pub press_iff :
      (sc : Scenario) (i : Inputs) (provider : Bool)
      → (is_some (press big_int is_date show sc i provider).request ≡ true) ↔ (
          (i.index ≢ none)
          × HasKind sc i
          × (provider ≡ true)
          × All (λ d. is_readable big_int is_date d ≡ true) (form_of sc i))
  unfolding press contract_of kind_of
  press_iff regular i provider =
      ground (arith, parse_attributes_from_form_iff big_int is_date (form_of regular i))
  press_iff delayed i provider =
      ground (arith, parse_attributes_from_form_iff big_int is_date (form_of delayed i))
  press_iff wrong_proof i provider =
      ground (arith, parse_attributes_from_form_iff big_int is_date (form_of wrong_proof i))
  press_iff wrong_attributes i provider =
      ground (arith, parse_attributes_from_form_iff big_int is_date (form_of wrong_attributes i))

module _ {Big : Type 0} (Schema Keys : Type 0) where
  -- What is sent, if anything is, registers the credential that the commitments are for, under a key
  -- of 64 code units, in the contract that they name.
  abbrev pub IsRegistered :
      Commitments Big → Option (Result Error (Transaction Schema Keys)) → Type 0
  IsRegistered m none = Unit
  IsRegistered m (some (err e)) = Unit
  IsRegistered m (some (ok t)) =
      (target t.payload ≡ contract_at (some m.index))
      × (named t.parameter ≡ m.holder_id ∷ [])
      × (utf16_length m.holder_id ≡ 64)

module _ {Big : Type 0} (Schema Keys : Type 0) (iso_string : String → Option String) where
  register-IsRegistered :
      (sc : Scenario) (i : Inputs) (key : String) (n : Index) (c : Credential Big)
      (r : Option (Result Error (Transaction Schema Keys)))
      → register iso_string sc i n (did_prefix ++ key) ≡ r
      → IsRegistered Schema Keys (commitments_of n c (did_prefix ++ key)) r
  register-IsRegistered sc i key n c none e = tt
  register-IsRegistered sc i key n c (some (err x)) e = tt
  register-IsRegistered sc i key n c (some (ok t)) e =
      let (at, names, long) = register-named iso_string sc i n key e in
      let is_key = key_of_id-prefixed key in (at, rw is_key names, rw is_key long)

module _ {Big : Type 0} (Schema Keys : Type 0) (big_int : String → Option Big)
    (is_date : String → Bool) (show : Index → String) (iso_string : String → Option String) where
  -- The credential that a button adds to the wallet names the contract entered as its issuer. When
  -- the wallet calls back with the prefix and a key as the id, the commitments to be signed are for
  -- that key and that contract; and so is the transaction if one is sent, and then the key has 64 code
  -- units.
  pub register-consistent :
      (sc : Scenario) (i : Inputs) (provider : Bool) (key : String) {n : Index} {c : Credential Big}
      → (press big_int is_date show sc i provider).request ≡ some (n, c)
      → let m = commitments_of n c (did_prefix ++ key) in
        (c.issuer ≡ issuer_did (show m.index))
        × (i.index ≡ some m.index)
        × (m.subindex ≡ 0)
        × (m.holder_id ≡ key)
        × IsRegistered Schema Keys m (register iso_string sc i n (did_prefix ++ key))
  register-consistent sc i provider key {n} {c} pressed =
      let (entered, issuer) = press_index big_int is_date show sc i provider pressed in
      (
        issuer,
        entered,
        refl,
        key_of_id-prefixed key,
        register-IsRegistered Schema Keys iso_string sc i key n c _ refl,
      )
