-- ===== src/TestTool/Contract/Reading.antt =====
-- When the test tool can read a credential's entry.
use concordium_web3id.Registry.Types.{Index}
use concordium_web3id.Common.{
  ℕ, ◌≡◌, ◌↔◌, String, Option, none, some, Result, ok, refl, ap, ◌∙◌, not, ◌==◌, throw_if,
  >>=-eq-ok, arith, utf16_length,
}
use concordium_web3id.TestTool.Contract.{
  Invoked, no_client, failure, success, return_value, or_message, get_credential_entry,
}

or_message-ok :
    {A : Type 0} (o : Option A) (message : String) {a : A}
    → or_message o message ≡ ok a
    → o ≡ some a
or_message-ok none message e = cc
or_message-ok (some b) message e = cc

return_value-some :
    {Bytes : Type 0} (r : Invoked Bytes) {b : Bytes}
    → return_value r ≡ some b
    → r ≡ success (some b)
return_value-some no_client e = cc
return_value-some failure e = cc
return_value-some (success o) e = ap success e

has_64 :
    (n : ℕ) (message : String) (d : Unit {0}) → throw_if (not (n == 64)) message ≡ ok d → n ≡ 64
has_64 n message d e = ground arith

module _ {Bytes State Parameter : Type 0} (show : Index → String)
    (serialize : String → Result String Parameter)
    (invoke : Parameter → Index → Result String (Invoked Bytes))
    (deserialize : Bytes → Option State) where
  -- What reading an entry rests on.
  pub record IsRead (key : String) (index : Option Index) (s : State) : Type 0 where
    pub i : Index
    pub parameter : Parameter
    pub bytes : Bytes
    pub long : utf16_length key ≡ 64
    pub set : index ≡ some i
    pub serialized : serialize key ≡ ok parameter
    pub invoked : invoke parameter i ≡ ok (success (some bytes))
    pub read : deserialize bytes ≡ some s

  get_credential_entry-ok :
      (key : String) (index : Option Index) (s : State)
      → get_credential_entry show serialize invoke deserialize key index ≡ ok s
      → IsRead key index s
  unfolding get_credential_entry
  get_credential_entry-ok key index s e =
      let (done, long, e1) = >>=-eq-ok (throw_if (not (utf16_length key == 64)) _) _ e in
      let (i, at, e2) = >>=-eq-ok (or_message index _) _ e1 in
      let (parameter, serialized, e3) = >>=-eq-ok (serialize key) _ e2 in
      let (res, called, e4) = >>=-eq-ok (invoke parameter i) _ e3 in
      let (bytes, value, e5) = >>=-eq-ok (or_message (return_value res) _) _ e4 in
      record {
        i = i;
        parameter = parameter;
        bytes = bytes;
        long = has_64 (utf16_length key) _ done long;
        set = or_message-ok index _ at;
        serialized = serialized;
        invoked = called ∙ ap ok (return_value-some res (or_message-ok (return_value res) _ value));
        read = or_message-ok (deserialize bytes) _ e5;
      }

  get_credential_entry-IsRead :
      (key : String) (index : Option Index) (s : State)
      → IsRead key index s
      → get_credential_entry show serialize invoke deserialize key index ≡ ok s
  unfolding get_credential_entry
  get_credential_entry-IsRead key index s h =
      rw (h.long, h.set, h.serialized, h.invoked, h.read) refl

  -- A credential's entry is read exactly when the key has 64 code units and can be serialized, a
  -- contract is set, and its call succeeds with a value that can be deserialized to that entry.
  pub get_credential_entry_iff :
      (key : String) (index : Option Index) (s : State)
      → (get_credential_entry show serialize invoke deserialize key index ≡ ok s)
        ↔ IsRead key index s
  get_credential_entry_iff key index s =
      (get_credential_entry-ok key index s, get_credential_entry-IsRead key index s)
