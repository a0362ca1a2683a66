-- ===== src/TestTool/Register/Calls.antt =====
-- What the handlers of Main.tsx do once the wallet has the credential: the transaction, the request
-- for the signature and the proof for the wallet.
use Prim.Native.Char.{code}
use concordium_web3id.Common.{
  String, Option, none, some, List, [], ◌∷◌, Result, ok, err, ◌>>=◌, ◌==◌, if◌then◌else◌,
}
use concordium_web3id.Registry.Types.{Index, Error, Transaction}
use concordium_web3id.Registry.Writing.{issue_credential}
use concordium_web3id.TestTool.Hex.{hex_to_bytes}
use concordium_web3id.TestTool.Backend.{Fetch, Answer, request_signature}
use concordium_web3id.TestTool.Register.{
  Scenario, delayed, wrong_proof, Inputs, Shown, with_error, Credential, Commitments, Signed, Proof,
  no_contract,
}

-- `id.replace(prefix, '')` takes the first occurrence of the prefix out.
unfoldable pub drop_prefix : String → String → Option String
drop_prefix String.[] s = some s
drop_prefix (String.◌∷◌ c p) String.[] = none
drop_prefix (String.◌∷◌ c p) (String.◌∷◌ d s) = if code c == code d then drop_prefix p s else none

unfoldable pub take_out : String → String → String
unfolding drop_prefix
take_out p String.[] = ""
take_out p (String.◌∷◌ c s) = elim (drop_prefix p (String.◌∷◌ c s)) [
  | some rest ↦ rest
  | none ↦ String.◌∷◌ c (take_out p s)
]

abbrev pub did_prefix : String
did_prefix = "did:ccd:testnet:pkc:"

unfoldable pub key_of_id : String → String
unfolding take_out
key_of_id id = take_out did_prefix id

abbrev pub commitments_of : {Big : Type 0} → Index → Credential Big → String → Commitments Big
commitments_of n c id = record {
  attributes = c.attributes;
  holder_id = key_of_id id;
  index = n;
  subindex = 0;
}

-- `setCredentialPublicKey`, as the wallet calls back with the credential's id.
unfoldable pub called : String → Shown → Shown
unfolding key_of_id
called id s = record {
  tx_hash = s.tx_hash;
  transaction_error = s.transaction_error;
  credential_public_key = key_of_id id;
  parsing_error = s.parsing_error;
}

abbrev pub again : Shown → Shown
again s = record {
  tx_hash = "";
  transaction_error = "";
  credential_public_key = s.credential_public_key;
  parsing_error = s.parsing_error;
}

module _ {Schema Keys : Type 0} (iso_string : String → Option String) where
  -- The transaction that the contract's registration is sent in, or what `issueCredential` throws.
  unfoldable pub registration_for :
      Inputs → Index → (key : String) → Result Error (Transaction Schema Keys)
  unfolding issue_credential hex_to_bytes
  registration_for i n key =
      issue_credential iso_string i.account key i.has_expiry i.valid_from i.valid_until
        i.metadata_url i.is_holder_revocable (some n) (hex_to_bytes i.auxiliary_data)

  -- What the call back sends before it asks for the signature.
  unfoldable pub register :
      Scenario → Inputs → Index → (id : String) → Option (Result Error (Transaction Schema Keys))
  unfolding registration_for key_of_id
  register delayed i n id = none
  register _ i n id = some (registration_for i n (key_of_id id))

  -- The second button of step 11, with what it shows if no contract is set.
  unfoldable pub issue_delayed :
      Inputs → Shown → Shown × Option (Result Error (Transaction Schema Keys))
  unfolding registration_for
  issue_delayed i s =
      let reset = again s in
      elim i.index [
        | none ↦ (with_error no_contract reset, none)
        | some n ↦ (reset, some (registration_for i n s.credential_public_key))
      ]

-- `tx.then(setTxHash).catch(...)`, for the transaction's hash or the message of the error.
unfoldable pub settled : Result String String → Shown → Shown
settled (err message) s = with_error message s
settled (ok hash) s = record {
  tx_hash = hash;
  transaction_error = s.transaction_error;
  credential_public_key = s.credential_public_key;
  parsing_error = s.parsing_error;
}

-- The names of the constant commitments in the randomness of step 12, with their values.
abbrev pub constant_randomness : List (String × String)
constant_randomness =
    ("Hello", "2d5bbf82232465715f23396f4ece8ccc40ad178b7262d01aad97c9de5380ae07")
    ∷ ("No", "0cc9acd652b6c29aaff42bcf8da242afee622262b0d3e37f17c57ac8d4ae42d9")
    ∷ ("Three", "1fad03391f7c8d72980e53a44e0782f58822eb74f06ff2c7e9e09e6b08f7ca73")
    ∷ []

module _ {Big : Type 0} (stringify : Commitments Big → String) (api : String)
    (backend : Fetch → Answer (Signed (List (String × String)))) where
  -- What the call back returns to the wallet, or the message of what it throws.
  unfoldable pub reply :
      Scenario
      → Inputs
      → Index
      → Credential Big
      → (id : String) → Result String (Proof (List (String × String)))
  unfolding request_signature
  reply wrong_proof i n c id = ok (record {
    verification_method = id;
    proof_value =
        "e8c3944d6a9a19e74ad3ef028b04c0637756540306aba8842000f557cbfb7415187f907d26f20474081d4084fc8e5ff14167171f65fac76b06508ae46f55aa05";
    randomness = constant_randomness;
  })
  reply _ i n c id =
      request_signature api i.seed (stringify (commitments_of n c id)) backend >>= λ signed.
      ok (record {
        verification_method = id;
        proof_value = signed.signature;
        randomness = signed.randomness;
      })
