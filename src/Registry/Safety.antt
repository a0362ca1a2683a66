-- ===== src/Registry/Safety.antt =====
-- What holds of every transaction that the functions of writing_to_blockchain.ts send.
use concordium_web3id.Numbers.{SignedInt}
use concordium_web3id.Common.{
  ℕ, String, Bool, true, false, Option, none, some, List, [], ◌∷◌, ◌≡◌, ◌≢◌, ◌↔◌, refl, arith,
  Result, ok, err, is_ok, All, map, utf16_length, is_blank, not-is_blank, ne_of_not-is_blank,
}
use concordium_web3id.Registry.Types.{
  Index, Error, Parameter, Payload, init_contract, update_contract, Transaction, init_registry,
  schema_ref, credential_metadata, issuer_metadata, revocation, restoration, registration,
}
use concordium_web3id.Registry.Writing.{
  create_new_issuer, update_credential_schema, update_credential_metadata, update_issuer_metadata,
  revoke_credential, restore_credential, issue_credential, valid_until_option,
}

-- A call of one of the seven functions, with its arguments after the account.
pub data Call (Schema : Type 0) : Type 0 where
  new_issuer :
      (issuer_meta_data issuer_key : String) (credential_schema : Schema)
      (revocation_keys credential_type : String)
      → Call Schema
  schema_update : (index : Option Index) (url : String) → Call Schema
  metadata_update : (index : Option Index) (url key : String) → Call Schema
  issuer_update : (index : Option Index) (url : String) → Call Schema
  revoke :
      (key : String) (index : Option Index) (aux : List (Option SignedInt)) (reason : String)
      → Call Schema
  restore : (key : String) (index : Option Index) (reason : String) → Call Schema
  issue :
      (key : String) (has_expiry : Bool) (valid_from valid_until url : String) (revocable : Bool)
      (index : Option Index) (aux : List (Option SignedInt))
      → Call Schema

-- The date that a validity ends with: given and readable if the credential expires.
abbrev pub HasEnd : (String → Option String) → Bool → String → Type 0
HasEnd iso_string false until = Unit
HasEnd iso_string true until = (until ≢ "") × (iso_string until ≢ none)

valid_until_option_iff :
    (iso_string : String → Option String) (expiry : Bool) (until : String)
    → (is_ok (valid_until_option iso_string expiry until) ≡ true) ↔ HasEnd iso_string expiry until
unfolding valid_until_option
valid_until_option_iff iso_string false until = (λ _. tt, λ _. refl)
valid_until_option_iff iso_string true until =
    ground (arith, not-is_blank until, ne_of_not-is_blank until)

-- A key of 64 code units is not empty.
blank_short : (key : String) → utf16_length key ≡ 64 → is_blank key ≡ false
blank_short String.[] h = absurd (omega arith)
blank_short (String.◌∷◌ c s) h = refl

-- The CCD sent, the energy allowed and the contract addressed.
abbrev pub amount : Payload → ℕ
amount (init_contract a m n e) = a
amount (update_contract a i s n e) = a

abbrev pub max_energy : Payload → ℕ
max_energy (init_contract a m n e) = e
max_energy (update_contract a i s n e) = e

abbrev pub target : Payload → Option (ℕ × ℕ)
target (init_contract a m n e) = none
target (update_contract a i s n e) = some (i, s)

-- The credentials that a parameter names, and those that a call is about.
abbrev pub named : {Schema Keys : Type 0} → Parameter Schema Keys → List String
named (init_registry m t k s a r) = []
named (schema_ref m) = []
named (credential_metadata entries) = map (λ e. e.0) entries
named (issuer_metadata m) = []
named (revocation key r a) = key ∷ []
named (restoration key r) = key ∷ []
named (registration key h f u m a) = key ∷ []

abbrev pub subject : {Schema : Type 0} → Call Schema → List String
subject (new_issuer url key schema keys type) = []
subject (schema_update index url) = []
subject (metadata_update index url key) = key ∷ []
subject (issuer_update index url) = []
subject (revoke key index aux reason) = key ∷ []
subject (restore key index reason) = key ∷ []
subject (issue key expiry from until url revocable index aux) = key ∷ []

-- The contract at an index, if there is one.
abbrev pub contract_at : Option Index → Option (ℕ × ℕ)
contract_at none = none
contract_at (some i) = elim i.address [ ok n ↦ some (n, 0) | err e ↦ none ]

-- An index that is set and from which a contract's address can be made.
abbrev pub HasAddress : Option Index → Type 0
HasAddress none = ⊥
HasAddress (some i) = is_ok i.address ≡ true

-- The contract that a call is for, if any.
abbrev pub contract : {Schema : Type 0} → Call Schema → Option (ℕ × ℕ)
contract (new_issuer url key schema keys type) = none
contract (schema_update index url) = contract_at index
contract (metadata_update index url key) = contract_at index
contract (issuer_update index url) = contract_at index
contract (revoke key index aux reason) = contract_at index
contract (restore key index reason) = contract_at index
contract (issue key expiry from until url revocable index aux) = contract_at index

module _ {Schema Keys : Type 0} (json_parse : String → Option Keys)
    (iso_string : String → Option String) (module_ref : String) where
  unfoldable pub run : String → Call Schema → Result Error (Transaction Schema Keys)
  run account (new_issuer url key schema keys type) =
      create_new_issuer json_parse module_ref account url key schema keys type
  run account (schema_update index url) = update_credential_schema account index url
  run account (metadata_update index url key) = update_credential_metadata account index url key
  run account (issuer_update index url) = update_issuer_metadata account index url
  run account (revoke key index aux reason) = revoke_credential account key index aux reason
  run account (restore key index reason) = restore_credential account key index reason
  run account (issue key expiry from until url revocable index aux) =
      issue_credential iso_string account key expiry from until url revocable index aux

  -- What a call needs in order to send anything.
  abbrev pub IsAdmissible : Call Schema → Type 0
  IsAdmissible (new_issuer url key schema keys type) =
      (utf16_length key ≡ 64) × (json_parse keys ≢ none)
  IsAdmissible (schema_update index url) = HasAddress index
  IsAdmissible (metadata_update index url key) = (HasAddress index) × (utf16_length key ≡ 64)
  IsAdmissible (issuer_update index url) = HasAddress index
  IsAdmissible (revoke key index aux reason) = (HasAddress index) × (utf16_length key ≡ 64)
  IsAdmissible (restore key index reason) = (HasAddress index) × (utf16_length key ≡ 64)
  IsAdmissible (issue key expiry from until url revocable index aux) =
      (HasAddress index)
      × (utf16_length key ≡ 64)
      × (from ≢ "")
      × (iso_string from ≢ none)
      × HasEnd iso_string expiry until

  -- A function sends a transaction exactly when its arguments are admissible: the contract index
  -- is set to a number that the web SDK makes an address of (or, for a new issuer, the revocation
  -- keys parse), every key that is given has 64 code units, and the dates are given and readable.
  pub run_sends_iff :
      (account : String) (call : Call Schema)
      → (is_ok (run account call) ≡ true) ↔ IsAdmissible call
  unfolding run create_new_issuer update_credential_schema update_credential_metadata
      update_issuer_metadata revoke_credential restore_credential issue_credential
  run_sends_iff account (schema_update index url) = ground arith
  run_sends_iff account (metadata_update index url key) = ground arith
  run_sends_iff account (new_issuer url key schema keys type) = ground (arith, blank_short key)
  run_sends_iff account (issuer_update index url) = ground arith
  run_sends_iff account (revoke key index aux reason) = ground arith
  run_sends_iff account (restore key index reason) = ground arith
  run_sends_iff account (issue key expiry from until url revocable index aux) = ground (
    arith,
    not-is_blank from,
    ne_of_not-is_blank from,
    valid_until_option_iff iso_string expiry until,
  )

  -- Every transaction that is sent is for the caller's account, moves no CCD, allows 30000 energy,
  -- addresses the contract of the call at subindex 0 (none for a new issuer), and names exactly the
  -- credential that the call is about, whose key has 64 code units.
  pub run_safe :
      (account : String) (call : Call Schema) {t : Transaction Schema Keys}
      → run account call ≡ ok t
      → (t.account ≡ account)
        × (amount t.payload ≡ 0)
        × (max_energy t.payload ≡ 30000)
        × (target t.payload ≡ contract call)
        × (named t.parameter ≡ subject call)
        × All (λ key. utf16_length key ≡ 64) (subject call)
  unfolding run create_new_issuer update_credential_schema update_credential_metadata
      update_issuer_metadata revoke_credential restore_credential issue_credential
  run_safe account (schema_update index url) e = ground arith
  run_safe account (metadata_update index url key) e = ground arith
  run_safe account (new_issuer url key schema keys type) e = ground arith
  run_safe account (issuer_update index url) e = ground arith
  run_safe account (revoke key index aux reason) e = ground arith
  run_safe account (restore key index reason) e = ground arith
  run_safe account (issue key expiry from until url revocable index aux) e = ground arith
