-- ===== src/Examples/RegistryRuns.antt =====
-- Tests of Registry/Safety.
use concordium_web3id.Common.{
  ◌≡◌, ◌↔◌, String, true, false, Option, none, some, List, [], refl, is_ok, ok, utf16_length,
  str_eq, if◌then◌else◌, All,
}
use concordium_web3id.Registry.Types.{Index, Transaction, registration, update_contract}
use concordium_web3id.Registry.Writing.{issue_credential}
use concordium_web3id.Registry.Safety.{
  Call, issue, run, run_sends_iff, run_safe, IsAdmissible, amount, max_energy, target, contract,
  named, subject,
}

abbrev key_64 : String
key_64 = "0123456789abcdef0123456789abcdef0123456789abcdef0123456789abcdef"

abbrev no_keys : String → Option (List String)
no_keys s = if str_eq s "[]" then some [] else none

abbrev utc : String → Option String
utc s = if str_eq s "2024-01-01" then some "2024-01-01T00:00:00.000Z" else none

abbrev contract_7 : Index
contract_7 = record { number = "7"; address = ok 7 }

abbrev issuance : Call String
issuance =
    issue key_64 false "2024-01-01" "" "https://example.org/meta.json" true (some contract_7) []

abbrev issued : Transaction String (List String)
issued = record {
  account = "account";
  payload = update_contract 0 7 0 "credential_registry.registerCredential" 30000;
  parameter =
      registration key_64 true "2024-01-01T00:00:00.000Z" none
        (record { hash = none; url = "https://example.org/meta.json" }) [];
}

issuance-run : run no_keys utc "module" "account" issuance ≡ ok issued
unfolding run issue_credential
issuance-run = refl

run_sends_iff_example :
    (is_ok (run no_keys utc "module" "account" issuance) ≡ true)
    ↔ IsAdmissible no_keys utc "module" issuance
run_sends_iff_example = run_sends_iff no_keys utc "module" "account" issuance

run_safe_example :
    (issued.account ≡ "account")
    × (amount issued.payload ≡ 0)
    × (max_energy issued.payload ≡ 30000)
    × (target issued.payload ≡ contract issuance)
    × (named issued.parameter ≡ subject issuance)
    × All (λ key. utf16_length key ≡ 64) (subject issuance)
run_safe_example = run_safe no_keys utc "module" "account" issuance issuance-run
