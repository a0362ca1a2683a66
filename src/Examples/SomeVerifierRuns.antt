-- ===== src/Examples/SomeVerifierRuns.antt =====
-- Tests of the example verifier.
use concordium_web3id.Common.{
  ◌≡◌, ◌↔◌, refl, String, true, false, none, some, List, [], ◌∷◌, Result, ok,
}
use concordium_web3id.SomeVerifier.Proofs.{Issuer, Call, request_proof}
use concordium_web3id.SomeVerifier.Removal.{Removal, Response, submit, submit_removes_iff}

abbrev telegram : Issuer
telegram = record { url = "https://example.org"; index = "5463"; subindex = "0" }

abbrev address : String → String → Result String String
address index subindex = ok index

abbrev all_calls : List (Call String) → List (Call String)
all_calls calls = calls

abbrev answering : String → List (Call String) → Result String String
answering challenge calls = ok challenge

request_run :
    request_proof address all_calls answering (telegram ∷ []) "challenge" true false
    ≡ ok "challenge"
unfolding request_proof
request_run = refl

abbrev same_issuer : String → String
same_issuer platform = platform

abbrev proving : String → List String → String → Result String String
proving api issuers challenge = ok challenge

abbrev patching : String → String → Result String (Response String)
patching proof timestamp = ok (record { is_ok = true; text = ok "" })

abbrev open_dialog : Removal
open_dialog = record { pending = false; removed = false; error = none }

submit_removes_iff_example :
    let d' =
      (submit same_issuer proving patching (some "discord") "c" "t" (ok "api") open_dialog).0 in
    (d'.pending ≡ false)
    × ((d'.removed ≡ true) ↔ (
        (proof : String) × (response : Response String) × (proving "api" ("discord" ∷ []) "c"
          ≡ ok proof)
        × (patching proof "t" ≡ ok response)
        × (response.is_ok ≡ true)))
submit_removes_iff_example =
    submit_removes_iff same_issuer proving patching "discord" "c" "t" "api" open_dialog refl refl
