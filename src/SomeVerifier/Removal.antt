-- ===== src/SomeVerifier/Removal.antt =====
-- `RemoveVerification` of
-- examples/some-verifier/frontend/src/components/RemoveVerification.tsx: the state of its dialog, and
-- its handlers `submit` and `reset`. `submit` is given what it awaits: the challenge (the hash of the
-- time), how the wallet's provider ends, and the functions that ask for the proof and send it.
use concordium_web3id.Common.{
  ◌≡◌, ◌↔◌, String, Bool, true, false, Option, none, some, List, [], ◌∷◌, Result, ok, err, is_blank,
  arith, Result-cases, Bool-cases, inl, inr,
}

pub record Removal : Type 0 where
  pub pending : Bool
  pub removed : Bool
  pub error : Option String

pub record Response (Thrown : Type 0) : Type 0 where
  pub is_ok : Bool
  pub text : Result Thrown String

abbrev no_platform : String
no_platform = "Expected form data to include platform value"

abbrev pub not_removed : String
not_removed = "Could not remove verification. Try another platform."

module _ {Api Issuer Proof Thrown : Type 0} (issuer : String → Issuer)
    (request_proof : Api → List Issuer → String → Result Thrown Proof)
    (patch : Proof → String → Result Thrown (Response Thrown)) where
  -- The second `try` block: whether it threw, whatever it threw.
  unfoldable pub remove : Api → String → (challenge timestamp : String) → Bool
  remove api platform challenge timestamp =
      elim (request_proof api (issuer platform ∷ []) challenge) [
        | err e ↦ false
        | ok proof ↦ elim (patch proof timestamp) [ err e ↦ false | ok response ↦ response.is_ok ]
      ]

  -- The state after `submit`, and whether it threw; the provider fails with a message.
  unfoldable pub submit :
      Option String
      → (challenge timestamp : String) → Result String Api
      → Removal
      → Removal × Result String (Unit {0})
  unfolding remove
  submit none challenge timestamp provider d = (d, err no_platform)
  submit (some platform) challenge timestamp provider d = elim (is_blank platform) [
    | true ↦ (d, err no_platform)
    | false ↦ elim provider [
      | err message ↦ (record d { pending = true; error = some message }, ok tt)
      | ok api ↦ elim (remove api platform challenge timestamp) [
        | true ↦ (record d { pending = false; removed = true }, ok tt)
        | false ↦ (record d { pending = false; error = some not_removed }, ok tt)
      ]
    ]
  ]

  -- With a platform and a wallet, a submission ends the waiting, and a verification that was not
  -- removed is removed exactly when the wallet proves the credential of that platform's issuer for
  -- the challenge and the service answers the proof with an OK status.
  pub submit_removes_iff :
      (platform challenge timestamp : String) (api : Api) (d : Removal)
      → is_blank platform ≡ false
      → d.removed ≡ false
      → let d' = (submit (some platform) challenge timestamp (ok api) d).0 in
        (d'.pending ≡ false)
        × ((d'.removed ≡ true) ↔ (
            (proof : Proof) × (response : Response Thrown) × (request_proof api
                (issuer platform ∷ [])
                challenge
              ≡ ok proof)
            × (patch proof timestamp ≡ ok response)
            × (response.is_ok ≡ true)))
  unfolding submit remove
  submit_removes_iff platform challenge timestamp api d given fresh =
      elim (Result-cases (request_proof api (issuer platform ∷ []) challenge)) [
        | inr (e, refused) ↦ (ground arith, ground arith)
        | inl (proof, proved) ↦ elim (Result-cases (patch proof timestamp)) [
          | inr (e, failed) ↦ (ground arith, ground arith)
          | inl (response, answered) ↦ elim (Bool-cases response.is_ok) [
            | inl good ↦
                (ground arith, (λ h. (proof, response, proved, answered, good), λ h. ground arith))
            | inr bad ↦ (ground arith, ground arith)
          ]
        ]
      ]

  -- Where the wallet's provider fails, the message is recorded but the dialog stays pending.
  pub failed_provider_stays_pending :
      (platform challenge timestamp message : String) (d : Removal)
      → is_blank platform ≡ false
      → let d' = (submit (some platform) challenge timestamp (err message) d).0 in
        (d'.pending ≡ true) × (d'.error ≡ some message) × (d'.removed ≡ d.removed)
  unfolding submit
  failed_provider_stays_pending platform challenge timestamp message d given = ground arith

-- `reset`, when the dialog has closed.
unfoldable pub reset : Removal → Removal
reset d = record { pending = false; removed = false; error = none }
