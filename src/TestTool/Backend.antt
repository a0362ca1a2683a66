-- ===== src/TestTool/Backend.antt =====
-- test-tools/issuer-front-end/src/api_calls_to_backend.ts: what is fetched from the backend, and what
-- its answer gives. `api` is `getBackendApi()`.
use Prim.Native.String.{◌++◌}
use concordium_web3id.Common.{
  String, Option, none, some, Result, ok, err, ◌>>=◌, ◌>>◌, throw_if, is_blank,
}

pub record Fetch : Type 0 where
  pub url : String
  pub body : Option String

-- The backend's answer: the text of the error if its status is not ok, else the body, nothing if it
-- is falsy. A fetch, or a body, that fails throws its message.
pub data Answer (Body : Type 0) : Type 0 where
  not_ok : (error : String) → Answer Body
  answered : Option Body → Answer Body
  failed : (message : String) → Answer Body

unfoldable pub read_answer : {Body : Type 0} → (what : String) → Answer Body → Result String Body
read_answer what (not_ok error) = err (what ++ ": " ++ error)
read_answer what (answered none) = err what
read_answer what (answered (some body)) = ok body
read_answer what (failed message) = err message

unfoldable pub keys_fetch : (api seed : String) → Result String Fetch
keys_fetch api seed = do
  throw_if (is_blank seed) "Insert a seed in step 1."
  ok (record { url = api ++ "/v0/key/" ++ seed; body = none })

-- `requestIssuerKeys`
unfoldable pub request_issuer_keys :
    {Keys : Type 0} → (api seed : String) (answer : Fetch → Answer Keys) → Result String Keys
unfolding keys_fetch read_answer
request_issuer_keys api seed answer =
    keys_fetch api seed >>= λ f. read_answer "Unable to get issuer keys" (answer f)

unfoldable pub signature_fetch : (api seed commitments : String) → Result String Fetch
signature_fetch api seed commitments = do
  throw_if (is_blank seed) "Insert a seed in step 1."
  throw_if (is_blank commitments) "Insert the `credentialCommitments`."
  ok (record { url = api ++ "/v0/commitments/" ++ seed; body = some commitments })

-- `requestSignature`
unfoldable pub request_signature :
    {Signed : Type 0}
    → (api seed commitments : String) (answer : Fetch → Answer Signed) → Result String Signed
unfolding signature_fetch read_answer
request_signature api seed commitments answer = signature_fetch api seed commitments >>= λ f.
    read_answer "Unable to get signature on credential commitments" (answer f)
