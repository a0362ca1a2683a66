-- ===== src/Verifier/Server.antt =====
-- services/web3id-verifier-ts/src/server.ts: the handler of `POST /v0/verify`, from the request's body
-- to the response, with the error middleware. The web SDK's parsers, the node's answers and the
-- verification come in as the fields of a record.
use concordium_web3id.Common.{
  ℕ, String, Bool, true, false, List, [], ◌∷◌, map, Result, ok, err, ◌>>=◌, ◌>>◌,
}

-- A thrown value: an `RpcError` or another `Error` of a library or the runtime, this file's
-- `HttpError`, a string, or anything else.
pub data Throwable : Type 0 where
  rpc_error : String → Throwable
  other_error : String → Throwable
  http_error : (status_code : ℕ) (message : String) → Throwable
  text : String → Throwable
  other : Throwable

-- `HttpError.fromThrowable`
unfoldable pub from_throwable : Throwable → ℕ → Throwable
from_throwable (rpc_error message) status = http_error status message
from_throwable (other_error message) status = http_error status message
from_throwable (http_error code message) status = http_error status message
from_throwable (text message) status = http_error status message
from_throwable other status = http_error status "An error happened while handling the request"

-- `CIS4.CredentialStatus` of the web SDK.
pub data CredentialStatus : Type 0 where
  active revoked expired not_activated : CredentialStatus

pub record PublicData (Inputs : Type 0) : Type 0 where
  pub status : CredentialStatus
  pub inputs : Inputs

-- What the handler calls; every call may throw.
pub record Services (Vp Hash Time Params Inputs Request : Type 0) : Type 0 where
  pub from_string : String → Result Throwable Vp
  pub get_block_info : Result Throwable (Hash × Time)
  pub get_public_data : Vp → Hash → Result Throwable (List (PublicData Inputs))
  pub get_cryptographic_parameters : Hash → Result Throwable Params
  pub verify_presentation : Vp → Params → List Inputs → Result Throwable Request

abbrev pub inactive : Throwable
inactive = other_error "One or more credentials in the presentation are inactive"

abbrev pub is_active : CredentialStatus → Bool
is_active active = true
is_active _ = false

-- `publicData.forEach(…)`: throws at the first credential that is not active.
unfoldable pub check_active :
    {Inputs : Type 0} → List (PublicData Inputs) → Result Throwable (Unit {0})
check_active [] = ok tt
check_active (d ∷ rest) = elim (is_active d.status) [
  | true ↦ check_active rest
  | false ↦ err inactive
]

-- The body of the response.
pub record Verified (Hash Time Request : Type 0) : Type 0 where
  pub block_hash : Hash
  pub block_time : Time
  pub request : Request

-- The `catch` of `verify`.
abbrev pub caught : {A : Type 0} → Result Throwable A → Result Throwable A
unfolding from_throwable
caught (ok a) = ok a
caught (err (rpc_error message)) = err (from_throwable (rpc_error message) 500)
caught (err e) = err (from_throwable e 400)

-- What the client is answered: a response, or what express makes of an error passed to `next`.
pub data Answer (A : Type 0) : Type 0 where
  sent : A → Answer A
  failed : (status_code : ℕ) (message : String) → Answer A
  passed_on : Throwable → Answer A

-- `catchErrors` and `httpErrorHandler`
abbrev pub respond : {A : Type 0} → Result Throwable A → Answer A
respond (ok a) = sent a
respond (err (http_error code message)) = failed code message
respond (err e) = passed_on e

module _ {Vp Hash Time Params Inputs Request : Type 0}
    (services : Services Vp Hash Time Params Inputs Request) where
  -- The `try` block of `verify`; `res.send` at its end is express's and is taken not to throw.
  unfoldable pub attempt : Vp → Result Throwable (Verified Hash Time Request)
  attempt vp = do
    block ← services.get_block_info
    public_data ← services.get_public_data vp block.0
    check_active public_data
    global_context ← services.get_cryptographic_parameters block.0
    request ← services.verify_presentation vp global_context (map (λ d. d.inputs) public_data)
    ok (record { block_hash = block.0; block_time = block.1; request = request })

  unfoldable pub verify : String → Result Throwable (Verified Hash Time Request)
  unfolding from_throwable
  verify body = do vp ← services.from_string body; caught (attempt vp)

  unfoldable pub handle_verify : String → Answer (Verified Hash Time Request)
  unfolding verify
  handle_verify body = respond (verify body)
