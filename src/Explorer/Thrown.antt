-- ===== src/Explorer/Thrown.antt =====
-- What a JavaScript call may throw, as far as the proof explorer looks at it.
use concordium_web3id.Common.{
  String, Bool, Option, is_some, false, ◌&&◌, Result, ok, err, if◌then◌else◌,
}

-- An `Error` with its message (which may carry a `code`), another object, which may carry a `code`
-- and a message (a text), `null` or `undefined`, or another value that is no object.
pub data Thrown : Type 0 where
  error_object : (has_code : Bool) (message : String) → Thrown
  plain_object : (has_code : Bool) (message : Option String) → Thrown
  nullish : Thrown
  primitive : Thrown

-- `new Error(message)`
abbrev pub error : String → Thrown
error message = error_object false message

-- `isWalletConnectError`: `in` throws a TypeError on what is no object.
unfoldable pub is_wallet_connect_error : Thrown → Result Thrown Bool
is_wallet_connect_error (error_object has_code message) = ok has_code
is_wallet_connect_error (plain_object has_code message) = ok (has_code && is_some message)
is_wallet_connect_error nullish = err (error "Cannot use 'in' operator to search for 'code'")
is_wallet_connect_error primitive = err (error "Cannot use 'in' operator to search for 'code'")

-- The `catch` around a wallet request.
unfoldable pub rethrow : {A : Type 0} → Thrown → Result Thrown A
unfolding is_wallet_connect_error
rethrow e = elim (is_wallet_connect_error e) [
  | ok known ↦ if known then err (error "Proof request rejected in wallet") else err e
  | err e' ↦ err e'
]
