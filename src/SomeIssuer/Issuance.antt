-- ===== src/SomeIssuer/Issuance.antt =====
-- `requestCredential` of examples/some-issuer/frontend/src/shared/util.ts and the status of the
-- transaction in shared/Layout/Layout.tsx. The wallet, the issuer's server and the node come in by
-- what they answer, `now` is the time as text, `json` the body's text and `split` is `id.split(':')`
-- of the runtime written out.
pub mod Waiting
pub mod Outcome
use Prim.Native.Char.{code}
use Prim.Native.String.{◌++◌}
use concordium_web3id.Common.{
  ℕ, suc, String, Bool, true, false, Option, none, some, List, [], ◌∷◌, Result, ok, err, ◌>>=◌,
  ◌==◌, if◌then◌else◌, get_last?,
}

-- The platforms' requests; the user of Telegram is sent to the server.
pub data Request (TelegramUser : Type 0) : Type 0 where
  telegram : (user : TelegramUser) (id username : String) → Request TelegramUser
  discord : (id username : String) → Request TelegramUser

abbrev pub platform : {T : Type 0} → Request T → String
platform (telegram user id name) = "telegram"
platform (discord id name) = "discord"

abbrev pub user_id : {T : Type 0} → Request T → String
user_id (telegram user id name) = id
user_id (discord id name) = id

abbrev pub username : {T : Type 0} → Request T → String
username (telegram user id name) = name
username (discord id name) = name

-- The issuer: its address and its contract.
pub record Site : Type 0 where
  pub url : String
  pub network : String
  pub index : String
  pub subindex : String

-- `CONTRACT_DID`
abbrev pub contract_did : Site → String
contract_did s = "$did:ccd:" ++ s.network ++ ":sci:" ++ s.index ++ ":" ++ s.subindex ++ "/issuer"

-- The credential for the wallet, without its constant types.
pub record Credential : Type 0 where
  pub schema : String
  pub issuer : String
  pub issuance_date : String
  pub user_id : String
  pub username : String
  pub schema_id : String

unfoldable pub credential_of : {T : Type 0} → Site → (now : String) → Request T → Credential
credential_of s now req = record {
  schema = "./JsonSchema2023-" ++ platform req ++ ".json";
  issuer = contract_did s;
  issuance_date = now;
  user_id = user_id req;
  username = username req;
  schema_id = s.url ++ "json-schemas/JsonSchema2023-" ++ platform req ++ ".json";
}

abbrev pub metadata_url : Site → String
metadata_url s = s.url ++ "json-schemas/credential-metadata.json"

-- `s.split(':')`
unfoldable pub split_colon : String → List String
split_colon String.[] = "" ∷ []
split_colon (String.◌∷◌ c s) = elim (split_colon s) [
  | [] ↦ String.◌∷◌ c "" ∷ []
  | part ∷ parts ↦ if code c == 58 then "" ∷ part ∷ parts else String.◌∷◌ c part ∷ parts
]

abbrev pub or_blank : Option String → String
or_blank none = ""
or_blank (some part) = part

-- `parts[parts.length - 1]`; there is always a part.
unfoldable pub holder_of : String → String
holder_of id = or_blank (get_last? (split_colon id))

pub record IssueRequest (TelegramUser : Type 0) : Type 0 where
  pub url : String
  pub holder_id : String
  pub holder_revocable : Bool
  pub valid_from : String
  pub metadata_url : String
  pub telegram_user : Option TelegramUser

unfoldable pub issue_request : {T : Type 0} → Site → Request T → (now id : String) → IssueRequest T
issue_request s req now id = record {
  url = s.url ++ "credential";
  holder_id = holder_of id;
  holder_revocable = true;
  valid_from = now;
  metadata_url = metadata_url s;
  telegram_user = elim req [ telegram user i name ↦ some user | discord i name ↦ none ];
}

-- The server's answer: refused with a status and a text, issued with the transaction's hash and the
-- proof, or none at all.
pub data Response (Proof : Type 0) : Type 0 where
  refused : (status : ℕ) (text : String) → Response Proof
  issued : (tx_hash : String) → Proof → Response Proof
  failed : (message : String) → Response Proof

unfoldable pub read_response : {P : Type 0} → Response P → Result String (String × P)
read_response (refused status text) =
    if status == 429
    then err "Sorry, too many credentials have been issued for this account."
    else err ("Error getting credential: " ++ text)
read_response (issued tx_hash proof) = ok (tx_hash, proof)
read_response (failed message) = err message

-- What the wallet does with the credential: it calls back with the id, or it rejects; with the
-- proof, it accepts or it rejects. It passes on what the call back throws.
pub record Wallet (Proof : Type 0) : Type 0 where
  pub offer : Credential → (metadata_url : String) → Result String String
  pub receive : Proof → Result String (Unit {0})

-- What one wait for the transaction's finalization gives.
pub data NodeAnswer : Type 0 where
  finalized : NodeAnswer
  not_found : NodeAnswer
  rpc_error : (message : String) → NodeAnswer

pub data Ending : Type 0 where
  returned : Ending
  thrown : (message : String) → Ending
  waiting : Ending

-- The loop over the node's answers, one for each round, and how many rounds there were; `waiting` if
-- the answers so far decide nothing.
unfoldable pub wait : List NodeAnswer → Ending × ℕ
wait [] = (waiting, 0)
wait (finalized ∷ later) = (returned, 1)
wait (rpc_error message ∷ later) = (thrown message, 1)
wait (not_found ∷ later) = let (e, rounds) = wait later in (e, suc rounds)

-- The calls of `onSubmit` and `onFinalized`.
pub data Notice : Type 0 where
  on_submit : (tx_hash : String) → Notice
  on_finalized : Notice

pub record Run : Type 0 where
  pub notices : List Notice
  pub ending : Ending

-- The notices of the loop: `onFinalized` before it ends.
abbrev pub notices_of : Ending → List Notice
notices_of returned = on_finalized ∷ []
notices_of (thrown message) = []
notices_of waiting = []

-- The call of the wallet, up to the transaction's hash.
unfoldable pub obtain :
    {T P : Type 0}
    → Site
    → (now later : String) → Request T
    → Wallet P
    → (server : IssueRequest T → Response P) → Result String String
obtain s now later req wallet server = do
  id ← wallet.offer (credential_of s now req) (metadata_url s)
  answer ← read_response (server (issue_request s req later id))
  accepted ← wallet.receive answer.1
  ok answer.0

-- After the call of the wallet.
unfoldable pub finish : Result String String → (node : String → List NodeAnswer) → Run
finish (err message) node = record { notices = []; ending = thrown message }
finish (ok tx_hash) node =
    let e = (wait (node tx_hash)).0 in
    record { notices = on_submit tx_hash ∷ notices_of e; ending = e }

unfoldable pub request_credential :
    {T P : Type 0}
    → Site
    → (now later : String) → Request T
    → Result String (Wallet P)
    → (server : IssueRequest T → Response P) (node : String → List NodeAnswer) → Run
request_credential s now later req connected server node =
    finish (connected >>= λ wallet. obtain s now later req wallet server) node

-- The status that the layout shows.
pub data TransactionStatus : Type 0 where
  status_submitted status_finalized : TransactionStatus

pub record TxState : Type 0 where
  pub transaction : Option String
  pub transaction_status : Option TransactionStatus

-- `onTransactionSubmit` and `onTransactionFinalized`
unfoldable pub notified : Notice → TxState → TxState
notified (on_submit tx_hash) s = record {
  transaction = some tx_hash;
  transaction_status = some status_submitted;
}
notified on_finalized s = record {
  transaction = s.transaction;
  transaction_status = some status_finalized;
}
