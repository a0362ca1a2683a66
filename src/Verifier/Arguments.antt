-- ===== src/Verifier/Arguments.antt =====
-- services/web3id-verifier-ts/src/main.ts and `setupConcordiumClient` of src/server.ts. The runtime's
-- `new URL(s)` is the argument `parse`, `none` where it throws; so is `Number(s)`, `none` for NaN.
use concordium_web3id.Common.{
  ◌≡◌, String, Bool, true, false, not, Option, none, some, [], ◌∷◌, Result, ok, err, ◌>>=◌, ◌>>◌,
  throw_if, eq_iff, includes, arith, refl, contains, ◌⊎◌, inl, inr, >>=-eq-ok, Bool-cases, sym,
}

-- The fields of a `URL` that the service reads.
pub record Url : Type 0 where
  pub protocol : String
  pub hostname : String
  pub port : String

unfoldable pub parse_network : String → Result String String
parse_network value = do
  throw_if (not (includes ("Mainnet" ∷ "Testnet" ∷ []) value))
      "Invalid network value. Expected 'Mainnet' or 'Testnet'."
  ok value

abbrev pub or_message : {A : Type 0} → Option A → String → Result String A
or_message none m = err m
or_message (some a) m = ok a

unfoldable pub parse_url : (parse : String → Option Url) → String → Result String Url
parse_url parse url = do
  parsed ← or_message (parse url) "Invalid URL."
  throw_if (not (includes ("http:" ∷ "https:" ∷ []) parsed.protocol))
      "Invalid URL. Expected 'http' or 'https' protocol."
  ok parsed

unfoldable pub parse_number : {N : Type 0} → (number : String → Option N) → String → Result String N
parse_number number value = or_message (number value) "Invalid number value."

-- How the client of the node's gRPC interface is set up.
pub record GrpcClient (N : Type 0) : Type 0 where
  pub address : String
  pub port : Option N
  pub ssl : Bool
  pub timeout : N

unfoldable pub setup_concordium_client :
    {N : Type 0} → (number : String → Option N) → Url → N → GrpcClient N
setup_concordium_client number endpoint timeout = record {
  address = endpoint.hostname;
  port = number endpoint.port;
  ssl = contains "https" endpoint.protocol;
  timeout = timeout;
}

included :
    (p : String) → includes ("http:" ∷ "https:" ∷ []) p ≡ true → (p ≡ "http:") ⊎ (p ≡ "https:")
included p h = ground (arith, eq_iff "http:" p, eq_iff "https:" p)

protocol_checked :
    (u : Url) {endpoint : Url}
    → ◌>>◌ {E = String}
        (throw_if {E = String}
          (not (includes ("http:" ∷ "https:" ∷ []) u.protocol))
          "Invalid URL. Expected 'http' or 'https' protocol.")
        (ok u)
      ≡ ok endpoint
    → (u ≡ endpoint) × (includes ("http:" ∷ "https:" ∷ []) u.protocol ≡ true)
protocol_checked u e = elim (Bool-cases (includes ("http:" ∷ "https:" ∷ []) u.protocol)) [
  | inl yes_ ↦ (ground arith, yes_)
  | inr no_ ↦ ground arith
]

-- An endpoint that the command line accepts is one that the runtime parses; the client connects to
-- its host, and over TLS exactly when its protocol is `https:`, otherwise in plain text.
pub accepted_endpoint :
    {N : Type 0} (parse : String → Option Url) (number : String → Option N) (arg : String)
    (timeout : N) {endpoint : Url}
    → parse_url parse arg ≡ ok endpoint
    → let client = setup_concordium_client number endpoint timeout in
      (parse arg ≡ some endpoint)
      × (client.address ≡ endpoint.hostname)
      × (((endpoint.protocol ≡ "https:") × (client.ssl ≡ true))
          ⊎ ((endpoint.protocol ≡ "http:") × (client.ssl ≡ false)))
unfolding parse_url setup_concordium_client
accepted_endpoint parse number arg timeout {endpoint} e =
    let (u, parsed, e1) = >>=-eq-ok (or_message (parse arg) "Invalid URL.") _ e in
    let (kept, allowed) = protocol_checked u e1 in
    let found : parse arg ≡ some endpoint = ground arith in
    elim (included endpoint.protocol (rw (sym kept) allowed)) [
      | inl http_ ↦ (found, refl, inr (http_, rw http_ refl))
      | inr https_ ↦ (found, refl, inl (https_, rw https_ refl))
    ]
