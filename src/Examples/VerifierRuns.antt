-- ===== src/Examples/VerifierRuns.antt =====
-- Tests of the verifier.
use concordium_web3id.Common.{
  arith, ℕ, ◌≡◌, ◌↔◌, ◌⊎◌, String, true, false, Option, some, List, [], ◌∷◌, refl, ok, err, Result,
  str_eq,
}
use concordium_web3id.Verifier.Arguments.{
  Url, parse_url, setup_concordium_client, accepted_endpoint,
}
use concordium_web3id.Verifier.Server.{
  Throwable, other_error, active, revoked, PublicData, Services, Verified, sent, handle_verify,
}
use concordium_web3id.Verifier.Outcomes.{
  is_http_error, IsVerified, Outcome, handle_verify_sent_iff, handle_verify-Outcome,
}

abbrev node : Url
node = record { protocol = "https:"; hostname = "grpc.testnet.concordium.com"; port = "20000" }

abbrev urls : String → Option Url
urls s = some node

abbrev digits : String → Option ℕ
digits s = some 20000

accepted_run : parse_url urls "https://grpc.testnet.concordium.com:20000" ≡ ok node
unfolding parse_url
accepted_run = refl

accepted_endpoint_example :
    (urls "https://grpc.testnet.concordium.com:20000" ≡ some node)
    × ((setup_concordium_client digits node 15000).address ≡ node.hostname)
    × (((node.protocol ≡ "https:") × ((setup_concordium_client digits node 15000).ssl ≡ true))
        ⊎ ((node.protocol ≡ "http:") × ((setup_concordium_client digits node 15000).ssl ≡ false)))
accepted_endpoint_example =
    accepted_endpoint urls digits "https://grpc.testnet.concordium.com:20000" 15000 accepted_run

abbrev body_of : String → Result Throwable String
body_of s = elim (str_eq s "vp") [ true ↦ ok "vp" | false ↦ err (other_error "Unexpected token") ]

abbrev revoked_data : List (PublicData String)
revoked_data =
    record { status = active; inputs = "a" } ∷ record { status = revoked; inputs = "b" } ∷ []

abbrev with_data : List (PublicData String) → Services String String ℕ String String String
with_data ds = record {
  from_string = body_of;
  get_block_info = ok ("block", 7);
  get_public_data = λ vp hash. ok ds;
  get_cryptographic_parameters = λ hash. ok "params";
  verify_presentation = λ vp params inputs. ok "request";
}

abbrev verdict : Verified String ℕ String
verdict = record { block_hash = "block"; block_time = 7; request = "request" }

handle_verify_sent_iff_example :
    (handle_verify (with_data (record { status = active; inputs = "a" } ∷ [])) "vp" ≡ sent verdict)
    ↔ IsVerified (with_data (record { status = active; inputs = "a" } ∷ [])) "vp" verdict
handle_verify_sent_iff_example =
    handle_verify_sent_iff (with_data (record { status = active; inputs = "a" } ∷ [])) "vp" verdict

revoked_ne_active : ¬ (revoked ≡ active)
revoked_ne_active e = ground arith

parsing_plain :
    (e : Throwable) → (with_data revoked_data).from_string "{" ≡ err e → is_http_error e ≡ false
parsing_plain e thrown = ground arith

handle_verify-Outcome_example :
    Outcome (with_data revoked_data) "{" (handle_verify (with_data revoked_data) "{")
handle_verify-Outcome_example =
    handle_verify-Outcome (with_data revoked_data) "{" (λ e thrown. parsing_plain e thrown)
