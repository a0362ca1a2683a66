-- ===== src/SomeIssuer.antt =====
-- The example issuer, examples/some-issuer/frontend/src.
pub mod Issuance
pub mod Toast
pub mod Discord
