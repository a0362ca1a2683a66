-- ===== src/SomeVerifier.antt =====
-- The example verifier, examples/some-verifier/frontend.
pub mod Proofs
pub mod Removal
pub mod Page
pub mod Logins
pub mod Hash
