-- ===== src/Verifier.antt =====
-- The verifier service, services/web3id-verifier-ts.
pub mod Arguments
pub mod Server
pub mod Outcomes
