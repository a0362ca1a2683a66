-- ===== src/IssuerApp.antt =====
-- The issuer front end, issuer-front-end.
pub mod Schema
pub mod Deploy
pub mod Steps
pub mod Balance
pub mod Files
pub mod Shell
