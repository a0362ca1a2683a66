-- ===== src/Registry.antt =====
-- The credential registry clients of test-tools/issuer-front-end.
pub mod Types
pub mod Writing
pub mod Safety
