-- ===== src/TestTool.antt =====
-- The page of the test tool, test-tools/issuer-front-end/src/Main.tsx, and its calls of the backend.
pub mod Hex
pub mod Attributes
pub mod Backend
pub mod Register
pub mod Contract
pub mod Buttons
pub mod Account
pub mod Entry
pub mod Fields
pub mod View
