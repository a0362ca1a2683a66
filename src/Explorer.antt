-- ===== src/Explorer.antt =====
-- The proof explorer, test-tools/proof-explorer.
pub mod Types
pub mod Thrown
pub mod Wallet
pub mod Page
pub mod Providers
pub mod Issuers
pub mod Tags
pub mod Browser
pub mod Statements
pub mod Claims
pub mod Submit
pub mod Anchor
pub mod Flow
pub mod Right
pub mod Builders
pub mod Details
pub mod Display
pub mod AccountForms
