-- ===== src/Provider.antt =====
-- src/provider.rs: the OpenID Provider, in parts.
pub mod Defs
pub mod Claims
pub mod Form
pub mod Redirect
pub mod Validate
pub mod Mint
pub mod Issue
pub mod Clients
pub mod Grants
pub mod Userinfo
pub mod Registered
pub mod Fixture
mod Examples
