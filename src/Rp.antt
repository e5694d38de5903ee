-- ===== src/Rp.antt =====
-- src/rp.rs: the relying party. The children hold its parts.
pub mod Endpoints
pub mod Upstream
pub mod Kids
pub mod Library
pub mod Config
pub mod Authorize
pub mod Discover
pub mod Exchange
pub mod IdToken
pub mod Userinfo
pub mod Fixture
mod Examples
