-- ===== src/Router.antt =====
-- The routers of crates/kong-router.
pub mod Types
pub mod Process
pub mod Matching
pub mod Order
pub mod Rules
pub mod Accepts
pub mod Prefix
pub mod Table
pub mod Stream
pub mod Expressions
mod Tests
