-- ===== src/Provider.antt =====
-- Model selection of the AI gateway (crates/kong-ai/src/provider).
pub mod Weighted
pub mod Group
pub mod ModelRouter
