-- ===== src/Sdk.antt =====
-- The client library for agents (sdk/).
pub mod Client
pub mod Guard
