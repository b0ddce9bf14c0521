-- ===== src/Identity.antt =====
-- Pillar 1, identity and purpose binding: pillar1_identity/.
pub mod Models
pub mod Dump
pub mod Registry
pub mod Validator
pub mod Token
