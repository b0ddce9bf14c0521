-- ===== src/Policy.antt =====
-- Pillar 2, policy enforcement: pillar2_policy/.
pub mod Filter
pub mod Engine
