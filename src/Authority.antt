-- ===== src/Authority.antt =====
-- Pillar 6, human authority: pillar6_authority/.
pub mod Approval
pub mod Tiering
pub mod Endpoint
