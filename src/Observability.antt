-- ===== src/Observability.antt =====
-- The audit record (pillar4_observability).
pub mod Integrity
