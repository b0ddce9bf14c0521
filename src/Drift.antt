-- ===== src/Drift.antt =====
-- The baselines of the agents' behaviour (pillar3_drift).
pub mod Baseline
pub mod Governance
pub mod Signals
pub mod Detector
