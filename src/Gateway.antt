-- ===== src/Gateway.antt =====
-- The gateway: gateway/.
pub mod Outside
pub mod Models
pub mod Spend
pub mod Gates
pub mod Effective
pub mod Evaluate
pub mod DriftTasks
