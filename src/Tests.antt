-- ===== src/Tests.antt =====
-- Concrete data, and runs of the theorems on it.
mod Fixtures
mod Gateway
mod Policy
mod Identity
mod Token
mod Authority
mod Containment
mod Drift
mod DriftCheck
mod Observability
mod Studio
mod Executor
mod Operators
mod Startup
mod Sdk
