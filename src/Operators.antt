-- ===== src/Operators.antt =====
-- operator_keys/service.py, common/operator_auth.py and common/oidc.py: the people who operate the
-- control plane, and how they are authenticated.
pub mod Keys
pub mod Oidc
pub mod Auth
