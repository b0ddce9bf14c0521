-- ===== src/Studio.antt =====
-- policy_studio/: drafts of policies, and the releases that are published and activated from them.
pub mod Drafts
pub mod Publisher
pub mod Releases
