-- ===== src/Policy.antt =====
-- sphere/src/policy
pub mod Engine
