-- ===== src/Api.antt =====
-- sphere/src/api: the HTTP handlers of completions and of the health check.
pub mod Chat
pub mod Health
pub mod Routes
