-- ===== src/Auth.antt =====
-- sphere/src/auth and sphere/src/ingress: identities, the strategies that produce them, and the
-- gate that tries the strategies.
pub mod Identity
pub mod Strategy
pub mod ApiKey
pub mod Jwt
pub mod Gate
