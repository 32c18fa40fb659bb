-- ===== src/Auth/Strategy.antt =====
-- sphere/src/auth/strategy.rs
use intellisphere.Common.{String, Result}
use intellisphere.Common.Text.{◌<>◌}
use intellisphere.Auth.Identity.{Identity}

pub data AuthError : Type 0 where
  invalid_token : String → AuthError
  expired_token missing_token unknown_api_key : AuthError

unfoldable pub auth_error_text : AuthError → String
auth_error_text (invalid_token e) = "invalid token: " <> e
auth_error_text expired_token = "expired token"
auth_error_text missing_token = "missing token"
auth_error_text unknown_api_key = "unknown API key"

pub record AuthStrategy : Type 0 where
  pub name : String
  pub authenticate : String → Result Identity AuthError
