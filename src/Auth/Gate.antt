-- ===== src/Auth/Gate.antt =====
-- sphere/src/ingress/gate.rs
pub mod Trials
pub mod Configured
use intellisphere.Common.{
  String, Bool, true, false, not, Option, none, some, List, [], ◌∷◌, map, Result, ok, err, ◌>>=◌,
  ok_or, if◌then◌else◌,
}
use intellisphere.Common.Text.{◌<>◌, starts_with, str_len, slice}
use intellisphere.Errors.{SphereError, auth_error}
use intellisphere.Config.{AuthStrategyConfig, jwt, api_key, AuthConfig}
use intellisphere.Auth.Identity.{Identity, anonymous}
use intellisphere.Auth.Strategy.{AuthError, missing_token, auth_error_text, AuthStrategy}
use intellisphere.Auth.ApiKey
use intellisphere.Auth.Jwt
use intellisphere.Auth.Jwt.{Claims, Validation}

pub record IngressGate : Type 0 where
  pub enabled : Bool
  pub strategies : List AuthStrategy

module _ (decode : Validation → String → Result Claims String) where
  pub strategy_of : AuthStrategyConfig → AuthStrategy
  strategy_of (jwt secret issuer audience) =
      Jwt.strategy decode (Jwt.new_hs256 secret issuer audience)
  strategy_of (api_key keys) = ApiKey.strategy keys

  unfoldable pub from_config : AuthConfig → IngressGate
  unfolding strategy_of
  from_config config = record {
    enabled = config.enabled;
    strategies = map strategy_of config.strategies;
  }

abbrev strip_bearer : String → String
strip_bearer value = if starts_with value "Bearer " then slice value 7 (str_len value) else value

-- The token to try: the Authorization header has precedence.
unfoldable pub token_of : Option String → Option String → Option String
token_of (some auth_value) api_key_header = some (strip_bearer auth_value)
token_of none api_key_header = api_key_header

-- The loop over the strategies, with the last error.
unfoldable pub try_each : List AuthStrategy → String → AuthError → Result Identity AuthError
try_each [] token last_error = err last_error
try_each (s ∷ ss) token last_error = elim (s.authenticate token) [
  | ok identity ↦ ok identity
  | err e ↦ try_each ss token e
]

unfoldable pub all_failed : Result Identity AuthError → Result Identity SphereError
all_failed (ok identity) = ok identity
all_failed (err e) = err (auth_error ("all strategies failed: " <> auth_error_text e))

unfoldable pub authenticate :
    IngressGate → Option String → Option String → Result Identity SphereError
unfolding all_failed
authenticate gate authorization_header api_key_header =
    if not gate.enabled then ok anonymous else (do
      token ←
          ok_or (token_of authorization_header api_key_header)
            (auth_error "missing Authorization or X-API-Key header")
      all_failed (try_each gate.strategies token missing_token))
