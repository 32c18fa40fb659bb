-- ===== src/Examples/Auth.antt =====
-- Witnesses for the modules of Auth.
use intellisphere.Common.{String, ◌≡◌, refl, true, none, some, List, [], ◌∷◌, if◌then◌else◌}
use intellisphere.Config.{ApiKeyEntry, AuthConfig, jwt, api_key}
use intellisphere.Common.Dict.{lookup, insert}
use intellisphere.Auth.Gate.Configured.{Entitled, authenticate-Entitled}
use intellisphere.Auth.Identity.{Identity, anonymous}
use intellisphere.Auth.ApiKey
use intellisphere.Auth.ApiKey.{last_entry, authenticate-new}
use intellisphere.Common.{Result, ok, err, str_eq}
use intellisphere.Auth.Jwt
use intellisphere.Auth.Jwt.{Claims, Validation}
use intellisphere.Auth.Jwt.Outcome.{Judged, authenticate-Judged}
use intellisphere.Auth.Gate
use intellisphere.Auth.Gate.{IngressGate, token_of}
use intellisphere.Auth.Gate.Trials.{success, first_for, authenticate-success}

abbrev entry : String → String → ApiKeyEntry
entry key sub = record { key = key; identity_sub = sub; roles = []; scopes = [] }

abbrev entries : List ApiKeyEntry
entries = entry "k1" "alice" ∷ entry "k2" "bob" ∷ entry "k1" "carol" ∷ []

abbrev gate : IngressGate
gate = record { enabled = true; strategies = ApiKey.strategy entries ∷ [] }

authenticate-success_example : success (Gate.authenticate gate (some "Bearer k1") none) ≡ (
    if gate.enabled
    then first_for gate.strategies (token_of (some "Bearer k1") none)
    else some anonymous)
authenticate-success_example = authenticate-success gate (some "Bearer k1") none

abbrev claims : Claims
claims = record {
  sub = some "alice";
  roles = "admin" ∷ [];
  scopes = "tools:read" ∷ [];
  scope = some "tools:write tools:read";
}

abbrev decoder : Validation → String → Result Claims String
decoder v token = if str_eq token "good" then ok claims else err "ExpiredSignature"

authenticate-Judged_example :
    Judged
      (ok claims)
      (Jwt.authenticate decoder (Jwt.new_hs256 "secret" none (some "sphere")) "good")
authenticate-Judged_example =
    authenticate-Judged decoder (Jwt.new_hs256 "secret" none (some "sphere")) "good"

abbrev auth_config : AuthConfig
auth_config = record { enabled = true; strategies = jwt "secret" none none ∷ api_key entries ∷ [] }

abbrev carol : Identity
carol = record { sub = "carol"; roles = []; scopes = []; metadata = [] }

authenticate-Entitled_example :
    Entitled decoder true auth_config.strategies (token_of (some "Bearer k1") none) carol
unfolding Gate.authenticate Gate.try_each Gate.from_config token_of Jwt.authenticate
    ApiKey.authenticate ApiKey.new lookup insert
authenticate-Entitled_example =
    authenticate-Entitled decoder auth_config (some "Bearer k1") none carol refl
