-- ===== src/Start/Admission.antt =====
-- Whom the service as `main` starts it serves over a WebSocket.
use intellisphere.Common.{ℕ, String, ◌≡◌, Option, some, Result, ok, unwrap_or, []}
use intellisphere.Auth.Gate
use intellisphere.Common.Float.{Float}
use intellisphere.Auth.Jwt.{Claims, Validation}
use intellisphere.Config.Service.{SphereConfig}
use intellisphere.Core.{CoreClient}
use intellisphere.Pipeline.Regex.{RegexEngine}
use intellisphere.Satellite.Ws.{SatelliteState, SatelliteMessage, ws_upgrade}
use intellisphere.Satellite.Ws.Lifecycle.Opened.{OpensGranted, ws_upgrade_owned}
use intellisphere.Satellite.Ws.Lifecycle.{Reach, past}
use intellisphere.Satellite.Ws.Lifecycle.Owners.{new-IsOwned}
use intellisphere.Satellite.Ws.Lifecycle.Kept.{Reach-Owned}
use intellisphere.Start.{start, satellites}

module _ {F : Type 0} ⦃fl : Float F⦄ where
  -- In every state that the service comes to from its start, by creations, messages, cleanups and
  -- removals in any order, a token that the upgrade admits is the one made under the service's
  -- secret for the session of the table that it opens, which has not expired. One of the creations
  -- on the way made that session under its id: the gate of the configuration let its caller in, on
  -- the headers of that request, and the session carries that caller's subject; it expires when that
  -- request asked for, an hour after it by default; and its budget is no more than that request
  -- asked for, or 100.
  pub ws_upgrade-Granted :
      {Chunk Status : Type 0} (re : RegexEngine) (lower : String → String)
      (decode : Validation → String → Result Claims String) (mac : String → String → String)
      (rfc3339 : ℕ → String) (plus : ℕ → ℕ → Option ℕ)
      (parse : String → Result SatelliteMessage String) (config : SphereConfig)
      (core : CoreClient Chunk Status) (secret : Option String) (now later : ℕ)
      (state : SatelliteState F) (token sid : String)
      → let service = start {F = F} re lower decode config core secret now in
        (reached : Reach mac rfc3339 plus parse service.tool_registry service.pipeline
          service.ingress_gate service.satellite_state
          (some state))
        → ws_upgrade mac rfc3339 (some state) token later ≡ ok sid
        → let service = start {F = F} re lower decode config core secret now in
          OpensGranted plus service.ingress_gate
            (past mac rfc3339 plus parse service.tool_registry service.pipeline service.ingress_gate
              reached)
            mac
            rfc3339
            (unwrap_or secret "dev-satellite-secret")
            state
            token
            sid
            later
  unfolding start satellites
  ws_upgrade-Granted re lower decode mac rfc3339 plus parse config core secret now later state token
        sid reached admitted =
      let gate = Gate.from_config decode config.auth in
      ws_upgrade_owned plus gate _ mac rfc3339 (unwrap_or secret "dev-satellite-secret") state token
        sid later
        (Reach-Owned plus gate _ mac rfc3339 parse _ _
          (new-IsOwned plus gate [] (unwrap_or secret "dev-satellite-secret")) reached)
        admitted
