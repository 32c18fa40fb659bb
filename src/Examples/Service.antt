-- ===== src/Examples/Service.antt =====
-- The service over its life, at concrete requests and messages.
use intellisphere.Common.{
  ℕ, ◌≤◌, String, ◌≡◌, refl, Option, none, some, List, [], ◌∷◌, ok, err, arith,
}
use intellisphere.Auth.Identity.{anonymous}
use intellisphere.Common.Dict.{insert}
use intellisphere.Auth.Gate
use intellisphere.Auth.Gate.{IngressGate, authenticate}
use intellisphere.Pipeline.Regex.{literal_engine}
use intellisphere.Satellite.TrustBudget
use intellisphere.Satellite.Session.{SatelliteSession, new, create}
use intellisphere.Satellite.Ws.{
  SatelliteState, CreateSessionRequest, CreateSessionResponse, create_session, find_session,
  ws_upgrade, generate_token, validate_token,
}
use intellisphere.Satellite.Ws.Lifecycle.{
  Event, creation, message, cleanup, removal, Reach, here, next, after, accepted_in,
}
use intellisphere.Satellite.Ws.Lifecycle.Opened.{OpensGranted}
use intellisphere.Satellite.Ws.Lifecycle.Refinement.{answers, spec_answers, answers-spec_answers}
use intellisphere.Satellite.Ws.Lifecycle.Limit.{create_session-accepted_in}
use intellisphere.Config.Sections.{read_auth}
use intellisphere.Config.Service
use intellisphere.Start.{start}
use intellisphere.Start.Admission.{ws_upgrade-Granted}
use intellisphere.Examples.Data.{
  tenths_float, lower, registry, chain, mac, rfc3339, parse, plus, open_gate, config, core,
}

abbrev asked : ℕ → CreateSessionRequest ℕ
asked tenths = record { trust_budget = some tenths; duration_secs = none }

abbrev fresh_state : Option (SatelliteState ℕ)
fresh_state = some (record { session_manager = new; server_secret = "secret" })

-- The state after the creation of a first session of three units.
abbrev first_session : SatelliteSession ℕ
first_session = record {
  session_id = "s1";
  identity_sub = anonymous.sub;
  trust_budget = TrustBudget.new 30 10;
  created_at = 0;
  expires_at = 3600;
}

abbrev first_state : String → SatelliteState ℕ
first_state secret = record {
  session_manager = record { sessions = ("s1", first_session) ∷ [] };
  server_secret = secret;
}

first_reached :
    Reach mac rfc3339 plus parse registry chain open_gate fresh_state (some (first_state "secret"))
unfolding after create_session authenticate create insert
first_reached = next (creation none none (asked 30) "s1" 0) here

abbrev events : List (Event ℕ)
events =
    message "s2" "r1" "a"
    ∷ message "s1" "r2" "b"
    ∷ creation none none (asked 50) "s3" 10
    ∷ message "s2" "r3" "c"
    ∷ cleanup 20
    ∷ removal "s1"
    ∷ message "s2" "r4" "d"
    ∷ []

create_session-accepted_in_example :
    (response : CreateSessionResponse) × (state' : SatelliteState ℕ) × (create_session mac rfc3339
        plus open_gate none none
        (asked 20)
        "s2"
        5
        (some (first_state "secret"))
      ≡ some (ok response, some state'))
    × (accepted_in mac rfc3339 plus parse registry chain open_gate "s2" events (some state') ≤ 1)
unfolding authenticate
create_session-accepted_in_example =
    create_session-accepted_in mac rfc3339 plus parse registry chain open_gate "secret" none none
      (asked 20) "s2" 5 3605 1 (first_state "secret") anonymous events first_reached refl refl refl
      (omega arith) (tt, (tt, (refl, (tt, (tt, (tt, (tt, tt)))))))

abbrev ServiceReach : Option (SatelliteState ℕ) → Type 0
ServiceReach =
    let service = start {F = ℕ} literal_engine lower (λ v token. err "") config core none 0 in
    Reach mac rfc3339 plus parse service.tool_registry service.pipeline service.ingress_gate
      service.satellite_state

started_reached : ServiceReach (some (first_state "dev-satellite-secret"))
unfolding start after create_session authenticate create insert Gate.from_config Service.read
    read_auth
started_reached = next (creation none none (asked 30) "s1" 0) here

ws_upgrade-Granted_example :
    OpensGranted plus
      (start {F = ℕ} literal_engine lower (λ v token. err "") config core none 0).ingress_gate
      (creation none none (asked 30) "s1" 0 ∷ [])
      mac
      rfc3339
      "dev-satellite-secret"
      (first_state "dev-satellite-secret")
      "dev-satellite-secrets1:anonymous:2026"
      "s1"
      50
unfolding ws_upgrade find_session generate_token validate_token started_reached
ws_upgrade-Granted_example =
    ws_upgrade-Granted literal_engine lower (λ v token. err "") mac rfc3339 plus parse config core
      none 0 50 (first_state "dev-satellite-secret") "dev-satellite-secrets1:anonymous:2026" "s1"
      started_reached refl

answers-spec_answers_example :
    answers mac rfc3339 plus parse registry chain open_gate
      (creation none none (asked 30) "s1" 0 ∷ message "s1" "r0" "a" ∷ events)
      (some (record { session_manager = new; server_secret = "secret" }))
    ≡ spec_answers mac rfc3339 plus parse registry chain open_gate "secret"
        (creation none none (asked 30) "s1" 0 ∷ message "s1" "r0" "a" ∷ events)
        (λ sid. none)
answers-spec_answers_example =
    answers-spec_answers mac rfc3339 plus parse registry chain open_gate "secret"
      (creation none none (asked 30) "s1" 0 ∷ message "s1" "r0" "a" ∷ events)
