-- ===== src/Examples/Satellite.antt =====
-- Witnesses for the modules of Satellite.
use intellisphere.Common.{
  ℕ, String, ◌≡◌, refl, true, false, ◌&&◌, none, some, List, [], ◌∷◌, ok, err, is_ok, ltb, leb,
  arith,
}
use intellisphere.Common.Dict.{lookup}
use intellisphere.Common.Text.{str_len}
use intellisphere.Config.{default_pipeline}
use intellisphere.Errors.{auth_error}
use intellisphere.Common.{if◌then◌else◌}
use intellisphere.Auth.Identity.{anonymous}
use intellisphere.Auth.Gate.{authenticate}
use intellisphere.Satellite.Ws.{CreateSessionRequest, CreateSessionResponse, create_session}
use intellisphere.Satellite.Ws.Issue.{ws_upgrade-create_session}
use intellisphere.Pipeline.Context
use intellisphere.Pipeline.Regex.{literal_engine}
use intellisphere.Pipeline.Inbound.Sanitization.{has_null}
use intellisphere.Pipeline.Chain.{run_inbound}
use intellisphere.Tools.Registry
use intellisphere.Satellite.TrustBudget
use intellisphere.Satellite.TrustBudget.{TrustBudget, deduct}
use intellisphere.Satellite.Session.{SatelliteSession, get, put}
use intellisphere.Satellite.Adjudicator.{
  ToolProposal, adjudicate, max_result_bytes, proposal_message,
}
use intellisphere.Satellite.Adjudicator.Verdict.{in_satellite_zone, adjudicate-accepted}
use intellisphere.Satellite.Adjudicator.Nulls.{adjudicate_null}
use intellisphere.Satellite.Ws.{
  SatelliteState, WsEvent, text, heartbeat, generate_token, validate_token, ws_upgrade, handle_ws,
}
use intellisphere.Satellite.Ws.Doomed.{session_of, handle_ws-other}
use intellisphere.Satellite.Ws.Ageless.{handle_ws-until}
use intellisphere.Satellite.Adjudicator.Ageless.{until}
use intellisphere.Satellite.Ws.Interleaved.{Arrival, accepted_for}
use intellisphere.Start.{start}
use intellisphere.Start.Closed.{start-accepts_none}
use intellisphere.Examples.Data.{
  tenths_float, lower, open_tool, registry, chain, mac, rfc3339, parse, plus, open_gate, config,
  core,
}

-- A session with three units.
abbrev session : SatelliteSession ℕ
session = record {
  session_id = "s1";
  identity_sub = "alice";
  trust_budget = TrustBudget.new 30 10;
  created_at = 0;
  expires_at = 100;
}

abbrev spent_session : SatelliteSession ℕ
spent_session = record session { session_id = "s2"; trust_budget = TrustBudget.new 0 10 }

abbrev state : SatelliteState ℕ
state = record {
  session_manager = record { sessions = ("s1", session) ∷ ("s2", spent_session) ∷ [] };
  server_secret = "secret";
}

abbrev proposal : String → ToolProposal
proposal payload = record { tool_name = "lookup"; result_payload = payload }

abbrev events : List WsEvent
events =
    text "r1" "a" true
    ∷ heartbeat true
    ∷ text "r2" "b" true
    ∷ text "r3" "c" true
    ∷ text "r4" "d" true
    ∷ []

adjudicate-accepted_example : (adjudicate "r1" (proposal "a") registry chain session).0.accepted ≡ (
    (deduct 10 session.trust_budget).0
    && (in_satellite_zone (Registry.get "lookup" registry)
        && (leb (str_len "a") max_result_bytes
            && is_ok
                (run_inbound chain (proposal_message (proposal "a")) (Context.new "r1" "s1")).0)))
adjudicate-accepted_example = adjudicate-accepted "r1" (proposal "a") registry chain session

adjudicate_null_example :
    ((adjudicate "r1" (proposal "a\0") registry chain session).0.accepted ≡ false)
    × ((adjudicate "r1" (proposal "a\0") registry chain session).1.trust_budget.suspicion_score ≡ 2)
unfolding has_null deduct Registry.get lookup
adjudicate_null_example =
    adjudicate_null "r1" (proposal "a\0") registry literal_engine lower default_pipeline session
      open_tool refl refl refl refl refl refl (omega arith)

abbrev proposals : List (String × ToolProposal)
proposals = ("r1", proposal "a") ∷ ("r2", proposal "b") ∷ ("r3", proposal "c") ∷ []

handle_ws-other_example :
    session_of "s2" (handle_ws parse registry chain "s1" events (some state)).1
    ≡ session_of "s2" (some state)
handle_ws-other_example = handle_ws-other parse registry chain "s1" "s2" events (some state) refl

-- The session ended at 100; it could as well have ended at 5.
handle_ws-until_example :
    (handle_ws parse registry chain "s1" events (
      some (record state { session_manager = put "s1" (until 5 session) state.session_manager }))).0
    ≡ (handle_ws parse registry chain "s1" events (some state)).0
unfolding get lookup
handle_ws-until_example = handle_ws-until parse registry chain 5 "s1" events state session refl

abbrev token : String
token = "secrets1:alice:2026"

abbrev defaults : CreateSessionRequest ℕ
defaults = record { trust_budget = none; duration_secs = none }

ws_upgrade-create_session_example :
    (response : CreateSessionResponse) × (state' : SatelliteState ℕ) × (create_session mac rfc3339
        plus open_gate none none defaults "s3" 0
        (some state)
      ≡ some (ok response, some state'))
    × (ws_upgrade mac rfc3339 (some state') response.token 3599
        ≡ (if ltb 3599 3600 then ok "s3" else err (auth_error "invalid or expired session token")))
unfolding authenticate generate_token validate_token
ws_upgrade-create_session_example =
    ws_upgrade-create_session mac rfc3339 plus open_gate none none defaults "s3" 0 3599 3600 state
      anonymous refl refl ((λ h. cc), ((λ h. cc), tt))

-- Two connections of the first session and one of the second, interleaved.
abbrev arrivals : List Arrival
arrivals =
    ("s1", "r1", "a")
    ∷ ("s2", "r2", "b")
    ∷ ("s1", "r3", "c")
    ∷ ("s1", "r4", "d")
    ∷ ("s1", "r5", "e")
    ∷ []

start-accepts_none_example :
    accepted_for parse
      (start {F = ℕ} literal_engine lower (λ v token. err "") config core none 0).tool_registry
      (start {F = ℕ} literal_engine lower (λ v token. err "") config core none 0).pipeline
      "s1"
      arrivals
      (some state)
    ≡ 0
start-accepts_none_example =
    start-accepts_none literal_engine lower (λ v token. err "") parse config core none 0 "s1"
      arrivals (some state)
