-- ===== src/Satellite/Ws.antt =====
-- sphere/src/satellite/ws.rs. The HMAC, the time format and the JSON reader are parameters, and so
-- are the fresh identifiers; a connection is the sequence of what its loop waits for.
pub mod Upgrade
pub mod Doomed
pub mod Spending
pub mod Interleaved
pub mod Issue
pub mod Created
pub mod Lifecycle
pub mod Ageless
use intellisphere.Common.{
  ℕ, String, Bool, true, false, not, Option, none, some, List, [], ◌∷◌, Result, ok, err, ◌>>=◌,
  ok_or, map_err, ltb, str_eq, unwrap_or, if◌then◌else◌,
}
use intellisphere.Common.Text.{◌<>◌}
use intellisphere.Common.Dict.{Dict}
use intellisphere.Common.Float.{Float}
use intellisphere.Errors.{SphereError, auth_error, internal}
use intellisphere.Auth.Identity.{Identity}
use intellisphere.Auth.Gate.{IngressGate, authenticate}
use intellisphere.Pipeline.Chain.{PipelineChain}
use intellisphere.Tools.Registry.{ToolRegistry}
use intellisphere.Satellite.TrustBudget
use intellisphere.Satellite.TrustBudget.{TrustBudget, is_exhausted, is_suspicious}
use intellisphere.Satellite.Session.{SatelliteSession, SessionManager, create, get, put}
use intellisphere.Satellite.Adjudicator.{ToolProposal, AdjudicationResult, adjudicate}

-- `SatelliteState`: the session table and the server's secret.
pub record SatelliteState (F : Type 0) : Type 0 where
  pub session_manager : SessionManager F
  pub server_secret : String

pub record CreateSessionRequest (F : Type 0) : Type 0 where
  pub trust_budget : Option F
  pub duration_secs : Option ℕ

pub record CreateSessionResponse : Type 0 where
  pub session_id : String
  pub token : String
  pub expires_at : String

pub data SatelliteMessage : Type 0 where
  tool_proposal : String → String → String → SatelliteMessage
  adjudication_result : String → Bool → Option String → SatelliteMessage
  ping pong : SatelliteMessage
  error session_terminated : String → SatelliteMessage

module _ (mac : String → String → String) where
  -- `mac` is the HMAC-SHA256 of its second argument under the key, in hex.
  unfoldable pub generate_token : String → String → String → String → String
  generate_token session_id identity_sub expires_at secret =
      mac secret (session_id <> ":" <> identity_sub <> ":" <> expires_at)

  unfoldable pub validate_token : String → String → String → String → String → Bool
  validate_token token session_id identity_sub expires_at secret =
      str_eq token (generate_token session_id identity_sub expires_at secret)

  -- `rfc3339` is `to_rfc3339`. The search ends at the first session the token is valid for.
  module _ {F : Type 0} (rfc3339 : ℕ → String) where
    unfoldable pub find_session : String → String → ℕ → Dict (SatelliteSession F) → Option String
    find_session token secret now [] = none
    find_session token secret now ((sid, s) ∷ rest) =
        let later = find_session token secret now rest in
        if validate_token token sid s.identity_sub (rfc3339 s.expires_at) secret
        then (if ltb now s.expires_at then some sid else none)
        else later

    -- The session that the connection is then served for.
    unfoldable pub ws_upgrade : Option (SatelliteState F) → String → ℕ → Result String SphereError
    ws_upgrade state token now = do
      sat_state ← ok_or state (internal "satellite not configured")
      ok_or (find_session token sat_state.server_secret now sat_state.session_manager.sessions)
          (auth_error "invalid or expired session token")

    -- `plus` is the addition of a duration in seconds, an i64 by its bit pattern, to a time; it is
    -- `none` where `chrono` panics, and then so is the result.
    module _ ⦃fl : Float F⦄ (plus : ℕ → ℕ → Option ℕ) where
      issue :
          CreateSessionRequest F
          → String
          → ℕ
          → Option (SatelliteState F)
          → Identity
          → ℕ
          → Result CreateSessionResponse SphereError × Option (SatelliteState F)
      issue body session_id now none identity expires_at =
          (err (internal "satellite not configured"), none)
      issue body session_id now (some sat_state) identity expires_at = (
        ok (record {
          session_id = session_id;
          token =
              generate_token session_id identity.sub (rfc3339 expires_at) sat_state.server_secret;
          expires_at = rfc3339 expires_at;
        }),
        some (record sat_state {
          session_manager =
              create session_id identity.sub
                (TrustBudget.new (unwrap_or body.trust_budget (fl.nat 100)) (fl.nat 1)) expires_at
                now sat_state.session_manager;
        }),
      )

      dated :
          CreateSessionRequest F
          → String
          → ℕ
          → Option (SatelliteState F)
          → Identity
          → Option ℕ
          → Option (Result CreateSessionResponse SphereError × Option (SatelliteState F))
      unfolding issue
      dated body session_id now state identity none = none
      dated body session_id now state identity (some expires_at) =
          some (issue body session_id now state identity expires_at)

      authenticated :
          CreateSessionRequest F
          → String
          → ℕ
          → Option (SatelliteState F)
          → Result Identity SphereError
          → Option (Result CreateSessionResponse SphereError × Option (SatelliteState F))
      unfolding dated
      authenticated body session_id now state (err e) = some (err e, state)
      authenticated body session_id now state (ok identity) =
          dated body session_id now state identity (plus now (unwrap_or body.duration_secs 3600))

      unfoldable pub create_session :
          IngressGate
          → Option String
          → Option String
          → CreateSessionRequest F
          → String
          → ℕ
          → Option (SatelliteState F)
          → Option (Result CreateSessionResponse SphereError × Option (SatelliteState F))
      unfolding authenticated
      create_session gate authorization api_key body session_id now state =
          authenticated body session_id now state (authenticate gate authorization api_key)

-- What the loop of a connection wakes up for. A text comes with the identifier that adjudication
-- draws for it, and a reply with whether the socket takes it.
pub data WsEvent : Type 0 where
  heartbeat : Bool → WsEvent
  text : String → String → Bool → WsEvent
  closed other : WsEvent

abbrev pub ends : SatelliteMessage → Bool
ends (session_terminated reason) = true
ends (tool_proposal id tool_name result_payload) = false
ends (adjudication_result id accepted reason) = false
ends ping = false
ends pong = false
ends (error message) = false

module _ {F : Type 0} ⦃fl : Float F⦄ (parse : String → Result SatelliteMessage String)
    (registry : ToolRegistry) (pipeline : PipelineChain) where
  -- The reply to a proposal, on the session as adjudication leaves it.
  unfoldable pub reply_of : String → AdjudicationResult → TrustBudget F → SatelliteMessage
  reply_of id result b =
      if is_exhausted b
      then session_terminated "trust budget exhausted"
      else if is_suspicious b
      then session_terminated "suspicion threshold exceeded"
      else adjudication_result id result.accepted result.reason

  unfoldable pub adjudicated :
      String
      → SatelliteState F
      → String
      → AdjudicationResult × SatelliteSession F
      → SatelliteMessage × Option (SatelliteState F)
  adjudicated session_id state id (result, session) = (
    reply_of id result session.trust_budget,
    some (record state { session_manager = put session_id session state.session_manager }),
  )

  unfoldable pub propose_to :
      String
      → String
      → SatelliteState F
      → String
      → ToolProposal
      → Option (SatelliteSession F)
      → SatelliteMessage × Option (SatelliteState F)
  unfolding adjudicated
  propose_to request_id session_id state id p none =
      (session_terminated "session not found", some state)
  propose_to request_id session_id state id p (some session) =
      adjudicated session_id state id (adjudicate request_id p registry pipeline session)

  unfoldable pub propose :
      String
      → String
      → Option (SatelliteState F)
      → String
      → ToolProposal
      → SatelliteMessage × Option (SatelliteState F)
  unfolding propose_to
  propose request_id session_id none id p = (error "satellite not configured", none)
  propose request_id session_id (some state) id p =
      propose_to request_id session_id state id p (get session_id state.session_manager)

  unfoldable pub dispatch :
      String
      → String
      → Option (SatelliteState F)
      → Result SatelliteMessage String
      → SatelliteMessage × Option (SatelliteState F)
  dispatch request_id session_id state (err e) = (error ("invalid message: " <> e), state)
  dispatch request_id session_id state (ok pong) = (ping, state)
  dispatch request_id session_id state (ok (tool_proposal id tool_name result_payload)) =
      propose request_id session_id state id
        (record { tool_name = tool_name; result_payload = result_payload })
  dispatch request_id session_id state (ok ping) = (error "unexpected message type", state)
  dispatch request_id session_id state (ok (adjudication_result id accepted reason)) =
      (error "unexpected message type", state)
  dispatch request_id session_id state (ok (error message)) =
      (error "unexpected message type", state)
  dispatch request_id session_id state (ok (session_terminated reason)) =
      (error "unexpected message type", state)

  unfoldable pub handle_message :
      String
      → String
      → Option (SatelliteState F)
      → String
      → SatelliteMessage × Option (SatelliteState F)
  unfolding dispatch
  handle_message request_id session_id state content =
      dispatch request_id session_id state (parse content)

  -- The messages the loop sends, and the state that it leaves.
  unfoldable pub handle_ws :
      String
      → List WsEvent
      → Option (SatelliteState F)
      → List SatelliteMessage × Option (SatelliteState F)
  handle_ws session_id [] state = ([], state)
  handle_ws session_id (heartbeat sent ∷ events) state =
      let (replies, state') = handle_ws session_id events state in
      if sent then (ping ∷ replies, state') else ([], state)
  handle_ws session_id (text request_id content sent ∷ events) state =
      let (reply, state') = handle_message request_id session_id state content in
      let (replies, state'') = handle_ws session_id events state' in
      if not sent
      then ([], state')
      else if ends reply
      then (reply ∷ [], state')
      else (reply ∷ replies, state'')
  handle_ws session_id (closed ∷ events) state = ([], state)
  handle_ws session_id (other ∷ events) state = handle_ws session_id events state
