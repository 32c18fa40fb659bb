-- ===== src/Satellite/Ws/Lifecycle/Spec.antt =====
-- What the service promises of its sessions, with no table: a function from identifiers to sessions.
use intellisphere.Common.{
  ℕ, String, Option, none, some, Result, ok, err, ltb, str_eq, unwrap_or, if◌then◌else◌,
}
use intellisphere.Common.Text.{◌<>◌}
use intellisphere.Common.Dict.{filter_some}
use intellisphere.Common.Float.{Float}
use intellisphere.Errors.{SphereError}
use intellisphere.Auth.Identity.{Identity}
use intellisphere.Auth.Gate.{IngressGate, authenticate}
use intellisphere.Pipeline.Chain.{PipelineChain}
use intellisphere.Tools.Registry.{ToolRegistry}
use intellisphere.Satellite.TrustBudget
use intellisphere.Satellite.Session.{SatelliteSession}
use intellisphere.Satellite.Adjudicator.{ToolProposal, adjudicate}
use intellisphere.Satellite.Ws.{
  SatelliteMessage, CreateSessionRequest, CreateSessionResponse, tool_proposal, adjudication_result,
  ping, pong, error, session_terminated, generate_token, reply_of,
}
use intellisphere.Satellite.Ws.Lifecycle.{Event, creation, message, cleanup, removal}

-- What an event is answered by: a message, the response to a creation, `none` where it panics, or
-- the session that a removal takes out.
pub data Reply (F : Type 0) : Type 0 where
  sent : SatelliteMessage → Reply F
  created : Option (Result CreateSessionResponse SphereError) → Reply F
  removed : Option (SatelliteSession F) → Reply F
  silent : Reply F

abbrev pub Sessions : Type 0 → Type 0
Sessions F = String → Option (SatelliteSession F)

abbrev pub bind : {F : Type 0} → String → Option (SatelliteSession F) → Sessions F → Sessions F
bind sid s sessions j = if str_eq sid j then s else sessions j

module _ {F : Type 0} ⦃fl : Float F⦄ (mac : String → String → String) (rfc3339 : ℕ → String)
    (plus : ℕ → ℕ → Option ℕ) (parse : String → Result SatelliteMessage String)
    (registry : ToolRegistry) (chain : PipelineChain) (gate : IngressGate) (secret : String) where
  unfoldable pub spec_propose :
      String
      → String
      → String
      → ToolProposal
      → Option (SatelliteSession F)
      → Sessions F
      → Reply F × Sessions F
  spec_propose sid request_id id p none sessions =
      (sent (session_terminated "session not found"), sessions)
  spec_propose sid request_id id p (some s) sessions =
      let (result, s') = adjudicate request_id p registry chain s in
      (sent (reply_of parse registry chain id result s'.trust_budget), bind sid (some s') sessions)

  unfoldable pub spec_message :
      String → String → Result SatelliteMessage String → Sessions F → Reply F × Sessions F
  spec_message sid request_id (ok (tool_proposal id name payload)) sessions =
      spec_propose sid request_id id (record { tool_name = name; result_payload = payload })
        (sessions sid) sessions
  spec_message sid request_id (ok pong) sessions = (sent ping, sessions)
  spec_message sid request_id (err e) sessions = (sent (error ("invalid message: " <> e)), sessions)
  spec_message sid request_id (ok ping) sessions =
      (sent (error "unexpected message type"), sessions)
  spec_message sid request_id (ok (adjudication_result id accepted reason)) sessions =
      (sent (error "unexpected message type"), sessions)
  spec_message sid request_id (ok (error text)) sessions =
      (sent (error "unexpected message type"), sessions)
  spec_message sid request_id (ok (session_terminated reason)) sessions =
      (sent (error "unexpected message type"), sessions)

  unfoldable pub spec_create :
      CreateSessionRequest F
      → String
      → ℕ
      → Result Identity SphereError
      → Option ℕ
      → Sessions F
      → Reply F × Sessions F
  spec_create body sid now (err e) expires sessions = (created (some (err e)), sessions)
  spec_create body sid now (ok identity) none sessions = (created none, sessions)
  spec_create body sid now (ok identity) (some expires) sessions = (
    created (
        some (
          ok (record {
            session_id = sid;
            token = generate_token mac sid identity.sub (rfc3339 expires) secret;
            expires_at = rfc3339 expires;
          }))),
    bind sid
        (some (record {
          session_id = sid;
          identity_sub = identity.sub;
          trust_budget = TrustBudget.new (unwrap_or body.trust_budget (fl.nat 100)) (fl.nat 1);
          created_at = now;
          expires_at = expires;
        }))
        sessions,
  )

  unfoldable pub spec_step : Event F → Sessions F → Reply F × Sessions F
  unfolding spec_propose spec_message spec_create
  spec_step (creation authorization api_key body sid now) sessions =
      spec_create body sid now (authenticate gate authorization api_key)
        (plus now (unwrap_or body.duration_secs 3600)) sessions
  spec_step (message sid request_id content) sessions =
      spec_message sid request_id (parse content) sessions
  spec_step (cleanup now) sessions =
      (silent, λ sid. filter_some (λ s. ltb now s.expires_at) (sessions sid))
  spec_step (removal sid) sessions = (removed (sessions sid), bind sid none sessions)
