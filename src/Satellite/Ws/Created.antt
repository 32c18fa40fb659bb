-- ===== src/Satellite/Ws/Created.antt =====
-- What a session that was just created can get accepted.
use intellisphere.Common.{
  ℕ, suc, ◌<◌, ◌≤◌, ◌^◌, String, ◌≡◌, refl, ◌∙◌, Option, some, List, Result, ok, str_eq_refl,
  unwrap_or,
}
use intellisphere.Common.Dict.{lookup-insert}
use intellisphere.Common.Float.{Float}
use intellisphere.Auth.Identity.{Identity}
use intellisphere.Auth.Gate.{IngressGate, authenticate}
use intellisphere.Pipeline.Chain.{PipelineChain}
use intellisphere.Tools.Registry.{ToolRegistry}
use intellisphere.Satellite.TrustBudget
use intellisphere.Satellite.Session.{SessionManager, create, get}
use intellisphere.Satellite.Ws.{
  SatelliteState, SatelliteMessage, CreateSessionRequest, CreateSessionResponse, generate_token,
  create_session, issue, dated, authenticated,
}
use intellisphere.Satellite.Ws.Interleaved.{Arrival, accepted_for, accepted_for-le}

module _ {F : Type 0} ⦃fl : Float F⦄ where
  pub get-create_new :
      (sid sub : String) (budget : TrustBudget.TrustBudget F) (expires now : ℕ)
      (mgr : SessionManager F)
      → get sid (create sid sub budget expires now mgr)
        ≡ some (record {
          session_id = sid;
          identity_sub = sub;
          trust_budget = budget;
          created_at = now;
          expires_at = expires;
        })
  unfolding get create
  get-create_new sid sub budget expires now mgr =
      lookup-insert sid sid _ mgr.sessions ∙ rw (str_eq_refl sid) refl

  -- A session made for a caller whom the gate lets in, with n + 1 units, fewer than 2 ^ 53, which
  -- are 100 where the request names none: however many connections then use it, and whatever else
  -- connections send meanwhile, they are sent at most n acceptances for it.
  pub create_session-accepted :
      (mac : String → String → String) (rfc3339 : ℕ → String) (plus : ℕ → ℕ → Option ℕ)
      (parse : String → Result SatelliteMessage String) (registry : ToolRegistry)
      (chain : PipelineChain) (gate : IngressGate) (authorization api_key : Option String)
      (body : CreateSessionRequest F) (sid : String) (now expires n : ℕ) (state : SatelliteState F)
      (identity : Identity) (arrivals : List Arrival)
      → authenticate gate authorization api_key ≡ ok identity
      → plus now (unwrap_or body.duration_secs 3600) ≡ some expires
      → unwrap_or body.trust_budget (fl.nat 100) ≡ fl.nat (suc n)
      → suc n < 2 ^ 53
      → (response : CreateSessionResponse) × (state' : SatelliteState F) × (create_session mac
            rfc3339 plus gate authorization api_key body sid now
            (some state)
          ≡ some (ok response, some state'))
        × (accepted_for parse registry chain sid arrivals (some state') ≤ n)
  unfolding create_session authenticated dated issue
  create_session-accepted mac rfc3339 plus parse registry chain gate authorization api_key body sid
        now expires n state identity arrivals admitted dates units small =
      let budget : TrustBudget.TrustBudget F =
        TrustBudget.new (unwrap_or body.trust_budget (fl.nat 100)) (fl.nat 1) in
      let state' : SatelliteState F = record state {
        session_manager = create sid identity.sub budget expires now state.session_manager;
      } in
      rw (admitted, authenticated, dates, dated)
        (
          record {
            session_id = sid;
            token = generate_token mac sid identity.sub (rfc3339 expires) state.server_secret;
            expires_at = rfc3339 expires;
          },
          state',
          refl,
          accepted_for-le parse registry chain sid n arrivals state' _ small
              (get-create_new sid identity.sub budget expires now state.session_manager) units,
        )
