-- ===== src/Satellite/Ws/Lifecycle/Limit.antt =====
-- From the creation of a session to the last acceptance that it gets.
use intellisphere.Common.{
  [], ◌∷◌, inl, ℕ, suc, ◌<◌, ◌≤◌, ◌^◌, String, ◌≡◌, refl, Option, some, List, Result, ok, unwrap_or,
}
use intellisphere.Common.Float.{Float}
use intellisphere.Auth.Identity.{Identity}
use intellisphere.Auth.Gate.{IngressGate, authenticate}
use intellisphere.Pipeline.Chain.{PipelineChain}
use intellisphere.Tools.Registry.{ToolRegistry}
use intellisphere.Satellite.TrustBudget
use intellisphere.Satellite.Session.{SatelliteSession, new, create, get}
use intellisphere.Satellite.Ws.{
  SatelliteState, SatelliteMessage, CreateSessionRequest, CreateSessionResponse, generate_token,
  create_session, issue, dated, authenticated,
}
use intellisphere.Satellite.Ws.Created.{get-create_new}
use intellisphere.Satellite.Ws.Lifecycle.{creation, past, Event, Reach, accepted_in, IsNewTo}
use intellisphere.Satellite.Ws.Lifecycle.Owners.{IsOwned, new-IsOwned, Owned-later}
use intellisphere.Satellite.Ws.Lifecycle.Kept.{Reach-Owned, create-IsOwned}
use intellisphere.Satellite.Ws.Lifecycle.Acceptances.{funded_run}

module _ {F : Type 0} ⦃fl : Float F⦄ (mac : String → String → String) (rfc3339 : ℕ → String)
    (plus : ℕ → ℕ → Option ℕ) (parse : String → Result SatelliteMessage String)
    (registry : ToolRegistry) (chain : PipelineChain) (gate : IngressGate) where
  -- From any state of the service on, a session with n + 1 units left, fewer than 2 ^ 53, gets at
  -- most n more acceptances, unless its identifier is drawn again.
  pub accepted_in-le :
      (secret sid : String) (n : ℕ) (state : SatelliteState F) (s : SatelliteSession F)
      (events : List (Event F))
      → Reach mac rfc3339 plus parse registry chain gate
          (some (record { session_manager = new; server_secret = secret }))
          (some state)
      → get sid state.session_manager ≡ some s
      → s.trust_budget.remaining ≡ fl.nat (suc n)
      → suc n < 2 ^ 53
      → IsNewTo sid events
      → accepted_in mac rfc3339 plus parse registry chain gate sid events (some state) ≤ n
  accepted_in-le secret sid n state s events reached here units small fresh =
      funded_run mac rfc3339 plus parse registry chain gate secret _ sid events n (some state) fresh
        (Reach-Owned plus gate secret mac rfc3339 parse registry chain
          (new-IsOwned plus gate [] secret) reached)
        small (s, here, units)

  -- In a service that started with no session and has come to any state, a session is made for a
  -- caller whom the gate lets in, with n + 1 units, fewer than 2 ^ 53, which are 100 where the
  -- request names none. Whatever comes afterwards, in whatever order, messages of any connections
  -- to any sessions, creations that draw other identifiers, cleanups and removals, the connections
  -- of the session are sent at most n acceptances.
  pub create_session-accepted_in :
      (secret : String) (authorization api_key : Option String) (body : CreateSessionRequest F)
      (sid : String) (now expires n : ℕ) (state : SatelliteState F) (identity : Identity)
      (events : List (Event F))
      → Reach mac rfc3339 plus parse registry chain gate
          (some (record { session_manager = new; server_secret = secret }))
          (some state)
      → authenticate gate authorization api_key ≡ ok identity
      → plus now (unwrap_or body.duration_secs 3600) ≡ some expires
      → unwrap_or body.trust_budget (fl.nat 100) ≡ fl.nat (suc n)
      → suc n < 2 ^ 53
      → IsNewTo sid events
      → (response : CreateSessionResponse) × (state' : SatelliteState F) × (create_session mac
            rfc3339 plus gate authorization api_key body sid now
            (some state)
          ≡ some (ok response, some state'))
        × (accepted_in mac rfc3339 plus parse registry chain gate sid events (some state') ≤ n)
  unfolding create_session authenticated dated issue
  create_session-accepted_in secret authorization api_key body sid now expires n state identity
        events reached admitted dates units small fresh =
      let owned : IsOwned plus gate (past mac rfc3339 plus parse registry chain gate reached) secret
          state =
        Reach-Owned plus gate secret mac rfc3339 parse registry chain
          (new-IsOwned plus gate [] secret) reached in
      let budget : TrustBudget.TrustBudget F =
        TrustBudget.new (unwrap_or body.trust_budget (fl.nat 100)) (fl.nat 1) in
      let state' : SatelliteState F = record state {
        session_manager = create sid identity.sub budget expires now state.session_manager;
      } in
      rw (admitted, authenticated, dates, dated)
        (
          record {
            session_id = sid;
            token = generate_token mac sid identity.sub (rfc3339 expires) state.server_secret;
            expires_at = rfc3339 expires;
          },
          state',
          refl,
          funded_run mac rfc3339 plus parse registry chain gate secret _ sid events n (some state')
              fresh
              (create-IsOwned plus gate
                (creation authorization api_key body sid now
                  ∷ past mac rfc3339 plus parse registry chain gate reached)
                secret mac rfc3339 authorization api_key body sid now expires identity state
                (inl refl) admitted dates
                (Owned-later plus gate _ (creation authorization api_key body sid now) secret
                  (some state) owned))
              small
              (_, get-create_new sid identity.sub budget expires now state.session_manager, units),
        )
