-- ===== src/Satellite/Ws/Lifecycle/Kept.antt =====
-- Every event leaves the table its callers'.
use intellisphere.Common.{
  ℕ, String, ◌≡◌, refl, Option, none, some, Result, ok, err, unwrap_or, List, [], ◌∷◌, inl,
}
use intellisphere.Common.Float.{Float}
use intellisphere.Auth.Identity.{Identity}
use intellisphere.Auth.Gate.{IngressGate, authenticate}
use intellisphere.Pipeline.Chain.{PipelineChain}
use intellisphere.Tools.Registry.{ToolRegistry}
use intellisphere.Satellite.TrustBudget
use intellisphere.Satellite.TrustBudget.Monotone.{Worn-refl}
use intellisphere.Satellite.Session.{SatelliteSession, get, put, create}
use intellisphere.Satellite.Adjudicator.Wear.{adjudicate-Charged}
use intellisphere.Satellite.Adjudicator.{ToolProposal, adjudicate}
use intellisphere.Satellite.Ws.{
  SatelliteState, SatelliteMessage, CreateSessionRequest, create_session, authenticated, dated,
  issue, handle_message, dispatch, propose, propose_to, adjudicated, tool_proposal,
  adjudication_result, ping, pong, error, session_terminated,
}
use intellisphere.Errors.{SphereError}
use intellisphere.Satellite.Ws.Lifecycle.{
  Event, after, Reach, here, next, past, Happened, left_by, creation, message, cleanup, removal,
}
use intellisphere.Satellite.Ws.Lifecycle.Owners.{
  IsOwned, Owned, put-IsOwned, cleaned-Owned, without-Owned, charged-Granted, Owned-later,
}

module _ {F : Type 0} ⦃fl : Float F⦄ (plus : ℕ → ℕ → Option ℕ) (gate : IngressGate)
    (events : List (Event F)) (secret : String) where
  module _ (parse : String → Result SatelliteMessage String) (registry : ToolRegistry)
      (chain : PipelineChain) where
    propose_to-Owned :
        (request_id sid : String) (state : SatelliteState F) (id : String) (p : ToolProposal)
        (session : Option (SatelliteSession F))
        → get sid state.session_manager ≡ session
        → IsOwned plus gate events secret state
        → Owned plus gate events secret
            (propose_to parse registry chain request_id sid state id p session).1
    unfolding propose_to adjudicated
    propose_to-Owned request_id sid state id p none found o = o
    propose_to-Owned request_id sid state id p (some s) found o =
        put-IsOwned plus gate events secret sid (adjudicate request_id p registry chain s).1 state
          (charged-Granted plus gate events sid s _
            (adjudicate-Charged request_id p registry chain s) (o.granted sid s found))
          o

    dispatch-Owned :
        (request_id sid : String) (state : Option (SatelliteState F))
        (m : Result SatelliteMessage String)
        → Owned plus gate events secret state
        → Owned plus gate events secret (dispatch parse registry chain request_id sid state m).1
    unfolding dispatch propose
    dispatch-Owned request_id sid state (err e) o = o
    dispatch-Owned request_id sid state (ok pong) o = o
    dispatch-Owned request_id sid none (ok (tool_proposal id name payload)) o = o
    dispatch-Owned request_id sid (some state) (ok (tool_proposal id name payload)) o =
        propose_to-Owned request_id sid state id _ (get sid state.session_manager) refl o
    dispatch-Owned request_id sid state (ok ping) o = o
    dispatch-Owned request_id sid state (ok (adjudication_result id accepted reason)) o = o
    dispatch-Owned request_id sid state (ok (error reason)) o = o
    dispatch-Owned request_id sid state (ok (session_terminated reason)) o = o

  module _ (mac : String → String → String) (rfc3339 : ℕ → String) where
    pub create-IsOwned :
        (authorization api_key : Option String) (body : CreateSessionRequest F) (sid : String)
        (now expires : ℕ) (identity : Identity) (state : SatelliteState F)
        → Happened (creation authorization api_key body sid now) events
        → authenticate gate authorization api_key ≡ ok identity
        → plus now (unwrap_or body.duration_secs 3600) ≡ some expires
        → IsOwned plus gate events secret state
        → IsOwned plus gate events secret (record state {
          session_manager =
              create sid identity.sub
                (TrustBudget.new (unwrap_or body.trust_budget (fl.nat 100)) (fl.nat 1))
                expires
                now
                state.session_manager;
        })
    unfolding create
    create-IsOwned authorization api_key body sid now expires identity state made admitted dates o =
        unfold put in
        put-IsOwned plus gate events secret sid _ state
          (record {
            authorization = authorization;
            api_key = api_key;
            identity = identity;
            body = body;
            created = now;
            made = made;
            session_id = refl;
            admitted = admitted;
            caller = refl;
            dated = dates;
            worn = Worn-refl _;
          })
          o

    dated-Owned :
        (authorization api_key : Option String) (body : CreateSessionRequest F) (sid : String)
        (now : ℕ) (identity : Identity) (expires : Option ℕ) (state : Option (SatelliteState F))
        → Happened (creation authorization api_key body sid now) events
        → authenticate gate authorization api_key ≡ ok identity
        → plus now (unwrap_or body.duration_secs 3600) ≡ expires
        → Owned plus gate events secret state
        → Owned plus gate events secret
            (left_by state (dated mac rfc3339 plus body sid now state identity expires))
    unfolding dated issue left_by
    dated-Owned authorization api_key body sid now identity none state made admitted dates o = o
    dated-Owned authorization api_key body sid now identity (some expires) none made admitted dates
          o =
        o
    dated-Owned authorization api_key body sid now identity (some expires) (some state) made
          admitted dates o =
        create-IsOwned authorization api_key body sid now expires identity state made admitted dates
          o

    creation-Owned :
        (authorization api_key : Option String) (body : CreateSessionRequest F) (sid : String)
        (now : ℕ) (verdict : Result Identity SphereError) (state : Option (SatelliteState F))
        → Happened (creation authorization api_key body sid now) events
        → authenticate gate authorization api_key ≡ verdict
        → Owned plus gate events secret state
        → Owned plus gate events secret
            (left_by state (authenticated mac rfc3339 plus body sid now state verdict))
    unfolding authenticated left_by
    creation-Owned authorization api_key body sid now (err e) state made admitted o = o
    creation-Owned authorization api_key body sid now (ok identity) state made admitted o =
        dated-Owned authorization api_key body sid now identity _ state made admitted refl o

module _ {F : Type 0} ⦃fl : Float F⦄ (plus : ℕ → ℕ → Option ℕ) (gate : IngressGate)
    (secret : String) (mac : String → String → String) (rfc3339 : ℕ → String)
    (parse : String → Result SatelliteMessage String) (registry : ToolRegistry)
    (chain : PipelineChain) where
  settled-Owned :
      (events : List (Event F)) (e : Event F) (state : Option (SatelliteState F))
      → Owned plus gate (e ∷ events) secret state
      → Owned plus gate
          (e ∷ events)
          secret
          (after mac rfc3339 plus parse registry chain gate e state)
  unfolding after create_session handle_message
  settled-Owned events (creation authorization api_key body sid now) state o =
      creation-Owned plus gate _ secret mac rfc3339 authorization api_key body sid now _ state
        (inl refl) refl o
  settled-Owned events (message sid request_id content) state o =
      dispatch-Owned plus gate _ secret parse registry chain request_id sid state (parse content) o
  settled-Owned events (cleanup now) state o = cleaned-Owned plus gate _ secret now state o
  settled-Owned events (removal sid) state o = without-Owned plus gate _ secret sid state o

  pub after-Owned :
      (events : List (Event F)) (e : Event F) (state : Option (SatelliteState F))
      → Owned plus gate events secret state
      → Owned plus gate
          (e ∷ events)
          secret
          (after mac rfc3339 plus parse registry chain gate e state)
  after-Owned events e state o =
      settled-Owned events e state (Owned-later plus gate events e secret state o)

  pub Reach-Owned :
      {start state : Option (SatelliteState F)}
      → Owned plus gate [] secret start
      → (r : Reach mac rfc3339 plus parse registry chain gate start state)
      → Owned plus gate (past mac rfc3339 plus parse registry chain gate r) secret state
  Reach-Owned o here = o
  Reach-Owned o (next e {state} r) = after-Owned _ e state (Reach-Owned o r)
