-- ===== src/Satellite/Ws/Lifecycle/Refinement.antt =====
-- The service answers as its specification does.
use intellisphere.Common.{
  ℕ, String, ◌≡◌, refl, ap, Option, none, some, List, [], ◌∷◌, Result, ok, err, unwrap_or,
}
use intellisphere.Common.Dict.{lookup-nil}
use intellisphere.Common.Float.{Float}
use intellisphere.Errors.{SphereError}
use intellisphere.Auth.Identity.{Identity}
use intellisphere.Auth.Gate.{IngressGate, authenticate}
use intellisphere.Pipeline.Chain.{PipelineChain}
use intellisphere.Tools.Registry.{ToolRegistry}
use intellisphere.Satellite.Session.{SatelliteSession, new, create, get, put}
use intellisphere.Satellite.Adjudicator.{ToolProposal, adjudicate}
use intellisphere.Satellite.Ws.{
  SatelliteState, SatelliteMessage, CreateSessionRequest, CreateSessionResponse, tool_proposal,
  adjudication_result, ping, pong, error, session_terminated, adjudicated, propose_to, propose,
  dispatch, handle_message, create_session, authenticated, dated, issue,
}
use intellisphere.Satellite.Ws.Lifecycle.{
  Event, creation, message, cleanup, removal, left_by, after,
}
use intellisphere.Satellite.Ws.Lifecycle.Spec.{
  Reply, sent, created, removed, silent, Sessions, spec_propose, spec_message, spec_create,
  spec_step,
}
use intellisphere.Satellite.Ws.Lifecycle.Stores.{
  taken_out, Stores, Holds, put-Stores, cleaned-Holds, without-Holds,
}

abbrev answer_of :
    {F : Type 0}
    → Option (Result CreateSessionResponse SphereError × Option (SatelliteState F))
    → Option (Result CreateSessionResponse SphereError)
answer_of none = none
answer_of (some (response, state)) = some response

module _ {F : Type 0} ⦃fl : Float F⦄ (mac : String → String → String) (rfc3339 : ℕ → String)
    (plus : ℕ → ℕ → Option ℕ) (parse : String → Result SatelliteMessage String)
    (registry : ToolRegistry) (chain : PipelineChain) (gate : IngressGate) where
  -- What the service answers to an event.
  abbrev pub answer : Event F → Option (SatelliteState F) → Reply F
  answer (creation authorization api_key body sid now) state =
      created
        (answer_of (create_session mac rfc3339 plus gate authorization api_key body sid now state))
  answer (message sid request_id content) state =
      sent (handle_message parse registry chain request_id sid state content).0
  answer (cleanup now) state = silent
  answer (removal sid) state = removed (taken_out sid state)

  abbrev pub answers : List (Event F) → Option (SatelliteState F) → List (Reply F)
  answers [] state = []
  answers (e ∷ events) state =
      answer e state ∷ answers events (after mac rfc3339 plus parse registry chain gate e state)

module _ {F : Type 0} ⦃fl : Float F⦄ (mac : String → String → String) (rfc3339 : ℕ → String)
    (plus : ℕ → ℕ → Option ℕ) (parse : String → Result SatelliteMessage String)
    (registry : ToolRegistry) (chain : PipelineChain) (gate : IngressGate) (secret : String) where
  -- A message's reply and state are those of the specification.
  abbrev Meets : SatelliteMessage × Option (SatelliteState F) → Reply F × Sessions F → Type 0
  Meets (reply, state) (answer, sessions) = (sent reply ≡ answer) × Holds secret state sessions

  propose-Meets :
      (request_id sid : String) (state : SatelliteState F) (id : String) (p : ToolProposal)
      (session : Option (SatelliteSession F)) (sessions : Sessions F)
      → Stores secret state sessions
      → Meets (propose_to parse registry chain request_id sid state id p session) (
          spec_propose mac rfc3339 plus parse registry chain gate secret sid request_id id p session
            sessions)
  unfolding propose_to adjudicated spec_propose
  propose-Meets request_id sid state id p none sessions o = (refl, o)
  propose-Meets request_id sid state id p (some s) sessions o =
      (refl, put-Stores secret sid (adjudicate request_id p registry chain s).1 state sessions o)

  dispatch-Meets :
      (request_id sid : String) (state : SatelliteState F) (m : Result SatelliteMessage String)
      (sessions : Sessions F)
      → Stores secret state sessions
      → Meets
          (dispatch parse registry chain request_id sid (some state) m)
          (spec_message mac rfc3339 plus parse registry chain gate secret sid request_id m sessions)
  unfolding dispatch propose spec_message
  dispatch-Meets request_id sid state (err e) sessions o = (refl, o)
  dispatch-Meets request_id sid state (ok pong) sessions o = (refl, o)
  dispatch-Meets request_id sid state (ok (tool_proposal id name payload)) sessions o =
      rw (o.at sid) (propose-Meets request_id sid state id _ (sessions sid) sessions o)
  dispatch-Meets request_id sid state (ok ping) sessions o = (refl, o)
  dispatch-Meets request_id sid state (ok (adjudication_result id accepted reason)) sessions o =
      (refl, o)
  dispatch-Meets request_id sid state (ok (error text)) sessions o = (refl, o)
  dispatch-Meets request_id sid state (ok (session_terminated reason)) sessions o = (refl, o)

  -- A creation's answer and state are those of the specification.
  abbrev Creates :
      SatelliteState F
      → Option (Result CreateSessionResponse SphereError × Option (SatelliteState F))
      → Reply F × Sessions F
      → Type 0
  Creates state outcome (answer, sessions) =
      (created (answer_of outcome) ≡ answer) × Holds secret (left_by (some state) outcome) sessions

  creation-Creates :
      (body : CreateSessionRequest F) (sid : String) (now : ℕ)
      (verdict : Result Identity SphereError) (expires : Option ℕ) (state : SatelliteState F)
      (sessions : Sessions F)
      → plus now (unwrap_or body.duration_secs 3600) ≡ expires
      → Stores secret state sessions
      → Creates state (authenticated mac rfc3339 plus body sid now (some state) verdict) (
          spec_create mac rfc3339 plus parse registry chain gate secret body sid now verdict expires
            sessions)
  unfolding authenticated dated issue left_by spec_create create
  creation-Creates body sid now (err e) expires state sessions dates o = (refl, o)
  creation-Creates body sid now (ok identity) none state sessions dates o = rw dates (refl, o)
  creation-Creates body sid now (ok identity) (some expires) state sessions dates o =
      rw dates (rw o.kept refl, unfold put in put-Stores secret sid _ state sessions o)

  abbrev pub spec_answers : List (Event F) → Sessions F → List (Reply F)
  spec_answers [] sessions = []
  spec_answers (e ∷ events) sessions =
      let (reply, sessions') =
        spec_step mac rfc3339 plus parse registry chain gate secret e sessions in
      reply ∷ spec_answers events sessions'

  abbrev StepMeets : Event F → Option (SatelliteState F) → Sessions F → Type 0
  StepMeets e state sessions =
      (answer mac rfc3339 plus parse registry chain gate e state
        ≡ (spec_step mac rfc3339 plus parse registry chain gate secret e sessions).0)
      × Holds secret (after mac rfc3339 plus parse registry chain gate e state)
          (spec_step mac rfc3339 plus parse registry chain gate secret e sessions).1

  event-StepMeets :
      (e : Event F) (state : Option (SatelliteState F)) (sessions : Sessions F)
      → Holds secret state sessions
      → StepMeets e state sessions
  unfolding after spec_step create_session handle_message
  event-StepMeets e none sessions o = absurd o
  event-StepMeets (creation authorization api_key body sid now) (some state) sessions o =
      creation-Creates body sid now (authenticate gate authorization api_key) _ state sessions refl
        o
  event-StepMeets (message sid request_id content) (some state) sessions o =
      dispatch-Meets request_id sid state (parse content) sessions o
  event-StepMeets (cleanup now) (some state) sessions o =
      (refl, cleaned-Holds secret now (some state) sessions o)
  event-StepMeets (removal sid) (some state) sessions o =
      let (out, holds) = without-Holds secret sid (some state) sessions o in (ap removed out, holds)

  answers_met :
      (events : List (Event F)) (state : Option (SatelliteState F)) (sessions : Sessions F)
      → Holds secret state sessions
      → answers mac rfc3339 plus parse registry chain gate events state
        ≡ spec_answers events sessions
  answers_met [] state sessions o = refl
  answers_met (e ∷ events) state sessions o =
      let (same, later) = event-StepMeets e state sessions o in
      rw (same, answers_met events _ _ later) refl

  -- From its start on, whatever creations, messages, cleanups and removals come, the service answers
  -- each as the specification does, whose sessions are a function from identifiers to sessions: no
  -- answer depends on the table or on the order of its entries.
  pub answers-spec_answers :
      (events : List (Event F))
      → answers mac rfc3339 plus parse registry chain gate events
          (some (record { session_manager = new; server_secret = secret }))
        ≡ spec_answers events (λ sid. none)
  unfolding get
  answers-spec_answers events =
      answers_met events _ _
        (record { kept = refl; table = tt; at = λ sid. lookup-nil {V = SatelliteSession F} sid })
