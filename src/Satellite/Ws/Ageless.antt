-- ===== src/Satellite/Ws/Ageless.antt =====
-- The end of a session and the loop of a connection (`handle_ws`).
use intellisphere.Common.{
  ℕ, String, ◌≡◌, refl, ap, ◌∙◌, inl, inr, true, false, Option, none, some, List, [], ◌∷◌, Result,
  ok, err, str_eq_refl, Bool-cases, sym,
}
use intellisphere.Common.Float.{Float}
use intellisphere.Pipeline.Chain.{PipelineChain}
use intellisphere.Tools.Registry.{ToolRegistry}
use intellisphere.Satellite.Session.{SatelliteSession, get, put}
use intellisphere.Satellite.Adjudicator.{ToolProposal, adjudicate}
use intellisphere.Satellite.Adjudicator.Ageless.{until, adjudicate-until}
use intellisphere.Satellite.Ws.{
  SatelliteState, SatelliteMessage, WsEvent, tool_proposal, ping, pong, adjudicated, propose_to,
  propose, dispatch, handle_message, ends, handle_ws, heartbeat, text, closed, other,
}
use intellisphere.Satellite.Ws.Doomed.{get-put}

module _ {F : Type 0} ⦃fl : Float F⦄ (parse : String → Result SatelliteMessage String)
    (registry : ToolRegistry) (pipeline : PipelineChain) (t : ℕ) where
  -- Two states have the same session but for its end.
  abbrev Ages : String → Option (SatelliteState F) → Option (SatelliteState F) → Type 0
  Ages sid (some state) (some state') =
      (s : SatelliteSession F) × (get sid state.session_manager ≡ some s)
      × (get sid state'.session_manager ≡ some (until t s))
  Ages sid (some state) none = ⊥
  Ages sid none state' = ⊥

  abbrev SameTurn :
      String
      → SatelliteMessage × Option (SatelliteState F)
      → SatelliteMessage × Option (SatelliteState F)
      → Type 0
  SameTurn sid (reply, state) (reply', state') = (reply ≡ reply') × Ages sid state state'

  propose-SameTurn :
      (request_id sid : String) (state state' : Option (SatelliteState F)) (id : String)
      (p : ToolProposal)
      → Ages sid state state'
      → SameTurn sid
          (propose parse registry pipeline request_id sid state id p)
          (propose parse registry pipeline request_id sid state' id p)
  unfolding propose propose_to adjudicated
  propose-SameTurn request_id sid (some state) (some state') id p (s, here, there) =
      let same = adjudicate-until t request_id p registry pipeline s in
      rw (here, there, same)
        (
          refl,
          (
            (adjudicate request_id p registry pipeline s).1,
            get-put sid sid _ state.session_manager ∙ rw (str_eq_refl sid),
            get-put sid sid _ state'.session_manager ∙ rw (str_eq_refl sid),
          ),
        )
  propose-SameTurn request_id sid (some state) none id p a = elim a [ ]
  propose-SameTurn request_id sid none state' id p a = elim a [ ]

  dispatch-SameTurn :
      (request_id sid : String) (state state' : Option (SatelliteState F))
      (m : Result SatelliteMessage String)
      → Ages sid state state'
      → SameTurn sid
          (dispatch parse registry pipeline request_id sid state m)
          (dispatch parse registry pipeline request_id sid state' m)
  unfolding dispatch
  dispatch-SameTurn request_id sid state state' (err e) a = (refl, a)
  dispatch-SameTurn request_id sid state state' (ok pong) a = (refl, a)
  dispatch-SameTurn request_id sid state state' (ok (tool_proposal id n r)) a =
      propose-SameTurn request_id sid state state' id _ a
  dispatch-SameTurn request_id sid state state' (ok _) a = (refl, a)

  same_replies :
      (sid : String) (events : List WsEvent) (state state' : Option (SatelliteState F))
      → Ages sid state state'
      → (handle_ws parse registry pipeline sid events state).0
        ≡ (handle_ws parse registry pipeline sid events state').0
  unfolding handle_ws handle_message
  same_replies sid [] state state' a = refl
  same_replies sid (heartbeat true ∷ events) state state' a =
      ap (λ replies. ping ∷ replies) (same_replies sid events state state' a)
  same_replies sid (heartbeat false ∷ events) state state' a = refl
  same_replies sid (text request_id content false ∷ events) state state' a = refl
  same_replies sid (text request_id content true ∷ events) state state' a =
      let (same, later) = dispatch-SameTurn request_id sid state state' (parse content) a in
      let reply = (dispatch parse registry pipeline request_id sid state (parse content)).0 in
      elim (Bool-cases (ends reply)) [
        | inl e ↦ rw (sym same, e) refl
        | inr e ↦
            rw (sym same, e) (ap (λ replies. reply ∷ replies) (same_replies sid events _ _ later))
      ]
  same_replies sid (closed ∷ events) state state' a = refl
  same_replies sid (other ∷ events) state state' a = same_replies sid events state state' a

  -- A connection that is open for a session of the store is sent the same messages, over any events,
  -- whenever the session ends: with any other expiry in the store, earlier or later, the loop
  -- answers each text and each heartbeat as before.
  pub handle_ws-until :
      (sid : String) (events : List WsEvent) (state : SatelliteState F) (s : SatelliteSession F)
      → get sid state.session_manager ≡ some s
      → (handle_ws parse registry pipeline sid events
          (some (record state { session_manager = put sid (until t s) state.session_manager }))).0
        ≡ (handle_ws parse registry pipeline sid events (some state)).0
  handle_ws-until sid events state s here = sym (
      same_replies sid events _ _
        (s, here, get-put sid sid _ state.session_manager ∙ rw (str_eq_refl sid)))
