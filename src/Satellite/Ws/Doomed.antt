-- ===== src/Satellite/Ws/Doomed.antt =====
-- What a connection can do to its session, and to the others.
use intellisphere.Common.{
  String, ◌≡◌, refl, ◌∙◌, Bool, true, false, not, ◌||◌, Option, none, some, List, [], ◌∷◌, Result,
  ok, err, str_eq, str_eq_refl, arith, if◌then◌else◌,
}
use intellisphere.Common.Dict.{lookup-insert}
use intellisphere.Common.Float.{Float}
use intellisphere.Pipeline.Chain.{PipelineChain}
use intellisphere.Tools.Registry.{ToolRegistry}
use intellisphere.Satellite.TrustBudget.{is_exhausted, is_suspicious}
use intellisphere.Satellite.TrustBudget.Monotone.{Worn, Worn-final}
use intellisphere.Satellite.Session.{SatelliteSession, SessionManager, get, put}
use intellisphere.Satellite.Adjudicator.{ToolProposal, AdjudicationResult, adjudicate}
use intellisphere.Satellite.Adjudicator.Wear.{adjudicate-Charged}
use intellisphere.Satellite.Ws.{
  SatelliteState, SatelliteMessage, WsEvent, tool_proposal, adjudication_result, ping, pong, error,
  session_terminated, reply_of, adjudicated, propose_to, propose, dispatch, handle_message, ends,
  handle_ws, heartbeat, text, closed, other,
}

-- The session of an id in a state, if any.
abbrev pub session_of :
    {F : Type 0} → String → Option (SatelliteState F) → Option (SatelliteSession F)
session_of id none = none
session_of id (some state) = get id state.session_manager

abbrev pub is_over : {F : Type 0} ⦃fl : Float F⦄ → SatelliteSession F → Bool
is_over s = is_exhausted s.trust_budget || is_suspicious s.trust_budget

pub get-put :
    {F : Type 0} (id j : String) (s : SatelliteSession F) (mgr : SessionManager F)
    → get j (put id s mgr) ≡ (if str_eq id j then some s else get j mgr)
unfolding get put
get-put id j s mgr = lookup-insert id j s mgr.sessions

choose_second :
    {A B C : Type 0} (b : Bool) (f : B → C) (x y : A × B) (c : C)
    → f x.1 ≡ c
    → f y.1 ≡ c
    → f (if b then x else y).1 ≡ c
choose_second true f x y c h k = h
choose_second false f x y c h k = k

module _ {F : Type 0} ⦃fl : Float F⦄ (parse : String → Result SatelliteMessage String)
    (registry : ToolRegistry) (pipeline : PipelineChain) where
  propose_to-other :
      (request_id sid j : String) (state : SatelliteState F) (id : String) (p : ToolProposal)
      (session : Option (SatelliteSession F))
      → str_eq sid j ≡ false
      → session_of j (propose_to parse registry pipeline request_id sid state id p session).1
        ≡ get j state.session_manager
  unfolding propose_to adjudicated
  propose_to-other request_id sid j state id p none ne = refl
  propose_to-other request_id sid j state id p (some s) ne =
      get-put sid j (adjudicate request_id p registry pipeline s).1 state.session_manager ∙ rw ne

  pub dispatch-other :
      (request_id sid j : String) (state : Option (SatelliteState F))
      (m : Result SatelliteMessage String)
      → str_eq sid j ≡ false
      → session_of j (dispatch parse registry pipeline request_id sid state m).1
        ≡ session_of j state
  unfolding dispatch propose
  dispatch-other request_id sid j state (err e) ne = refl
  dispatch-other request_id sid j state (ok pong) ne = refl
  dispatch-other request_id sid j none (ok (tool_proposal id name payload)) ne = refl
  dispatch-other request_id sid j (some state) (ok (tool_proposal id name payload)) ne =
      propose_to-other request_id sid j state id
        (record { tool_name = name; result_payload = payload }) (get sid state.session_manager) ne
  dispatch-other request_id sid j state (ok ping) ne = refl
  dispatch-other request_id sid j state (ok (adjudication_result id accepted reason)) ne = refl
  dispatch-other request_id sid j state (ok (error message)) ne = refl
  dispatch-other request_id sid j state (ok (session_terminated reason)) ne = refl

  -- A connection serves its own session: whatever it receives, and wherever it breaks off, every
  -- other session is as it was.
  pub handle_ws-other :
      (sid j : String) (events : List WsEvent) (state : Option (SatelliteState F))
      → str_eq sid j ≡ false
      → session_of j (handle_ws parse registry pipeline sid events state).1 ≡ session_of j state
  unfolding handle_ws handle_message
  handle_ws-other sid j [] state ne = refl
  handle_ws-other sid j (heartbeat sent ∷ events) state ne =
      choose_second sent (session_of j) _ _ _ (handle_ws-other sid j events state ne) refl
  handle_ws-other sid j (text request_id content sent ∷ events) state ne =
      let next = dispatch-other request_id sid j state (parse content) ne in
      choose_second (not sent) (session_of j) _ _ _ next (
        choose_second (ends (handle_message parse registry pipeline request_id sid state content).0)
          (session_of j) _ _ _ next (handle_ws-other sid j events _ ne ∙ next))
  handle_ws-other sid j (closed ∷ events) state ne = refl
  handle_ws-other sid j (other ∷ events) state ne = handle_ws-other sid j events state ne

  over-Worn :
      (s s' : SatelliteSession F)
      → Worn s.trust_budget s'.trust_budget
      → is_over s ≡ true
      → is_over s' ≡ true
  over-Worn s s' w h = ground (arith, (Worn-final w).0, (Worn-final w).1)

  reply-over :
      (id : String) (result : AdjudicationResult) (s : SatelliteSession F)
      → is_over s ≡ true
      → ends (reply_of parse registry pipeline id result s.trust_budget) ≡ true
  unfolding reply_of
  reply-over id result s h = ground arith

  pub propose-over :
      (request_id sid : String) (state : SatelliteState F) (id : String) (p : ToolProposal)
      (s : SatelliteSession F)
      → get sid state.session_manager ≡ some s
      → is_over s ≡ true
      → (ends (propose parse registry pipeline request_id sid (some state) id p).0 ≡ true)
        × ((s' : SatelliteSession F) × (session_of sid
                (propose parse registry pipeline request_id sid (some state) id p).1
              ≡ some s')
            × (is_over s' ≡ true))
  unfolding propose propose_to adjudicated
  propose-over request_id sid state id p s here over =
      let worn = (adjudicate-Charged request_id p registry pipeline s).worn in
      let over' = over-Worn s (adjudicate request_id p registry pipeline s).1 worn over in
      rw here (
        reply-over id (adjudicate request_id p registry pipeline s).0
            (adjudicate request_id p registry pipeline s).1 over',
        (
          (adjudicate request_id p registry pipeline s).1,
          get-put sid sid _ state.session_manager ∙ rw (str_eq_refl sid),
          over',
        ),
      )
