-- ===== src/Satellite/Ws/Spending.antt =====
-- How many acceptances a connection sends.
use intellisphere.Common.{
  ℕ, zero, suc, ◌+◌, ◌<◌, ◌≤◌, ◌^◌, String, ◌≡◌, refl, sym, ap, subst, ◌∙◌, ◌⊎◌, inl, inr, Bool,
  true, false, not, Option, none, some, List, [], ◌∷◌, Result, ok, err, str_eq_refl, arith,
  Bool-cases, if◌then◌else◌,
}
use intellisphere.Common.Float.{Float}
use intellisphere.Pipeline.Chain.{PipelineChain}
use intellisphere.Tools.Registry.{ToolRegistry}
use intellisphere.Satellite.TrustBudget.{TrustBudget, is_exhausted}
use intellisphere.Satellite.Session.{SatelliteSession, get}
use intellisphere.Satellite.Adjudicator.{ToolProposal, AdjudicationResult, adjudicate}
use intellisphere.Satellite.Adjudicator.Wear.{adjudicate-Charged}
use intellisphere.Satellite.Ws.{
  SatelliteState, SatelliteMessage, WsEvent, tool_proposal, adjudication_result, ping, pong, error,
  session_terminated, reply_of, adjudicated, propose_to, propose, dispatch, handle_message, ends,
  handle_ws, heartbeat, text, closed, other,
}
use intellisphere.Satellite.Ws.Doomed.{session_of, get-put}

abbrev pub acceptance : SatelliteMessage → ℕ
acceptance (adjudication_result id true reason) = 1
acceptance (adjudication_result id false reason) = 0
acceptance (tool_proposal id name payload) = 0
acceptance ping = 0
acceptance pong = 0
acceptance (error message) = 0
acceptance (session_terminated reason) = 0

-- The acceptances among the messages sent.
abbrev pub accepted_sent : List SatelliteMessage → ℕ
accepted_sent [] = 0
accepted_sent (m ∷ ms) = acceptance m + accepted_sent ms

pub acceptance-ends : (m : SatelliteMessage) → ends m ≡ true → acceptance m ≡ 0
acceptance-ends (adjudication_result id accepted reason) h = cc
acceptance-ends (tool_proposal id name payload) h = refl
acceptance-ends ping h = refl
acceptance-ends pong h = refl
acceptance-ends (error message) h = refl
acceptance-ends (session_terminated reason) h = refl

pub acceptance-le : (m : SatelliteMessage) → acceptance m ≤ 1
acceptance-le (adjudication_result id true reason) = omega arith
acceptance-le (adjudication_result id false reason) = omega arith
acceptance-le (tool_proposal id name payload) = omega arith
acceptance-le ping = omega arith
acceptance-le pong = omega arith
acceptance-le (error message) = omega arith
acceptance-le (session_terminated reason) = omega arith

abbrev Sent : Type 0 → Type 0
Sent F = List SatelliteMessage × Option (SatelliteState F)

module _ {F : Type 0} ⦃fl : Float F⦄ (parse : String → Result SatelliteMessage String)
    (registry : ToolRegistry) (pipeline : PipelineChain) where
  -- The session of the connection has a budget of n units.
  abbrev pub HasBudget : String → ℕ → Option (SatelliteState F) → Type 0
  HasBudget sid n state =
      (s : SatelliteSession F) × (session_of sid state ≡ some s)
      × (s.trust_budget.remaining ≡ fl.nat n)

  -- What a message can cost: nothing, without an acceptance, or a unit.
  abbrev pub Cost :
      String → ℕ → Option (SatelliteState F) → SatelliteMessage × Option (SatelliteState F) → Type 0
  Cost sid n state (reply, state') =
      ((state' ≡ state) × (acceptance reply ≡ 0))
      ⊎ (HasBudget sid n state' × (n ≡ 0 → ends reply ≡ true))

  reply-last :
      (id : String) (result : AdjudicationResult) (b : TrustBudget F)
      → b.remaining ≡ fl.nat 0
      → ends (reply_of parse registry pipeline id result b) ≡ true
  unfolding reply_of is_exhausted
  reply-last id result b h = rw (h, fl.le-nat 0 0 (omega arith) (omega arith)) refl

  propose_cost :
      (request_id sid : String) (n : ℕ) (state : SatelliteState F) (id : String) (p : ToolProposal)
      → suc n < 2 ^ 53
      → HasBudget sid (suc n) (some state)
      → HasBudget sid n (propose parse registry pipeline request_id sid (some state) id p).1
        × (n ≡ 0 → ends (propose parse registry pipeline request_id sid (some state) id p).0 ≡ true)
  unfolding propose propose_to adjudicated
  propose_cost request_id sid n state id p small (s, here, start) =
      let left : (adjudicate request_id p registry pipeline s).1.trust_budget.remaining ≡ fl.nat n =
        (adjudicate-Charged request_id p registry pipeline s).remaining
        ∙ (ap (λ x. fl.sub x (fl.nat 1)) start ∙ fl.sub-nat n small) in
      rw here (
        (
          (adjudicate request_id p registry pipeline s).1,
          get-put sid sid _ state.session_manager ∙ rw (str_eq_refl sid),
          left,
        ),
        λ last. reply-last id _ _ (left ∙ ap fl.nat last),
      )

  pub dispatch-Cost :
      (request_id sid : String) (n : ℕ) (state : SatelliteState F)
      (m : Result SatelliteMessage String)
      → suc n < 2 ^ 53
      → HasBudget sid (suc n) (some state)
      → Cost sid n (some state) (dispatch parse registry pipeline request_id sid (some state) m)
  unfolding dispatch
  dispatch-Cost request_id sid n state (err e) small b = inl (refl, refl)
  dispatch-Cost request_id sid n state (ok pong) small b = inl (refl, refl)
  dispatch-Cost request_id sid n state (ok (tool_proposal id name payload)) small b = inr (
      propose_cost request_id sid n state id (record { tool_name = name; result_payload = payload })
        small b)
  dispatch-Cost request_id sid n state (ok ping) small b = inl (refl, refl)
  dispatch-Cost request_id sid n state (ok (adjudication_result id accepted reason)) small b =
      inl (refl, refl)
  dispatch-Cost request_id sid n state (ok (error message)) small b = inl (refl, refl)
  dispatch-Cost request_id sid n state (ok (session_terminated reason)) small b = inl (refl, refl)

  turn_count :
      (sent : Bool) (reply : SatelliteMessage) (replies : List SatelliteMessage)
      (now later : Option (SatelliteState F)) (n : ℕ)
      → (ends reply ≡ false → acceptance reply + accepted_sent replies ≤ n)
      → accepted_sent
          (if◌then◌else◌ {A = Sent F}
            (not sent)
            ([], now)
            (if ends reply then (reply ∷ [], now) else (reply ∷ replies, later))).0
        ≤ n
  turn_count false reply replies now later n h = omega arith
  turn_count true reply replies now later n h = elim (Bool-cases (ends reply)) [
    | inl e ↦ rw e (omega (arith, acceptance-ends reply e))
    | inr e ↦ rw e (h e)
  ]

  heartbeat_count :
      (sent : Bool) (replies : List SatelliteMessage) (now later : Option (SatelliteState F))
      (n : ℕ)
      → accepted_sent replies ≤ n
      → accepted_sent (if◌then◌else◌ {A = Sent F} sent (ping ∷ replies, later) ([], now)).0 ≤ n
  heartbeat_count true replies now later n h = omega (arith, h)
  heartbeat_count false replies now later n h = omega arith

  -- After an affordable turn the rest of the connection stays within what is left.
  turn_rest :
      (sid : String) (n : ℕ) (events : List WsEvent) (state : SatelliteState F)
      (turn : SatelliteMessage × Option (SatelliteState F))
      → HasBudget sid (suc n) (some state)
      → ((k : ℕ) (later : Option (SatelliteState F))
          → suc k < 2 ^ 53
          → HasBudget sid (suc k) later
          → accepted_sent (handle_ws parse registry pipeline sid events later).0 ≤ k)
      → suc n < 2 ^ 53
      → Cost sid n (some state) turn
      → ends turn.0 ≡ false
      → acceptance turn.0 + accepted_sent (handle_ws parse registry pipeline sid events turn.1).0
        ≤ n
  turn_rest sid n events state (reply, later) b rest small (inl (same, none_sent)) going =
      let bound = rest n later small (subst (HasBudget sid (suc n)) (sym same) b) in
      omega (arith, bound, none_sent)
  turn_rest sid zero events state (reply, later) b rest small (inr (left, last)) going =
      absurd (cc (last refl, going))
  turn_rest sid (suc k) events state (reply, later) b rest small (inr (left, last)) going =
      omega (arith, rest k later (omega arith) left, acceptance-le reply)

  loop_count :
      (sid : String) (events : List WsEvent) (n : ℕ) (state : Option (SatelliteState F))
      → suc n < 2 ^ 53
      → HasBudget sid (suc n) state
      → accepted_sent (handle_ws parse registry pipeline sid events state).0 ≤ n
  unfolding handle_ws handle_message
  loop_count sid [] n state small b = omega arith
  loop_count sid (heartbeat sent ∷ events) n state small b =
      heartbeat_count sent _ _ _ n (loop_count sid events n state small b)
  loop_count sid (text request_id content sent ∷ events) n none small (s, here, start) = cc
  loop_count sid (text request_id content sent ∷ events) n (some state) small b =
      turn_count sent _ _ _ _ n (
        turn_rest sid n events state _ b (loop_count sid events) small
          (dispatch-Cost request_id sid n state (parse content) small b))
  loop_count sid (closed ∷ events) n state small b = omega arith
  loop_count sid (other ∷ events) n state small b = loop_count sid events n state small b

  -- A connection for a session of the table with a budget of n + 1 units, fewer than 2 ^ 53, sends
  -- at most n acceptances, whatever it receives and for however long.
  pub accepted_sent-le :
      (sid : String) (n : ℕ) (events : List WsEvent) (state : SatelliteState F)
      (s : SatelliteSession F)
      → suc n < 2 ^ 53
      → get sid state.session_manager ≡ some s
      → s.trust_budget.remaining ≡ fl.nat (suc n)
      → accepted_sent (handle_ws parse registry pipeline sid events (some state)).0 ≤ n
  accepted_sent-le sid n events state s small here start =
      loop_count sid events n (some state) small (s, here, start)
