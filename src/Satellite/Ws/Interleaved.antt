-- ===== src/Satellite/Ws/Interleaved.antt =====
-- Any number of connections at a time, several for one session among them. A connection holds the
-- table's lock while a message of its is handled, so the connections interleave message by message.
use intellisphere.Common.{
  ℕ, zero, suc, ◌+◌, ◌<◌, ◌≤◌, ◌^◌, String, ◌≡◌, refl, sym, subst, ◌∙◌, inl, inr, true, false,
  Option, none, some, List, [], ◌∷◌, Result, ok, err, str_eq, str_eq_iff, arith, Bool-cases,
  if◌then◌else◌,
}
use intellisphere.Common.Float.{Float}
use intellisphere.Pipeline.Chain.{PipelineChain}
use intellisphere.Tools.Registry.{ToolRegistry}
use intellisphere.Satellite.TrustBudget.{is_exhausted}
use intellisphere.Satellite.Session.{SatelliteSession, get}
use intellisphere.Satellite.Ws.{
  SatelliteState, SatelliteMessage, tool_proposal, adjudication_result, ping, pong, error,
  session_terminated, dispatch, handle_message,
}
use intellisphere.Satellite.Ws.Doomed.{session_of, is_over, dispatch-other, propose-over}
use intellisphere.Satellite.Ws.Spending.{
  acceptance, acceptance-ends, acceptance-le, HasBudget, Cost, dispatch-Cost,
}

-- A message: the session of the connection it comes over, the identifier that adjudication draws
-- for it, and its text.
abbrev pub Arrival : Type 0
Arrival = String × String × String

module _ {F : Type 0} ⦃fl : Float F⦄ (parse : String → Result SatelliteMessage String)
    (registry : ToolRegistry) (pipeline : PipelineChain) where
  abbrev pub arrive :
      Arrival → Option (SatelliteState F) → SatelliteMessage × Option (SatelliteState F)
  arrive (id, request_id, content) state =
      handle_message parse registry pipeline request_id id state content

  -- The acceptances that the connections of one session send.
  abbrev pub accepted_for : String → List Arrival → Option (SatelliteState F) → ℕ
  accepted_for sid [] state = 0
  accepted_for sid (a ∷ later) state =
      (if str_eq a.0 sid then acceptance (arrive a state).0 else 0)
      + accepted_for sid later (arrive a state).1

  abbrev pub IsOver : String → Option (SatelliteState F) → Type 0
  IsOver sid state = (s : SatelliteSession F) × (session_of sid state ≡ some s) × (is_over s ≡ true)

  abbrev pub Silent : String → SatelliteMessage × Option (SatelliteState F) → Type 0
  Silent sid turn = (acceptance turn.0 ≡ 0) × IsOver sid turn.1

  dispatch-Silent :
      (request_id sid : String) (state : Option (SatelliteState F))
      (m : Result SatelliteMessage String)
      → IsOver sid state
      → Silent sid (dispatch parse registry pipeline request_id sid state m)
  unfolding dispatch
  dispatch-Silent request_id sid none m (s, here, over) = cc
  dispatch-Silent request_id sid (some state) (err e) o = (refl, o)
  dispatch-Silent request_id sid (some state) (ok pong) o = (refl, o)
  dispatch-Silent request_id sid (some state) (ok (tool_proposal id name payload)) (s, here, over) =
      let (last, still) =
        propose-over parse registry pipeline request_id sid state id
          (record { tool_name = name; result_payload = payload }) s here over in
      (acceptance-ends _ last, still)
  dispatch-Silent request_id sid (some state) (ok ping) o = (refl, o)
  dispatch-Silent request_id sid (some state) (ok (adjudication_result id accepted reason)) o =
      (refl, o)
  dispatch-Silent request_id sid (some state) (ok (error message)) o = (refl, o)
  dispatch-Silent request_id sid (some state) (ok (session_terminated reason)) o = (refl, o)

  -- What a message for another session leaves of this one.
  pub other-session :
      (sid : String) (a : Arrival) (state : Option (SatelliteState F))
      → str_eq a.0 sid ≡ false
      → session_of sid (arrive a state).1 ≡ session_of sid state
  unfolding handle_message
  other-session sid (id, request_id, content) state ne =
      dispatch-other parse registry pipeline request_id id sid state (parse content) ne

  pub own-Silent :
      (sid : String) (a : Arrival) (state : Option (SatelliteState F))
      → str_eq a.0 sid ≡ true
      → IsOver sid state
      → Silent sid (arrive a state)
  unfolding handle_message
  own-Silent sid (id, request_id, content) state same o =
      let id_sid = (str_eq_iff id sid).0 same in
      rw id_sid (dispatch-Silent request_id sid state (parse content) o)

  pub own-Cost :
      (sid : String) (a : Arrival) (n : ℕ) (state : SatelliteState F)
      → str_eq a.0 sid ≡ true
      → suc n < 2 ^ 53
      → HasBudget parse registry pipeline sid (suc n) (some state)
      → Cost parse registry pipeline sid n (some state) (arrive a (some state))
  unfolding handle_message
  own-Cost sid (id, request_id, content) n state same small b =
      let id_sid = (str_eq_iff id sid).0 same in
      rw id_sid
        (dispatch-Cost parse registry pipeline request_id sid n state (parse content) small b)

  over-silent :
      (sid : String) (later : List Arrival) (state : Option (SatelliteState F))
      → IsOver sid state
      → accepted_for sid later state ≡ 0
  over-silent sid [] state o = refl
  over-silent sid (a ∷ later) state o = elim (Bool-cases (str_eq a.0 sid)) [
    | inl same ↦
        let (quiet, still) = own-Silent sid a state same o in
        rw (same, quiet) (omega (arith, over-silent sid later _ still))
    | inr apart ↦
        let still : IsOver sid (arrive a state).1 =
          (o.0, other-session sid a state apart ∙ o.1, o.2) in
        rw apart (omega (arith, over-silent sid later (arrive a state).1 still))
  ]

  spent-IsOver :
      (sid : String) (state : Option (SatelliteState F))
      → HasBudget parse registry pipeline sid 0 state
      → IsOver sid state
  unfolding is_exhausted
  spent-IsOver sid state (s, here, left) =
      (s, here, rw (left, fl.le-nat 0 0 (omega arith) (omega arith)) refl)

  -- What one message of the session and all that follows it come to.
  pub own_rest :
      (sid : String) (n : ℕ) (state : SatelliteState F)
      (turn : SatelliteMessage × Option (SatelliteState F)) (rest : ℕ)
      → ((k : ℕ) → suc k < 2 ^ 53 → HasBudget parse registry pipeline sid (suc k) turn.1 → rest ≤ k)
      → (IsOver sid turn.1 → rest ≡ 0)
      → suc n < 2 ^ 53
      → HasBudget parse registry pipeline sid (suc n) (some state)
      → Cost parse registry pipeline sid n (some state) turn
      → acceptance turn.0 + rest ≤ n
  own_rest sid n state (reply, state') rest going over small b (inl (same, none_sent)) =
      let bound =
        going n small (subst (HasBudget parse registry pipeline sid (suc n)) (sym same) b) in
      omega (arith, bound, none_sent)
  own_rest sid zero state (reply, state') rest going over small b (inr (left, last)) =
      omega (arith, over (spent-IsOver sid state' left), acceptance-ends reply (last refl))
  own_rest sid (suc k) state (reply, state') rest going over small b (inr (left, last)) =
      omega (arith, going k (omega arith) left, acceptance-le reply)

  arrivals_count :
      (sid : String) (later : List Arrival) (n : ℕ) (state : Option (SatelliteState F))
      → suc n < 2 ^ 53
      → HasBudget parse registry pipeline sid (suc n) state
      → accepted_for sid later state ≤ n
  arrivals_count sid [] n state small b = omega arith
  arrivals_count sid (a ∷ later) n none small (s, here, start) = cc
  arrivals_count sid (a ∷ later) n (some state) small b = elim (Bool-cases (str_eq a.0 sid)) [
    | inl same ↦ rw same (
        own_rest sid n state (arrive a (some state))
          (accepted_for sid later (arrive a (some state)).1)
          (λ k. arrivals_count sid later k (arrive a (some state)).1)
          (over-silent sid later (arrive a (some state)).1) small b
          (own-Cost sid a n state same small b))
    | inr apart ↦
        let still : HasBudget parse registry pipeline sid (suc n) (arrive a (some state)).1 =
          (b.0, other-session sid a (some state) apart ∙ b.1, b.2) in
        rw apart (omega (arith, arrivals_count sid later n (arrive a (some state)).1 small still))
  ]

  -- However the messages of any number of connections interleave, those of several connections of
  -- one session among them, the connections of a session of the table with a budget of n + 1
  -- units, fewer than 2 ^ 53, together send at most n acceptances.
  pub accepted_for-le :
      (sid : String) (n : ℕ) (arrivals : List Arrival) (state : SatelliteState F)
      (s : SatelliteSession F)
      → suc n < 2 ^ 53
      → get sid state.session_manager ≡ some s
      → s.trust_budget.remaining ≡ fl.nat (suc n)
      → accepted_for sid arrivals (some state) ≤ n
  accepted_for-le sid n arrivals state s small here start =
      arrivals_count sid arrivals n (some state) small (s, here, start)
