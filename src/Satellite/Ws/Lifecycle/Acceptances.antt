-- ===== src/Satellite/Ws/Lifecycle/Acceptances.antt =====
-- What a session can get accepted while the whole service goes on.
use intellisphere.Common.{
  ℕ, suc, ◌+◌, ◌<◌, ◌≤◌, ◌^◌, String, ◌≡◌, refl, ◌∙◌, ◌⊎◌, inl, inr, Option, none, some, List, [],
  ◌∷◌, Result, str_eq, str_eq_iff, str_eq_refl, arith, Bool-cases,
}
use intellisphere.Common.Float.{Float}
use intellisphere.Auth.Gate.{IngressGate}
use intellisphere.Pipeline.Chain.{PipelineChain}
use intellisphere.Tools.Registry.{ToolRegistry}
use intellisphere.Satellite.Ws.{SatelliteState, SatelliteMessage, handle_message}
use intellisphere.Satellite.Ws.Doomed.{session_of}
use intellisphere.Satellite.Ws.Spending.{acceptance, HasBudget}
use intellisphere.Satellite.Ws.Interleaved.{IsOver, own-Silent, own-Cost, own_rest, other-session}
use intellisphere.Satellite.Ws.Lifecycle.{
  Event, creation, message, cleanup, removal, after, accepted_by, accepted_in, IsOther, IsNewTo,
}
use intellisphere.Satellite.Ws.Lifecycle.Owners.{Owned}
use intellisphere.Satellite.Ws.Lifecycle.Kept.{after-Owned}
use intellisphere.Satellite.Ws.Lifecycle.Untouched.{
  Untouched, cleaned-Untouched, without-Untouched, create_session-other, absent_silent,
}

module _ {F : Type 0} ⦃fl : Float F⦄ (mac : String → String → String) (rfc3339 : ℕ → String)
    (plus : ℕ → ℕ → Option ℕ) (parse : String → Result SatelliteMessage String)
    (registry : ToolRegistry) (chain : PipelineChain) (gate : IngressGate) (secret : String) where
  -- The session is not there, exhausted or suspicious.
  abbrev IsSpent : String → Option (SatelliteState F) → Type 0
  IsSpent sid state = (session_of sid state ≡ none) ⊎ IsOver parse registry chain sid state

  -- What an event does for a session: it is a message of its, or sends it nothing and leaves it.
  abbrev IsTurn : String → Event F → Option (SatelliteState F) → Type 0
  IsTurn sid e state =
      ((request_id : String) × (content : String) × (e ≡ message sid request_id content))
      ⊎ ((accepted_by mac rfc3339 plus parse registry chain gate sid e state ≡ 0)
          × Untouched sid state (after mac rfc3339 plus parse registry chain gate e state))

  event-IsTurn :
      (earlier : List (Event F)) (sid : String) (e : Event F) (state : Option (SatelliteState F))
      → IsOther sid e
      → Owned plus gate earlier secret state
      → IsTurn sid e state
  unfolding after
  event-IsTurn earlier sid (creation authorization api_key body id now) state new o = inr (
    refl,
    inl (
        create_session-other mac rfc3339 plus gate authorization api_key body sid id now state new),
  )
  event-IsTurn earlier sid (message id request_id content) state new o =
      elim (Bool-cases (str_eq id sid)) [
        | inl same ↦ inl (request_id, content, rw ((str_eq_iff id sid).0 same))
        | inr apart ↦ inr (
          rw apart,
          inl (other-session parse registry chain sid (id, request_id, content) state apart),
        )
      ]
  event-IsTurn earlier sid (cleanup now) state new o =
      inr (refl, cleaned-Untouched plus gate earlier secret sid now state o)
  event-IsTurn earlier sid (removal id) state new o = inr (refl, without-Untouched sid id state)

  turn-IsSpent :
      (request_id sid content : String) (state : Option (SatelliteState F))
      → IsSpent sid state
      → (acceptance (handle_message parse registry chain request_id sid state content).0 ≡ 0)
        × IsSpent sid (handle_message parse registry chain request_id sid state content).1
  unfolding handle_message
  turn-IsSpent request_id sid content state (inl gone) =
      let (quiet, still) =
        absent_silent parse registry chain request_id sid state (parse content) gone in
      (quiet, inl still)
  turn-IsSpent request_id sid content state (inr over) =
      let (quiet, still) =
        own-Silent parse registry chain sid (sid, request_id, content) state (str_eq_refl sid)
          over in
      (quiet, inr still)

  Untouched-IsSpent :
      (sid : String) (state state' : Option (SatelliteState F))
      → Untouched sid state state'
      → IsSpent sid state
      → IsSpent sid state'
  Untouched-IsSpent sid state state' (inr gone) spent = inl gone
  Untouched-IsSpent sid state state' (inl same) (inl gone) = inl (same ∙ gone)
  Untouched-IsSpent sid state state' (inl same) (inr over) = inr (over.0, same ∙ over.1, over.2)

  event-IsSpent :
      (sid : String) (e : Event F) (state : Option (SatelliteState F))
      → IsTurn sid e state
      → IsSpent sid state
      → (accepted_by mac rfc3339 plus parse registry chain gate sid e state ≡ 0)
        × IsSpent sid (after mac rfc3339 plus parse registry chain gate e state)
  unfolding after
  event-IsSpent sid e state (inl (request_id, content, is_own)) spent =
      rw (is_own, str_eq_refl sid) (turn-IsSpent request_id sid content state spent)
  event-IsSpent sid e state (inr (quiet, left)) spent =
      (quiet, Untouched-IsSpent sid state _ left spent)

  spent_run :
      (earlier : List (Event F)) (sid : String) (events : List (Event F))
      (state : Option (SatelliteState F))
      → IsNewTo sid events
      → Owned plus gate earlier secret state
      → IsSpent sid state
      → accepted_in mac rfc3339 plus parse registry chain gate sid events state ≡ 0
  spent_run earlier sid [] state new o spent = refl
  spent_run earlier sid (e ∷ events) state new o spent =
      let (quiet, still) =
        event-IsSpent sid e state (event-IsTurn earlier sid e state new.0 o) spent in
      let later =
        spent_run (e ∷ earlier) sid events _ new.1
          (after-Owned plus gate secret mac rfc3339 parse registry chain earlier e state o) still in
      omega (arith, quiet, later)

  -- What an event and all that follows it come to, for a session with units left.
  funded_event :
      (sid : String) (e : Event F) (n : ℕ) (state : Option (SatelliteState F)) (rest : ℕ)
      → ((k : ℕ)
          → suc k < 2 ^ 53
          → HasBudget parse registry chain sid
              (suc k)
              (after mac rfc3339 plus parse registry chain gate e state)
          → rest ≤ k)
      → (IsSpent sid (after mac rfc3339 plus parse registry chain gate e state) → rest ≡ 0)
      → suc n < 2 ^ 53
      → HasBudget parse registry chain sid (suc n) state
      → IsTurn sid e state
      → accepted_by mac rfc3339 plus parse registry chain gate sid e state + rest ≤ n
  unfolding after
  funded_event sid e n none rest going spent small (s, here, left) turn = cc
  funded_event sid e n (some state) rest going spent small b (inl (request_id, content, is_own)) =
      let turn = handle_message parse registry chain request_id sid (some state) content in
      let going' : (k : ℕ)
          → suc k < 2 ^ 53
          → HasBudget parse registry chain sid (suc k) turn.1
          → rest ≤ k =
        rw is_own at going in
      let spent' : IsSpent sid turn.1 → rest ≡ 0 = rw is_own at spent in
      rw (is_own, str_eq_refl sid)
        (own_rest parse registry chain sid n state turn rest going' (λ over. spent' (inr over))
          small b
          (own-Cost parse registry chain sid (sid, request_id, content) n state (str_eq_refl sid)
            small b))
  funded_event sid e n (some state) rest going spent small b (inr (quiet, inl same)) =
      omega (arith, quiet, going n small (b.0, same ∙ b.1, b.2))
  funded_event sid e n (some state) rest going spent small b (inr (quiet, inr gone)) =
      omega (arith, quiet, spent (inl gone))

  pub funded_run :
      (earlier : List (Event F)) (sid : String) (events : List (Event F)) (n : ℕ)
      (state : Option (SatelliteState F))
      → IsNewTo sid events
      → Owned plus gate earlier secret state
      → suc n < 2 ^ 53
      → HasBudget parse registry chain sid (suc n) state
      → accepted_in mac rfc3339 plus parse registry chain gate sid events state ≤ n
  funded_run earlier sid [] n state new o small b = omega arith
  funded_run earlier sid (e ∷ events) n state new o small b =
      let o' = after-Owned plus gate secret mac rfc3339 parse registry chain earlier e state o in
      funded_event sid e n state _ (λ k. funded_run (e ∷ earlier) sid events k _ new.1 o')
        (spent_run (e ∷ earlier) sid events _ new.1 o') small b
        (event-IsTurn earlier sid e state new.0 o)
