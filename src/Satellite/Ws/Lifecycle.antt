-- ===== src/Satellite/Ws/Lifecycle.antt =====
-- sphere/src/satellite/ws.rs and session.rs: the session table over the life of the service. The
-- requests that create sessions, the messages of the connections, and the table's own cleanups and
-- removals come one at a time, since each holds the table's lock; their order is any.
pub mod Owners
pub mod Kept
pub mod Opened
pub mod Untouched
pub mod Acceptances
pub mod Limit
pub mod Spec
pub mod Stores
pub mod Refinement
use intellisphere.Common.{
  ℕ, ◌+◌, String, ◌≡◌, ◌⊎◌, false, Option, none, some, List, [], ◌∷◌, Result, str_eq, if◌then◌else◌,
}
use intellisphere.Common.Float.{Float}
use intellisphere.Errors.{SphereError}
use intellisphere.Auth.Gate.{IngressGate}
use intellisphere.Pipeline.Chain.{PipelineChain}
use intellisphere.Tools.Registry.{ToolRegistry}
use intellisphere.Satellite.Session.{cleanup_expired, remove_session}
use intellisphere.Satellite.Ws.{
  SatelliteState, SatelliteMessage, CreateSessionRequest, CreateSessionResponse, create_session,
  handle_message,
}
use intellisphere.Satellite.Ws.Spending.{acceptance}

-- A creation has the two headers, the body, the fresh identifier and the time; a message the
-- session of its connection, the identifier that adjudication draws for it, and its text.
pub data Event (F : Type 0) : Type 0 where
  creation : Option String → Option String → CreateSessionRequest F → String → ℕ → Event F
  message : String → String → String → Event F
  cleanup : ℕ → Event F
  removal : String → Event F

-- A creation that panics does so before it takes the lock.
unfoldable pub left_by :
    {F : Type 0}
    → Option (SatelliteState F)
    → Option (Result CreateSessionResponse SphereError × Option (SatelliteState F))
    → Option (SatelliteState F)
left_by state none = state
left_by state (some (response, state')) = state'

unfoldable pub cleaned : {F : Type 0} → ℕ → Option (SatelliteState F) → Option (SatelliteState F)
cleaned now none = none
cleaned now (some state) =
    some (record state { session_manager = (cleanup_expired now state.session_manager).1 })

unfoldable pub without :
    {F : Type 0} → String → Option (SatelliteState F) → Option (SatelliteState F)
without sid none = none
without sid (some state) =
    some (record state { session_manager = (remove_session sid state.session_manager).1 })

module _ {F : Type 0} ⦃fl : Float F⦄ (mac : String → String → String) (rfc3339 : ℕ → String)
    (plus : ℕ → ℕ → Option ℕ) (parse : String → Result SatelliteMessage String)
    (registry : ToolRegistry) (chain : PipelineChain) (gate : IngressGate) where
  unfoldable pub after : Event F → Option (SatelliteState F) → Option (SatelliteState F)
  unfolding left_by cleaned without
  after (creation authorization api_key body sid now) state =
      left_by state (create_session mac rfc3339 plus gate authorization api_key body sid now state)
  after (message sid request_id content) state =
      (handle_message parse registry chain request_id sid state content).1
  after (cleanup now) state = cleaned now state
  after (removal sid) state = without sid state

  -- The states that the service comes to from one of its states.
  pub data Reach (start : Option (SatelliteState F)) : Option (SatelliteState F) → Type 0 where
    here : Reach start start
    next :
        (e : Event F) {state : Option (SatelliteState F)}
        → Reach start state
        → Reach start (after e state)

  -- The events on the way, the latest first.
  abbrev pub past : {start state : Option (SatelliteState F)} → Reach start state → List (Event F)
  past here = []
  past (next e r) = e ∷ past r

  -- The acceptances that one event sends to the connections of a session.
  abbrev pub accepted_by : String → Event F → Option (SatelliteState F) → ℕ
  accepted_by sid (creation authorization api_key body id now) state = 0
  accepted_by sid (message id request_id content) state =
      if str_eq id sid
      then acceptance (handle_message parse registry chain request_id id state content).0
      else 0
  accepted_by sid (cleanup now) state = 0
  accepted_by sid (removal id) state = 0

  abbrev pub accepted_in : String → List (Event F) → Option (SatelliteState F) → ℕ
  accepted_in sid [] state = 0
  accepted_in sid (e ∷ events) state =
      accepted_by sid e state + accepted_in sid events (after e state)

-- The event is among the events.
abbrev pub Happened : {F : Type 0} → Event F → List (Event F) → Type 0
Happened e [] = ⊥
Happened e (e' ∷ events) = (e' ≡ e) ⊎ Happened e events

-- The event does not create a session of this identifier.
abbrev pub IsOther : {F : Type 0} → String → Event F → Type 0
IsOther sid (creation authorization api_key body id now) = str_eq id sid ≡ false
IsOther sid (message id request_id content) = Unit {0}
IsOther sid (cleanup now) = Unit {0}
IsOther sid (removal id) = Unit {0}

-- No later creation draws the identifier again.
abbrev pub IsNewTo : {F : Type 0} → String → List (Event F) → Type 0
IsNewTo sid [] = Unit {0}
IsNewTo sid (e ∷ events) = IsOther sid e × IsNewTo sid events
