-- ===== src/Satellite/Ws/Lifecycle/Untouched.antt =====
-- What an event leaves of a session that it is not for.
use intellisphere.Common.{
  List, ℕ, String, ◌≡◌, refl, ◌∙◌, ◌⊎◌, inl, inr, Bool, true, false, Option, none, some, Result, ok,
  err, str_eq, Bool-cases, if◌then◌else◌,
}
use intellisphere.Common.Dict.{lookup-insert, lookup-remove, filter_some}
use intellisphere.Common.Float.{Float}
use intellisphere.Errors.{SphereError}
use intellisphere.Auth.Identity.{Identity}
use intellisphere.Auth.Gate.{IngressGate}
use intellisphere.Pipeline.Chain.{PipelineChain}
use intellisphere.Tools.Registry.{ToolRegistry}
use intellisphere.Satellite.Session.{get, create, remove_session}
use intellisphere.Satellite.Session.Expiry.{live, cleanup_expired_exact}
use intellisphere.Satellite.Ws.{
  SatelliteState, SatelliteMessage, CreateSessionRequest, tool_proposal, adjudication_result, ping,
  pong, error, session_terminated, create_session, authenticated, dated, issue, propose_to, propose,
  dispatch,
}
use intellisphere.Satellite.Ws.Doomed.{session_of}
use intellisphere.Satellite.Ws.Spending.{acceptance}
use intellisphere.Satellite.Ws.Lifecycle.{Event, left_by, cleaned, without}
use intellisphere.Satellite.Ws.Lifecycle.Owners.{Owned}

-- The session is as it was, or is gone.
abbrev pub Untouched :
    {F : Type 0} → String → Option (SatelliteState F) → Option (SatelliteState F) → Type 0
Untouched sid state state' =
    (session_of sid state' ≡ session_of sid state) ⊎ (session_of sid state' ≡ none)

filter_some-cases :
    {A : Type 0} (p : A → Bool) (o : Option A) → (filter_some p o ≡ o) ⊎ (filter_some p o ≡ none)
filter_some-cases p none = inl refl
filter_some-cases p (some a) = elim (Bool-cases (p a)) [ inl e ↦ inl (rw e) | inr e ↦ inr (rw e) ]

if-cases :
    {A : Type 0} (b : Bool) (x y : A)
    → (if◌then◌else◌ {A = A} b x y ≡ y) ⊎ (if◌then◌else◌ {A = A} b x y ≡ x)
if-cases true x y = inr refl
if-cases false x y = inl refl

module _ {F : Type 0} ⦃fl : Float F⦄ (plus : ℕ → ℕ → Option ℕ) (gate : IngressGate)
    (earlier : List (Event F)) (secret : String) where
  pub cleaned-Untouched :
      (sid : String) (now : ℕ) (state : Option (SatelliteState F))
      → Owned plus gate earlier secret state
      → Untouched sid state (cleaned now state)
  unfolding cleaned
  cleaned-Untouched sid now none o = inl refl
  cleaned-Untouched sid now (some state) o =
      rw ((cleanup_expired_exact now state.session_manager sid o.table).0)
        (filter_some-cases (live now) (get sid state.session_manager))

module _ {F : Type 0} where
  pub without-Untouched :
      (sid id : String) (state : Option (SatelliteState F)) → Untouched sid state (without id state)
  unfolding without get remove_session
  without-Untouched sid id none = inl refl
  without-Untouched sid id (some state) =
      rw (lookup-remove id sid state.session_manager.sessions) (if-cases (str_eq id sid) none _)

module _ {F : Type 0} ⦃fl : Float F⦄ (mac : String → String → String) (rfc3339 : ℕ → String)
    (plus : ℕ → ℕ → Option ℕ) where
  dated-other :
      (body : CreateSessionRequest F) (sid id : String) (now : ℕ) (identity : Identity)
      (expires : Option ℕ) (state : Option (SatelliteState F))
      → str_eq id sid ≡ false
      → session_of sid (left_by state (dated mac rfc3339 plus body id now state identity expires))
        ≡ session_of sid state
  unfolding dated issue left_by get create
  dated-other body sid id now identity none state ne = refl
  dated-other body sid id now identity (some expires) none ne = refl
  dated-other body sid id now identity (some expires) (some state) ne =
      lookup-insert id sid _ state.session_manager.sessions ∙ rw ne

  creation-other :
      (body : CreateSessionRequest F) (sid id : String) (now : ℕ)
      (verdict : Result Identity SphereError) (state : Option (SatelliteState F))
      → str_eq id sid ≡ false
      → session_of sid (left_by state (authenticated mac rfc3339 plus body id now state verdict))
        ≡ session_of sid state
  unfolding authenticated left_by
  creation-other body sid id now (err e) state ne = refl
  creation-other body sid id now (ok identity) state ne =
      dated-other body sid id now identity _ state ne

  -- A creation leaves the sessions of other identifiers as they were.
  pub create_session-other :
      (gate : IngressGate) (authorization api_key : Option String) (body : CreateSessionRequest F)
      (sid id : String) (now : ℕ) (state : Option (SatelliteState F))
      → str_eq id sid ≡ false
      → session_of sid (
          left_by state
            (create_session mac rfc3339 plus gate authorization api_key body id now state))
        ≡ session_of sid state
  unfolding create_session
  create_session-other gate authorization api_key body sid id now state ne =
      creation-other body sid id now _ state ne

module _ {F : Type 0} ⦃fl : Float F⦄ (parse : String → Result SatelliteMessage String)
    (registry : ToolRegistry) (chain : PipelineChain) where
  pub absent_silent :
      (request_id sid : String) (state : Option (SatelliteState F))
      (m : Result SatelliteMessage String)
      → session_of sid state ≡ none
      → (acceptance (dispatch parse registry chain request_id sid state m).0 ≡ 0)
        × (session_of sid (dispatch parse registry chain request_id sid state m).1 ≡ none)
  unfolding dispatch propose propose_to
  absent_silent request_id sid state (err e) gone = (refl, gone)
  absent_silent request_id sid state (ok pong) gone = (refl, gone)
  absent_silent request_id sid none (ok (tool_proposal id name payload)) gone = (refl, refl)
  absent_silent request_id sid (some state) (ok (tool_proposal id name payload)) gone =
      rw gone (refl, gone)
  absent_silent request_id sid state (ok ping) gone = (refl, gone)
  absent_silent request_id sid state (ok (adjudication_result id accepted reason)) gone =
      (refl, gone)
  absent_silent request_id sid state (ok (error reason)) gone = (refl, gone)
  absent_silent request_id sid state (ok (session_terminated reason)) gone = (refl, gone)
