-- ===== src/Satellite/Ws/Issue.antt =====
-- From the creation of a session to its upgrade.
use intellisphere.Common.{
  ℕ, String, ◌≡◌, refl, ◌∙◌, Bool, true, false, err, if◌then◌else◌, Option, some, [], ◌∷◌, ok, ltb,
  str_eq, str_eq_refl, unwrap_or, Bool-cases, inl, inr,
}
use intellisphere.Common.Dict.{Dict, insert, lookup-insert}
use intellisphere.Common.Float.{Float}
use intellisphere.Auth.Identity.{Identity}
use intellisphere.Errors.{auth_error}
use intellisphere.Auth.Gate.{IngressGate, authenticate}
use intellisphere.Satellite.TrustBudget
use intellisphere.Satellite.Session.{SatelliteSession, create}
use intellisphere.Satellite.Ws.{
  SatelliteState, CreateSessionRequest, CreateSessionResponse, generate_token, create_session,
  issue, dated, authenticated, ws_upgrade,
}
use intellisphere.Satellite.Ws.Upgrade.{OnlyOpens, ws_upgrade-own}

by_test :
    {A : Type 0} (b : Bool) {r x y : A}
    → (b ≡ true → r ≡ x) × (b ≡ false → r ≡ y)
    → r ≡ (if b then x else y)
by_test true h = h.0 refl
by_test false h = h.1 refl

module _ {F : Type 0} ⦃fl : Float F⦄ (mac : String → String → String) (rfc3339 : ℕ → String)
    (plus : ℕ → ℕ → Option ℕ) where
  insert-OnlyOpens :
      (token secret sid : String) (s : SatelliteSession F) (m : Dict (SatelliteSession F))
      → OnlyOpens mac rfc3339 token secret sid m
      → OnlyOpens mac rfc3339 token secret sid (insert sid s m)
  unfolding insert
  insert-OnlyOpens token secret sid s [] only = (λ h. refl, tt)
  insert-OnlyOpens token secret sid s ((k, r) ∷ m) only = elim (Bool-cases (str_eq k sid)) [
    | inl same ↦ rw same (λ h. refl, only.1)
    | inr other ↦ rw other (only.0, insert-OnlyOpens token secret sid s m only.1)
  ]

  -- For a caller whom the gate lets in and an expiry that the clock can hold, a session is created,
  -- and the token in the response opens it at every time before the expiry and is refused from then
  -- on, if it is not the token of another session of the table as well.
  pub ws_upgrade-create_session :
      (gate : IngressGate) (authorization api_key : Option String) (body : CreateSessionRequest F)
      (sid : String) (now later expires : ℕ) (state : SatelliteState F) (identity : Identity)
      → authenticate gate authorization api_key ≡ ok identity
      → plus now (unwrap_or body.duration_secs 3600) ≡ some expires
      → OnlyOpens mac rfc3339
          (generate_token mac sid identity.sub (rfc3339 expires) state.server_secret)
          state.server_secret
          sid
          state.session_manager.sessions
      → (response : CreateSessionResponse) × (state' : SatelliteState F) × (create_session mac
            rfc3339 plus gate authorization api_key body sid now
            (some state)
          ≡ some (ok response, some state'))
        × (ws_upgrade mac rfc3339 (some state') response.token later ≡ (
            if ltb later expires
            then ok sid
            else err (auth_error "invalid or expired session token")))
  unfolding create_session authenticated dated issue create
  ws_upgrade-create_session gate authorization api_key body sid now later expires state identity
        admitted dates only =
      let response : CreateSessionResponse = record {
        session_id = sid;
        token = generate_token mac sid identity.sub (rfc3339 expires) state.server_secret;
        expires_at = rfc3339 expires;
      } in
      let session : SatelliteSession F = record {
        session_id = sid;
        identity_sub = identity.sub;
        trust_budget = TrustBudget.new (unwrap_or body.trust_budget (fl.nat 100)) (fl.nat 1);
        created_at = now;
        expires_at = expires;
      } in
      let state' : SatelliteState F = record state {
        session_manager = record { sessions = insert sid session state.session_manager.sessions };
      } in
      rw (admitted, authenticated, dates, dated)
        (
          response,
          state',
          refl,
          by_test (ltb later expires) (
              ws_upgrade-own mac rfc3339 state' sid later session response.token
                (lookup-insert sid sid session state.session_manager.sessions
                  ∙ rw (str_eq_refl sid))
                refl
                (insert-OnlyOpens response.token state.server_secret sid session
                  state.session_manager.sessions only)),
        )
