-- ===== src/Satellite/Ws/Upgrade.antt =====
-- Which session a token opens.
use intellisphere.Common.{
  ℕ, String, ◌≡◌, subst, Bool, true, false, Option, none, some, [], ◌∷◌, ok, err, ok_or, ltb,
  str_eq, str_eq_iff, str_eq_refl, any, ◌&&◌, arith, if◌then◌else◌,
}
use intellisphere.Common.Dict.{Dict, lookup}
use intellisphere.Errors.{auth_error}
use intellisphere.Satellite.Session.{SatelliteSession}
use intellisphere.Satellite.Ws.{
  SatelliteState, generate_token, validate_token, find_session, ws_upgrade,
}

ok_or-ok : {A E : Type 0} (o : Option A) (e : E) {a : A} → ok_or o e ≡ ok a → o ≡ some a
ok_or-ok none e h = cc
ok_or-ok (some a) e h = cc

module _ {F : Type 0} (mac : String → String → String) (rfc3339 : ℕ → String) where
  -- The token is that of the session.
  abbrev pub opens : String → String → String → SatelliteSession F → Bool
  opens token secret sid s =
      validate_token mac token sid s.identity_sub (rfc3339 s.expires_at) secret

  -- The token is that of no other entry of the table.
  abbrev pub OnlyOpens : String → String → String → Dict (SatelliteSession F) → Type 0
  OnlyOpens token secret sid [] = Unit {0}
  OnlyOpens token secret sid ((k, s) ∷ m) =
      (opens token secret k s ≡ true → k ≡ sid) × OnlyOpens token secret sid m

  find_session_only :
      (token secret sid : String) (now : ℕ) (m : Dict (SatelliteSession F)) (s : SatelliteSession F)
      → OnlyOpens token secret sid m
      → lookup sid m ≡ some s
      → opens token secret sid s ≡ true
      → find_session mac rfc3339 token secret now m
        ≡ (if ltb now s.expires_at then some sid else none)
  unfolding find_session lookup
  find_session_only token secret sid now [] s only here valid = cc
  find_session_only token secret sid now ((k, r) ∷ m) s only here valid =
      ground (arith, str_eq_iff k sid, find_session_only token secret sid now m s only.1)

  -- A token opens the session that it was issued for, until that expires, whatever other sessions
  -- there are and in whatever order, if it is not the token of another one as well.
  pub ws_upgrade-own :
      (state : SatelliteState F) (sid : String) (now : ℕ) (s : SatelliteSession F) (token : String)
      → lookup sid state.session_manager.sessions ≡ some s
      → token ≡ generate_token mac sid s.identity_sub (rfc3339 s.expires_at) state.server_secret
      → OnlyOpens token state.server_secret sid state.session_manager.sessions
      → (ltb now s.expires_at ≡ true → ws_upgrade mac rfc3339 (some state) token now ≡ ok sid)
        × (ltb now s.expires_at ≡ false
            → ws_upgrade mac rfc3339 (some state) token now
              ≡ err (auth_error "invalid or expired session token"))
  unfolding ws_upgrade validate_token generate_token
  ws_upgrade-own state sid now s token here issued only =
      let valid : opens token state.server_secret sid s ≡ true =
        subst (λ t. str_eq token t ≡ true) issued (str_eq_refl token) in
      let found = find_session_only token state.server_secret sid now _ s only here valid in
      (λ alive. rw (found, alive), λ dead. rw (found, dead))

  find_session_sound :
      (token secret sid : String) (now : ℕ) (m : Dict (SatelliteSession F))
      → find_session mac rfc3339 token secret now m ≡ some sid
      → any (λ e. str_eq e.0 sid && opens token secret e.0 e.1 && ltb now e.1.expires_at) m ≡ true
  unfolding find_session
  find_session_sound token secret sid now [] h = cc
  find_session_sound token secret sid now ((k, r) ∷ m) h =
      ground (arith, str_eq_iff k sid, find_session_sound token secret sid now m)

  -- The upgrade admits nobody without a token of a session of the table that has not expired.
  pub ws_upgrade_sound :
      (state : SatelliteState F) (token sid : String) (now : ℕ)
      → ws_upgrade mac rfc3339 (some state) token now ≡ ok sid
      → any
          (λ e. str_eq e.0 sid && opens token state.server_secret e.0 e.1 && ltb now e.1.expires_at)
          state.session_manager.sessions
        ≡ true
  unfolding ws_upgrade
  ws_upgrade_sound state token sid now h =
      find_session_sound token state.server_secret sid now state.session_manager.sessions
        (ok_or-ok _ _ h)
