-- ===== src/Satellite/Ws/Lifecycle/Opened.antt =====
-- Which session an upgrade opens, once every session of the table is its callers'.
use intellisphere.Common.{
  ℕ, String, ◌≡◌, Bool, true, Option, some, ok, List, ltb, str_eq, str_eq_iff, ◌&&◌, arith,
}
use intellisphere.Common.Dict.{any-lookup}
use intellisphere.Common.Float.{Float}
use intellisphere.Auth.Gate.{IngressGate}
use intellisphere.Satellite.Session.{SatelliteSession, get}
use intellisphere.Satellite.Ws.{SatelliteState, generate_token, validate_token, ws_upgrade}
use intellisphere.Satellite.Ws.Upgrade.{opens, ws_upgrade_sound}
use intellisphere.Satellite.Ws.Lifecycle.{Event}
use intellisphere.Satellite.Ws.Lifecycle.Owners.{Granted, IsOwned}

and_all : (a b c : Bool) → (a && b && c) ≡ true → (a ≡ true) × (b ≡ true) × (c ≡ true)
and_all a b c h = ground arith

module _ {F : Type 0} ⦃fl : Float F⦄ (plus : ℕ → ℕ → Option ℕ) (gate : IngressGate)
    (events : List (Event F)) (mac : String → String → String) (rfc3339 : ℕ → String) where
  -- A token's own session, granted to a caller, that lives at a time.
  abbrev pub OpensGranted : String → SatelliteState F → String → String → ℕ → Type 0
  OpensGranted secret state token sid now =
      (s : SatelliteSession F) × (get sid state.session_manager ≡ some s)
      × Granted plus gate events sid s
      × (token ≡ generate_token mac sid s.identity_sub (rfc3339 s.expires_at) secret)
      × (ltb now s.expires_at ≡ true)

  pub ws_upgrade_owned :
      (secret : String) (state : SatelliteState F) (token sid : String) (now : ℕ)
      → IsOwned plus gate events secret state
      → ws_upgrade mac rfc3339 (some state) token now ≡ ok sid
      → OpensGranted secret state token sid now
  unfolding get validate_token
  ws_upgrade_owned secret state token sid now o h =
      let (s, found, good) =
        any-lookup sid
          (λ e.
            str_eq e.0 sid
            && opens mac rfc3339 token state.server_secret e.0 e.1
            && ltb now e.1.expires_at)
          state.session_manager.sessions (λ e h. (and_all _ _ _ h).0) o.table
          (ws_upgrade_sound mac rfc3339 state token sid now h) in
      let (_, valid, alive) = and_all _ _ _ good in
      (s, found, o.granted sid s found, rw (← o.kept) ((str_eq_iff token _).0 valid), alive)
