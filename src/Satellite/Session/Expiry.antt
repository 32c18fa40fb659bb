-- ===== src/Satellite/Session/Expiry.antt =====
-- What the session table holds after each of its operations.
use intellisphere.Common.{
  ℕ, ◌+◌, String, ◌≡◌, refl, Bool, none, some, length-retain-le, ltb, arith, str_eq, if◌then◌else◌,
}
use intellisphere.Common.Dict.{
  Unique, retain-Unique, filter_some, lookup-retain, lookup-insert, lookup-remove,
}
use intellisphere.Satellite.TrustBudget.{TrustBudget}
use intellisphere.Satellite.Session.{
  SatelliteSession, SessionManager, create, get, remove_session, len, cleanup_expired,
}

module _ {F : Type 0} where
  abbrev pub IsTable : SessionManager F → Type 0
  IsTable mgr = Unique mgr.sessions

  abbrev pub live : ℕ → SatelliteSession F → Bool
  live now s = ltb now s.expires_at

  -- The cleanup keeps, of each id, the session that has not expired, and counts those that it
  -- removes; the table stays one with a single session for each id.
  pub cleanup_expired_exact :
      (now : ℕ) (mgr : SessionManager F) (id : String)
      → IsTable mgr
      → (get id (cleanup_expired now mgr).1 ≡ filter_some (live now) (get id mgr))
        × ((cleanup_expired now mgr).0 + len (cleanup_expired now mgr).1 ≡ len mgr)
        × IsTable (cleanup_expired now mgr).1
  unfolding cleanup_expired get len
  cleanup_expired_exact now mgr id t = (
    lookup-retain (live now) id mgr.sessions t,
    omega (
      arith,
      length-retain-le (λ (e : String × SatelliteSession F). ltb now e.1.expires_at) mgr.sessions,
    ),
    retain-Unique (live now) mgr.sessions t,
  )

  -- A created session is found under its id, with the caller, the budget and the times it was
  -- created with; a removed id finds nothing. Neither touches the other ids.
  pub get-create :
      (id sub other : String) (b : TrustBudget F) (expires now : ℕ) (mgr : SessionManager F)
      → (get other (create id sub b expires now mgr) ≡ (
          if str_eq id other
          then some (record {
            session_id = id;
            identity_sub = sub;
            trust_budget = b;
            created_at = now;
            expires_at = expires;
          })
          else get other mgr))
        × (get other (remove_session id mgr).1 ≡ (if str_eq id other then none else get other mgr))
        × ((remove_session id mgr).0 ≡ get id mgr)
  unfolding create get remove_session
  get-create id sub other b expires now mgr =
      (lookup-insert id other _ mgr.sessions, lookup-remove id other mgr.sessions, refl)
