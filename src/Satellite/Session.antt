-- ===== src/Satellite/Session.antt =====
-- sphere/src/satellite/session.rs. A `DateTime<Utc>` is a number on the clock's line; what
-- `Utc::now()` reads is an argument.
pub mod Expiry
use intellisphere.Common.{
  ℕ, ◌-◌, String, Bool, true, false, Option, none, some, List, [], ◌∷◌, length, ltb, retain,
}
use intellisphere.Common.Dict.{Dict, lookup, insert, remove}
use intellisphere.Satellite.TrustBudget.{TrustBudget}

pub record SatelliteSession (F : Type 0) : Type 0 where
  pub session_id : String
  pub identity_sub : String
  pub trust_budget : TrustBudget F
  pub created_at : ℕ
  pub expires_at : ℕ

pub record SessionManager (F : Type 0) : Type 0 where
  pub sessions : Dict (SatelliteSession F)

module _ {F : Type 0} where
  abbrev pub new : SessionManager F
  new = record { sessions = [] }

  unfoldable pub create :
      String → String → TrustBudget F → ℕ → ℕ → SessionManager F → SessionManager F
  create session_id identity_sub trust_budget expires_at now mgr =
      let session : SatelliteSession F = record {
        session_id = session_id;
        identity_sub = identity_sub;
        trust_budget = trust_budget;
        created_at = now;
        expires_at = expires_at;
      } in
      record { sessions = insert session_id session mgr.sessions }

  unfoldable pub get : String → SessionManager F → Option (SatelliteSession F)
  get session_id mgr = lookup session_id mgr.sessions

  -- What a caller of `get_mut` leaves in the place of the session that it got.
  unfoldable pub put : String → SatelliteSession F → SessionManager F → SessionManager F
  put session_id session mgr = record { sessions = insert session_id session mgr.sessions }

  unfoldable pub remove_session :
      String → SessionManager F → Option (SatelliteSession F) × SessionManager F
  remove_session session_id mgr =
      (lookup session_id mgr.sessions, record { sessions = remove session_id mgr.sessions })

  unfoldable pub len : SessionManager F → ℕ
  len mgr = length mgr.sessions

  unfoldable pub cleanup_expired : ℕ → SessionManager F → ℕ × SessionManager F
  cleanup_expired now mgr =
      let kept = retain (λ e. ltb now e.1.expires_at) mgr.sessions in
      (length mgr.sessions - length kept, record { sessions = kept })
