-- ===== src/Satellite/Ws/Lifecycle/Stores.antt =====
-- What it is for a state to store sessions that are a function, and that the table's operations keep it.
use intellisphere.Common.{ℕ, String, ◌≡◌, ap, ◌∙◌, Option, none, some, str_eq, if◌then◌else◌}
use intellisphere.Common.Dict.{insert-Unique, remove-Unique, filter_some, lookup-remove}
use intellisphere.Satellite.Session.{SatelliteSession, get, put, remove_session}
use intellisphere.Satellite.Session.Expiry.{IsTable, live, cleanup_expired_exact}
use intellisphere.Satellite.Ws.{SatelliteState}
use intellisphere.Satellite.Ws.Doomed.{get-put}
use intellisphere.Satellite.Ws.Lifecycle.{cleaned, without}
use intellisphere.Satellite.Ws.Lifecycle.Spec.{Sessions, bind}

abbrev pub taken_out :
    {F : Type 0} → String → Option (SatelliteState F) → Option (SatelliteSession F)
taken_out sid none = none
taken_out sid (some state) = (remove_session sid state.session_manager).0

-- The state stores the sessions, one entry for each identifier, under the secret.
pub record Stores {F : Type 0} (secret : String) (state : SatelliteState F) (sessions : Sessions F)
    : Type 0 where
  pub kept : state.server_secret ≡ secret
  pub table : IsTable state.session_manager
  pub at : (sid : String) → get sid state.session_manager ≡ sessions sid

abbrev pub Holds : {F : Type 0} → String → Option (SatelliteState F) → Sessions F → Type 0
Holds secret none sessions = ⊥
Holds secret (some state) sessions = Stores secret state sessions

pub put-Stores :
    {F : Type 0} (secret sid : String) (s : SatelliteSession F) (state : SatelliteState F)
    (sessions : Sessions F)
    → Stores secret state sessions
    → Stores secret
        (record state { session_manager = put sid s state.session_manager })
        (bind sid (some s) sessions)
unfolding put
put-Stores secret sid s state sessions o = record {
  kept = o.kept;
  table = insert-Unique sid s state.session_manager.sessions o.table;
  at = λ j.
      get-put sid j s state.session_manager ∙ ap (λ x. if str_eq sid j then some s else x) (o.at j);
}

pub cleaned-Holds :
    {F : Type 0} (secret : String) (now : ℕ) (state : Option (SatelliteState F))
    (sessions : Sessions F)
    → Holds secret state sessions
    → Holds secret (cleaned now state) (λ sid. filter_some (live now) (sessions sid))
unfolding cleaned
cleaned-Holds secret now none sessions o = o
cleaned-Holds secret now (some state) sessions o = record {
  kept = o.kept;
  table = (cleanup_expired_exact now state.session_manager "" o.table).2;
  at = λ sid.
      (cleanup_expired_exact now state.session_manager sid o.table).0
      ∙ ap (filter_some (live now)) (o.at sid);
}

pub without-Holds :
    {F : Type 0} (secret sid : String) (state : Option (SatelliteState F)) (sessions : Sessions F)
    → Holds secret state sessions
    → (taken_out sid state ≡ sessions sid)
      × Holds secret (without sid state) (bind sid none sessions)
unfolding without remove_session get
without-Holds secret sid none sessions o = absurd o
without-Holds secret sid (some state) sessions o = (
  o.at sid,
  record {
    kept = o.kept;
    table = remove-Unique sid state.session_manager.sessions o.table;
    at = λ j.
        lookup-remove sid j state.session_manager.sessions
        ∙ ap (λ x. if str_eq sid j then none else x) (o.at j);
  },
)
