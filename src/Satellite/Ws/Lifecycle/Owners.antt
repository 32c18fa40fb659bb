-- ===== src/Satellite/Ws/Lifecycle/Owners.antt =====
-- Whose the sessions of the table are.
use intellisphere.Common.{
  ℕ, String, ◌≡◌, refl, sym, ap, ◌∙◌, inl, inr, Option, none, some, ok, List, ◌∷◌, str_eq,
  str_eq_iff, unwrap_or, Bool-cases, Bool, arith, subst,
}
use intellisphere.Common.Float.{Float}
use intellisphere.Auth.Identity.{Identity}
use intellisphere.Auth.Gate.{IngressGate, authenticate}
use intellisphere.Satellite.TrustBudget
use intellisphere.Satellite.TrustBudget.Monotone.{Worn, Worn-trans}
use intellisphere.Common.Dict.{insert-Unique, remove-Unique, filter_some, lookup-nil, lookup-remove}
use intellisphere.Satellite.Session.{
  SatelliteSession, SessionManager, new, get, put, remove_session,
}
use intellisphere.Satellite.Session.Expiry.{IsTable, cleanup_expired_exact}
use intellisphere.Satellite.Adjudicator.Wear.{Charged}
use intellisphere.Satellite.Ws.{SatelliteState, CreateSessionRequest}
use intellisphere.Satellite.Ws.Lifecycle.{Event, creation, Happened, cleaned, without}
use intellisphere.Satellite.Ws.Doomed.{get-put}

some_inj : {A : Type 0} {a b : A} → some a ≡ some b → a ≡ b
some_inj h = cc

filter_some-some :
    {A : Type 0} (p : A → Bool) (o : Option A) {a : A} → filter_some p o ≡ some a → o ≡ some a
filter_some-some p none h = cc
filter_some-some p (some b) h = ground arith

get-removed :
    {F : Type 0} (sid id : String) (mgr : SessionManager F) {s : SatelliteSession F}
    → get id (remove_session sid mgr).1 ≡ some s
    → get id mgr ≡ some s
unfolding get remove_session
get-removed sid id mgr h = ground (arith, lookup-remove sid id mgr.sessions)

module _ {F : Type 0} ⦃fl : Float F⦄ (plus : ℕ → ℕ → Option ℕ) (gate : IngressGate)
    (events : List (Event F)) where
  -- One of the events created the session, for a caller whom the gate let in on the headers of that
  -- request; it expires when the request asked for, an hour after it by default, and its budget is
  -- what is left of the one that the request asked for, 100 by default.
  pub record Granted (sid : String) (s : SatelliteSession F) : Type 0 where
    pub authorization : Option String
    pub api_key : Option String
    pub identity : Identity
    pub body : CreateSessionRequest F
    pub created : ℕ
    pub made : Happened (creation authorization api_key body sid created) events
    pub session_id : s.session_id ≡ sid
    pub admitted : authenticate gate authorization api_key ≡ ok identity
    pub caller : s.identity_sub ≡ identity.sub
    pub dated : plus created (unwrap_or body.duration_secs 3600) ≡ some s.expires_at
    pub worn :
        Worn (TrustBudget.new (unwrap_or body.trust_budget (fl.nat 100)) (fl.nat 1)) s.trust_budget

  -- Every id has one session, every session is granted, and the secret is the server's.
  pub record IsOwned (secret : String) (state : SatelliteState F) : Type 0 where
    pub kept : state.server_secret ≡ secret
    pub table : IsTable state.session_manager
    pub granted :
        (sid : String) (s : SatelliteSession F)
        → get sid state.session_manager ≡ some s
        → Granted sid s

  abbrev pub Owned : String → Option (SatelliteState F) → Type 0
  Owned secret none = Unit {0}
  Owned secret (some state) = IsOwned secret state

  pub new-IsOwned :
      (secret : String) → IsOwned secret (record { session_manager = new; server_secret = secret })
  unfolding get
  new-IsOwned secret = record {
    kept = refl;
    table = tt;
    granted = λ sid s found. absurd (cc (lookup-nil {V = SatelliteSession F} sid, found));
  }

  pub put-IsOwned :
      (secret sid : String) (s : SatelliteSession F) (state : SatelliteState F)
      → Granted sid s
      → IsOwned secret state
      → IsOwned secret (record state { session_manager = put sid s state.session_manager })
  unfolding put
  put-IsOwned secret sid s state g o = record {
    kept = o.kept;
    table = insert-Unique sid s state.session_manager.sessions o.table;
    granted = λ id t found. elim (Bool-cases (str_eq sid id)) [
      | inl same ↦
          let is_s : some t ≡ some s =
            sym found ∙ (get-put sid id s state.session_manager ∙ rw same) in
          subst (λ r. Granted id r) (sym (some_inj is_s))
            (subst (λ j. Granted j s) ((str_eq_iff sid id).0 same) g)
      | inr other ↦ o.granted id t (sym (get-put sid id s state.session_manager ∙ rw other) ∙ found)
    ];
  }

  pub cleaned-Owned :
      (secret : String) (now : ℕ) (state : Option (SatelliteState F))
      → Owned secret state
      → Owned secret (cleaned now state)
  unfolding cleaned
  cleaned-Owned secret now none o = tt
  cleaned-Owned secret now (some state) o = record {
    kept = o.kept;
    table = (cleanup_expired_exact now state.session_manager "" o.table).2;
    granted = λ id t found. o.granted id t (
        filter_some-some _ _
          (sym (cleanup_expired_exact now state.session_manager id o.table).0 ∙ found));
  }

  pub without-Owned :
      (secret sid : String) (state : Option (SatelliteState F))
      → Owned secret state
      → Owned secret (without sid state)
  unfolding without remove_session
  without-Owned secret sid none o = tt
  without-Owned secret sid (some state) o = record {
    kept = o.kept;
    table = remove-Unique sid state.session_manager.sessions o.table;
    granted = λ id t found. o.granted id t (get-removed sid id state.session_manager found);
  }

  pub charged-Granted :
      (sid : String) (s t : SatelliteSession F) → Charged s t → Granted sid s → Granted sid t
  charged-Granted sid s t c g = record {
    authorization = g.authorization;
    api_key = g.api_key;
    identity = g.identity;
    body = g.body;
    created = g.created;
    made = g.made;
    admitted = g.admitted;
    session_id = c.session_id ∙ g.session_id;
    caller = c.identity_sub ∙ g.caller;
    dated = g.dated ∙ ap some (sym c.expires_at);
    worn = Worn-trans g.worn c.worn;
  }

-- One more event leaves a session what it was.
pub Granted-later :
    {F : Type 0} ⦃fl : Float F⦄ (plus : ℕ → ℕ → Option ℕ) (gate : IngressGate)
    (events : List (Event F)) (e : Event F) (sid : String) (s : SatelliteSession F)
    → Granted plus gate events sid s
    → Granted plus gate (e ∷ events) sid s
Granted-later plus gate events e sid s g = record {
  authorization = g.authorization;
  api_key = g.api_key;
  identity = g.identity;
  body = g.body;
  created = g.created;
  made = inr g.made;
  session_id = g.session_id;
  admitted = g.admitted;
  caller = g.caller;
  dated = g.dated;
  worn = g.worn;
}

pub Owned-later :
    {F : Type 0} ⦃fl : Float F⦄ (plus : ℕ → ℕ → Option ℕ) (gate : IngressGate)
    (events : List (Event F)) (e : Event F) (secret : String) (state : Option (SatelliteState F))
    → Owned plus gate events secret state
    → Owned plus gate (e ∷ events) secret state
Owned-later plus gate events e secret none o = tt
Owned-later plus gate events e secret (some state) o = record {
  kept = o.kept;
  table = o.table;
  granted = λ sid s found. Granted-later plus gate events e sid s (o.granted sid s found);
}
