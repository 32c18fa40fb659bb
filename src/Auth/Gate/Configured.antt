-- ===== src/Auth/Gate/Configured.antt =====
-- Whom the gate of a configuration lets in, by the credentials that the configuration names.
use intellisphere.Common.{
  String, ◌≡◌, refl, sym, ap, subst, ◌∙◌, ◌⊎◌, ok_or, inl, inr, Bool, true, false, ◌||◌, Option,
  none, some, List, [], ◌∷◌, map, Result, ok, err, Result-cases, if◌then◌else◌,
}
use intellisphere.Common.Text.{mem_str}
use intellisphere.Errors.{SphereError}
use intellisphere.Config.{AuthStrategyConfig, jwt, api_key, AuthConfig}
use intellisphere.Auth.Identity.{Identity, anonymous}
use intellisphere.Auth.Strategy.{AuthError, AuthStrategy, unknown_api_key}
use intellisphere.Auth.ApiKey.{last_entry, authenticate-new}
use intellisphere.Auth.Jwt
use intellisphere.Auth.Jwt.{Claims, Validation, new_hs256}
use intellisphere.Auth.Jwt.Outcome.{spelled, Accepted, authenticate-Judged}
use intellisphere.Auth.Gate.{strategy_of, from_config, token_of, authenticate}
use intellisphere.Auth.Gate.Trials.{first_accepting, first_for, success, authenticate-success}

some_inj : {A : Type 0} {a b : A} → some a ≡ some b → a ≡ b
some_inj h = cc

ok_inj : {E A : Type 0} {a b : A} → ◌≡◌ {A = Result A E} (ok a) (ok b) → a ≡ b
ok_inj h = cc

first-ok :
    (s : AuthStrategy) (ss : List AuthStrategy) (token : String) {i : Identity}
    → s.authenticate token ≡ ok i
    → first_accepting (s ∷ ss) token ≡ some i
first-ok s ss token h = rw (h, first_accepting)

first-err :
    (s : AuthStrategy) (ss : List AuthStrategy) (token : String) {e : AuthError}
    → s.authenticate token ≡ err e
    → first_accepting (s ∷ ss) token ≡ first_accepting ss token
first-err s ss token h = rw (h, first_accepting)

module _ (decode : Validation → String → Result Claims String) where
  -- A configured strategy names this caller for this token: the token is a key, and the last entry
  -- with that key is the caller's; or it decodes under the strategy's secret, issuer and audience
  -- to claims with the caller's subject, roles and scopes.
  abbrev pub Names : AuthStrategyConfig → String → Identity → Type 0
  Names (api_key entries) token who = last_entry token entries none ≡ some who
  Names (jwt secret issuer audience) token who =
      (c : Claims) × (decode (new_hs256 secret issuer audience) token ≡ ok c)
      × (c.sub ≡ some who.sub)
      × (who.roles ≡ c.roles)
      × ((x : String) → mem_str x who.scopes ≡ (mem_str x c.scopes || spelled x c.scope))

  abbrev pub SomeNames : List AuthStrategyConfig → String → Identity → Type 0
  SomeNames [] token who = ⊥
  SomeNames (s ∷ ss) token who = Names s token who ⊎ SomeNames ss token who

  key-Names :
      (o : Option Identity) (who : Identity) → ok_or o unknown_api_key ≡ ok who → o ≡ some who
  key-Names none who h = cc
  key-Names (some i) who h = cc

  Accepted-Names :
      (c : Claims) (sub : Option String) (result : Result Identity AuthError) (who : Identity)
      → Accepted c sub result
      → result ≡ ok who
      → (sub ≡ some who.sub)
        × (who.roles ≡ c.roles)
        × ((x : String) → mem_str x who.scopes ≡ (mem_str x c.scopes || spelled x c.scope))
  Accepted-Names c none result who a h = cc
  Accepted-Names c (some s) result who (i, is_i, same_sub, roles, scopes) h =
      let same : i ≡ who = ok_inj (sym is_i ∙ h) in
      subst
        (λ w.
          (some s ≡ some w.sub)
          × (w.roles ≡ c.roles)
          × ((x : String) → mem_str x w.scopes ≡ (mem_str x c.scopes || spelled x c.scope)))
        same (ap some (sym same_sub), roles, scopes)

  strategy-Names :
      (s : AuthStrategyConfig) (token : String) (who : Identity)
      → (strategy_of decode s).authenticate token ≡ ok who
      → Names s token who
  unfolding strategy_of
  strategy-Names (api_key entries) token who h =
      key-Names (last_entry token entries none) who (sym (authenticate-new entries token) ∙ h)
  strategy-Names (jwt secret issuer audience) token who h =
      let v = new_hs256 secret issuer audience in
      elim (Result-cases (decode v token)) [
        | inl (c, decoded) ↦
            let judged = rw decoded at (authenticate-Judged decode v token) in
            let (sub, roles, scopes) = Accepted-Names c c.sub _ who judged h in
            (c, decoded, sub, roles, scopes)
        | inr (e, failed) ↦ absurd (cc (rw failed at (authenticate-Judged decode v token), h))
      ]

  first-SomeNames :
      (ss : List AuthStrategyConfig) (token : String) (who : Identity)
      → first_accepting (map (strategy_of decode) ss) token ≡ some who
      → SomeNames ss token who
  first-SomeNames [] token who h = cc
  first-SomeNames (s ∷ ss) token who h =
      elim (Result-cases ((strategy_of decode s).authenticate token)) [
        | inl (i, accepted) ↦ inl (
            strategy-Names s token who (
              accepted
              ∙ ap ok (
                  some_inj (
                    sym
                      (first-ok (strategy_of decode s) (map (strategy_of decode) ss) token accepted)
                    ∙ h))))
        | inr (e, refused) ↦ inr (
            first-SomeNames ss token who (
              sym (first-err (strategy_of decode s) (map (strategy_of decode) ss) token refused)
              ∙ h))
      ]

  Names-accepted :
      (s : AuthStrategyConfig) (token : String) (who : Identity)
      → Names s token who
      → (i : Identity) × ((strategy_of decode s).authenticate token ≡ ok i)
  unfolding strategy_of Jwt.authenticate
  Names-accepted (api_key entries) token who h = (who, authenticate-new entries token ∙ rw h)
  Names-accepted (jwt secret issuer audience) token who (c, decoded, sub, roles, scopes) =
      rw (decoded, sub) (_, refl)

  SomeNames-first :
      (ss : List AuthStrategyConfig) (token : String) (who : Identity)
      → SomeNames ss token who
      → (i : Identity) × (first_accepting (map (strategy_of decode) ss) token ≡ some i)
  SomeNames-first [] token who h = absurd h
  SomeNames-first (s ∷ ss) token who (inl h) =
      let (i, accepted) = Names-accepted s token who h in
      (i, first-ok (strategy_of decode s) (map (strategy_of decode) ss) token accepted)
  SomeNames-first (s ∷ ss) token who (inr h) =
      let (j, later) = SomeNames-first ss token who h in
      elim (Result-cases ((strategy_of decode s).authenticate token)) [
        | inl (i, accepted) ↦
            (i, first-ok (strategy_of decode s) (map (strategy_of decode) ss) token accepted)
        | inr (e, refused) ↦ (
          j,
          first-err (strategy_of decode s) (map (strategy_of decode) ss) token refused ∙ later,
        )
      ]

  -- The caller is anonymous where authentication is disabled, and else has a token for which a
  -- configured strategy names it.
  abbrev pub Entitled : Bool → List AuthStrategyConfig → Option String → Identity → Type 0
  Entitled false ss token who = who ≡ anonymous
  Entitled true ss none who = ⊥
  Entitled true ss (some token) who = SomeNames ss token who

  success-ok :
      (r : Result Identity SphereError) (who : Identity) → r ≡ ok who → success r ≡ some who
  success-ok r who h = rw h

  ok-success :
      (r : Result Identity SphereError) (who : Identity) → success r ≡ some who → r ≡ ok who
  ok-success (ok i) who h = cc
  ok-success (err e) who h = cc

  choice-Entitled :
      (enabled : Bool) (ss : List AuthStrategyConfig) (token : Option String) (who : Identity)
      → (if enabled then first_for (map (strategy_of decode) ss) token else some anonymous)
        ≡ some who
      → Entitled enabled ss token who
  choice-Entitled false ss token who h = cc
  choice-Entitled true ss none who h = cc
  choice-Entitled true ss (some token) who h = first-SomeNames ss token who h

  Entitled-choice :
      (enabled : Bool) (ss : List AuthStrategyConfig) (token : Option String) (who : Identity)
      → Entitled enabled ss token who
      → (i : Identity) × ((if enabled
            then first_for (map (strategy_of decode) ss) token
            else some anonymous)
          ≡ some i)
  Entitled-choice false ss token who h = (anonymous, refl)
  Entitled-choice true ss none who h = absurd h
  Entitled-choice true ss (some token) who h = SomeNames-first ss token who h

  -- Nobody is let in without a credential of the configuration: whom the gate lets in is anonymous,
  -- with authentication disabled, or presents a token for which a configured strategy names that
  -- very caller, by the last entry of an API key or by the claims of a JWT.
  pub authenticate-Entitled :
      (config : AuthConfig) (authorization api_key_header : Option String) (who : Identity)
      → authenticate (from_config decode config) authorization api_key_header ≡ ok who
      → Entitled config.enabled config.strategies (token_of authorization api_key_header) who
  unfolding from_config
  authenticate-Entitled config authorization api_key_header who h =
      choice-Entitled config.enabled config.strategies (token_of authorization api_key_header) who (
        sym (authenticate-success (from_config decode config) authorization api_key_header)
        ∙ success-ok _ who h)

  -- Whoever presents a token for which a configured strategy names somebody is let in.
  pub Entitled-authenticate :
      (config : AuthConfig) (authorization api_key_header : Option String) (who : Identity)
      → Entitled config.enabled config.strategies (token_of authorization api_key_header) who
      → (i : Identity) × (authenticate (from_config decode config) authorization api_key_header
          ≡ ok i)
  unfolding from_config
  Entitled-authenticate config authorization api_key_header who h =
      let (i, chosen) =
        Entitled-choice config.enabled config.strategies (token_of authorization api_key_header) who
          h in
      (
        i,
        ok-success _ i (
            authenticate-success (from_config decode config) authorization api_key_header ∙ chosen),
      )
