-- ===== src/Auth/Gate/Trials.antt =====
-- Whom the gate lets in.
use intellisphere.Common.{
  String, ◌≡◌, refl, Bool, true, false, not, Option, none, some, List, [], ◌∷◌, Result, ok, err,
  ◌∙◌, ok_or, ◌>>=◌, if◌then◌else◌,
}
use intellisphere.Errors.{SphereError, auth_error}
use intellisphere.Auth.Identity.{Identity, anonymous}
use intellisphere.Auth.Strategy.{AuthError, missing_token, AuthStrategy}
use intellisphere.Auth.Gate.{IngressGate, token_of, try_each, all_failed, authenticate}

-- The identity of the first strategy that accepts the token.
abbrev pub first_accepting : List AuthStrategy → String → Option Identity
first_accepting [] token = none
first_accepting (s ∷ ss) token = elim (s.authenticate token) [
  | ok identity ↦ some identity
  | err e ↦ first_accepting ss token
]

abbrev pub success : {E : Type 0} → Result Identity E → Option Identity
success (ok identity) = some identity
success (err e) = none

trial_success :
    (r : Result Identity AuthError) (k : AuthError → Result Identity AuthError)
    (o : Option Identity)
    → ((e : AuthError) → success (k e) ≡ o)
    → success (elim r [ ok identity ↦ ok identity | err e ↦ k e ])
      ≡ elim r [ ok identity ↦ some identity | err e ↦ o ]
trial_success (ok identity) k o h = refl
trial_success (err e) k o h = h e

try_each-first :
    (ss : List AuthStrategy) (token : String) (e : AuthError)
    → success (try_each ss token e) ≡ first_accepting ss token
unfolding try_each
try_each-first [] token e = refl
try_each-first (s ∷ ss) token e =
    trial_success (s.authenticate token) (try_each ss token) (first_accepting ss token)
      (try_each-first ss token)

abbrev pub first_for : List AuthStrategy → Option String → Option Identity
first_for ss none = none
first_for ss (some token) = first_accepting ss token

success-all_failed : (r : Result Identity AuthError) → success (all_failed r) ≡ success r
unfolding all_failed
success-all_failed (ok identity) = refl
success-all_failed (err e) = refl

enabled_success :
    (ss : List AuthStrategy) (token : Option String) (e : SphereError)
    → success (do t ← ok_or token e; all_failed (try_each ss t missing_token)) ≡ first_for ss token
enabled_success ss none e = refl
enabled_success ss (some t) e =
    success-all_failed (try_each ss t missing_token) ∙ try_each-first ss t missing_token

choice_success :
    (enabled : Bool) (r : Result Identity SphereError) (o : Option Identity)
    → success r ≡ o
    → success (if not enabled then ok anonymous else r) ≡ (if enabled then o else some anonymous)
choice_success true r o h = h
choice_success false r o h = refl

-- With authentication disabled every request is anonymous. Enabled, a request is let in exactly
-- when it has a token that some strategy accepts, as the identity of the first that does.
pub authenticate-success :
    (gate : IngressGate) (authorization api_key : Option String)
    → success (authenticate gate authorization api_key) ≡ (
        if gate.enabled
        then first_for gate.strategies (token_of authorization api_key)
        else some anonymous)
unfolding authenticate
authenticate-success gate authorization api_key = choice_success gate.enabled _ _ (
    enabled_success gate.strategies (token_of authorization api_key)
      (auth_error "missing Authorization or X-API-Key header"))
