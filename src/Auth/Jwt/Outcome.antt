-- ===== src/Auth/Jwt/Outcome.antt =====
-- Whom the JWT strategy accepts, and as whom.
use intellisphere.Common.{
  String, ◌≡◌, refl, Bool, false, ◌||◌, Option, none, some, [], Result, ok, err, arith, ok_or,
  ◌>>=◌, Result-cases, inl, inr, if◌then◌else◌,
}
use intellisphere.Common.Text.{contains, mem_str}
use intellisphere.Auth.Identity.{Identity}
use intellisphere.Auth.Strategy.{AuthError, invalid_token, expired_token}
use intellisphere.Auth.Jwt.{
  Claims, Validation, split_whitespace, all_scopes, decode_error, authenticate,
}
use intellisphere.Auth.Jwt.Scopes.{mem_str-merge_scopes}

-- A scope that the words of the claim `scope` hold.
abbrev pub spelled : String → Option String → Bool
spelled x none = false
spelled x (some scope) = mem_str x (split_whitespace scope)

mem_str-all_scopes :
    (x : String) (c : Claims) (scope : Option String)
    → mem_str x (all_scopes c scope) ≡ (mem_str x c.scopes || spelled x scope)
unfolding all_scopes
mem_str-all_scopes x c none = ground arith
mem_str-all_scopes x c (some scope) = mem_str-merge_scopes x c.scopes (split_whitespace scope)

-- What becomes of claims with this subject.
abbrev pub Accepted : Claims → Option String → Result Identity AuthError → Type 0
Accepted c none result = result ≡ err (invalid_token "missing sub claim")
Accepted c (some sub) result =
    (who : Identity) × (result ≡ ok who)
    × (who.sub ≡ sub)
    × (who.roles ≡ c.roles)
    × ((x : String) → mem_str x who.scopes ≡ (mem_str x c.scopes || spelled x c.scope))

-- What becomes of a token, by its decoding.
abbrev pub Judged : Result Claims String → Result Identity AuthError → Type 0
Judged (err e) result =
    result ≡ err (if contains e "ExpiredSignature" then expired_token else invalid_token e)
Judged (ok c) result = Accepted c c.sub result

sub-Accepted :
    (c : Claims) (sub : Option String)
    → Accepted c sub (
        ok_or sub (invalid_token "missing sub claim") >>= λ s.
        ok (record { sub = s; roles = c.roles; scopes = all_scopes c c.scope; metadata = [] }))
sub-Accepted c none = refl
sub-Accepted c (some s) = (_, refl, refl, refl, λ x. mem_str-all_scopes x c c.scope)

-- The JWT strategy accepts a token exactly when it decodes and has a subject. The caller it accepts
-- is that subject with the roles of the claims, and holds exactly the scopes that the claim
-- `scopes` lists or the words of the claim `scope` name. A token that does not decode is expired
-- where the decoder's error says so, and is invalid otherwise.
pub authenticate-Judged :
    (decode : Validation → String → Result Claims String) (v : Validation) (token : String)
    → Judged (decode v token) (authenticate decode v token)
unfolding authenticate decode_error
authenticate-Judged decode v token = elim (Result-cases (decode v token)) [
  | inr (e, failed) ↦ rw failed refl
  | inl (c, decoded) ↦ rw decoded (sub-Accepted c c.sub)
]
