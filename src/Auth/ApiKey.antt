-- ===== src/Auth/ApiKey.antt =====
-- sphere/src/auth/api_key.rs
use intellisphere.Common.{
  String, ◌≡◌, refl, ap, ◌∙◌, Option, none, some, List, [], ◌∷◌, Result, ok_or, str_eq,
  if◌then◌else◌,
}
use intellisphere.Common.Dict.{Dict, lookup, insert, lookup-insert, lookup-nil}
use intellisphere.Config.{ApiKeyEntry}
use intellisphere.Auth.Identity.{Identity}
use intellisphere.Auth.Strategy.{AuthError, unknown_api_key, AuthStrategy}

pub record ApiKeyAuthStrategy : Type 0 where
  pub keys : Dict Identity

abbrev pub identity_of : ApiKeyEntry → Identity
identity_of e = record { sub = e.identity_sub; roles = e.roles; scopes = e.scopes; metadata = [] }

-- The loop of `new`: a later entry replaces an earlier one of the same key.
insert_all : List ApiKeyEntry → Dict Identity → Dict Identity
insert_all [] keys = keys
insert_all (e ∷ es) keys = insert_all es (insert e.key (identity_of e) keys)

unfoldable pub new : List ApiKeyEntry → ApiKeyAuthStrategy
unfolding insert_all
new entries = record { keys = insert_all entries [] }

unfoldable pub authenticate : ApiKeyAuthStrategy → String → Result Identity AuthError
authenticate s token = ok_or (lookup token s.keys) unknown_api_key

abbrev pub strategy : List ApiKeyEntry → AuthStrategy
strategy entries = record { name = "api_key"; authenticate = authenticate (new entries) }

-- The identity of the last entry with the key, if there is one, and else `d`.
abbrev pub last_entry : String → List ApiKeyEntry → Option Identity → Option Identity
last_entry token [] d = d
last_entry token (e ∷ es) d =
    last_entry token es (if str_eq e.key token then some (identity_of e) else d)

lookup-insert_all :
    (token : String) (es : List ApiKeyEntry) (keys : Dict Identity)
    → lookup token (insert_all es keys) ≡ last_entry token es (lookup token keys)
unfolding insert_all
lookup-insert_all token [] keys = refl
lookup-insert_all token (e ∷ es) keys =
    lookup-insert_all token es (insert e.key (identity_of e) keys)
    ∙ ap (last_entry token es) (lookup-insert e.key token (identity_of e) keys)

-- A token is accepted exactly when it is a configured key, and then as the caller of the last
-- entry with that key; any other token is an unknown key.
pub authenticate-new :
    (entries : List ApiKeyEntry) (token : String)
    → authenticate (new entries) token ≡ ok_or (last_entry token entries none) unknown_api_key
unfolding authenticate new
authenticate-new entries token =
    ap (λ o. ok_or o unknown_api_key)
      (lookup-insert_all token entries [] ∙ ap (last_entry token entries) (lookup-nil token))
