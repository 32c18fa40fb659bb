-- ===== src/Auth/Jwt.antt =====
-- sphere/src/auth/jwt.rs. Decoding a token (signature, expiry, issuer and audience) is the crate
-- `jsonwebtoken`'s: a parameter, which is given what the strategy configures.
pub mod Scopes
pub mod Outcome
use intellisphere.Common.{
  String, Bool, true, false, ◌&&◌, ◌||◌, not, str_eq, Option, none, some, List, [], ◌∷◌, ◌++◌,
  Result, ok, err, ◌>>=◌, ok_or, map_err, ltb, leb, ◌==◌, is_empty, if◌then◌else◌,
}
use intellisphere.Common.Text.{◌<>◌, Char, code, contains, mem_str}
use intellisphere.Auth.Identity.{Identity}
use intellisphere.Auth.Strategy.{AuthError, invalid_token, expired_token, AuthStrategy}

pub record Claims : Type 0 where
  pub sub : Option String
  pub roles : List String
  pub scopes : List String
  pub scope : Option String

-- What the validation requires: HS256 with the secret, the spec claims that must be present, and
-- the issuer and the audience where they are configured.
pub record Validation : Type 0 where
  pub secret : String
  pub issuer : Option String
  pub audience : Option String
  pub required_spec_claims : List String

abbrev pub required_if : Option String → String → List String
required_if none claim = []
required_if (some s) claim = claim ∷ []

unfoldable pub new_hs256 : String → Option String → Option String → Validation
new_hs256 secret issuer audience = record {
  secret = secret;
  issuer = issuer;
  audience = audience;
  required_spec_claims = "exp" ∷ (required_if issuer "iss" ++ required_if audience "aud");
}

-- `char::is_whitespace`: the Unicode property White_Space.
is_whitespace : Char → Bool
is_whitespace c =
    let n = code c in
    (leb 9 n && leb n 13)
    || n == 32
    || n == 133
    || n == 160
    || n == 5760
    || (leb 8192 n && leb n 8202)
    || n == 8232
    || n == 8233
    || n == 8239
    || n == 8287
    || n == 12288

-- The word that ends here, unless it is empty, before the rest.
close_word : String → List String → List String
close_word word rest = if str_eq word "" then rest else word ∷ rest

words_from : String → String → List String
unfolding is_whitespace close_word
words_from word String.[] = close_word word []
words_from word (String.◌∷◌ c s) =
    let broken = close_word word (words_from "" s) in
    let longer = words_from (word <> String.◌∷◌ c "") s in
    if is_whitespace c then broken else longer

-- `split_whitespace`
unfoldable pub split_whitespace : String → List String
unfolding words_from
split_whitespace s = words_from "" s

-- The loop over the words of `scope`.
unfoldable pub merge_scopes : List String → List String → List String
merge_scopes scopes [] = scopes
merge_scopes scopes (s ∷ ss) =
    merge_scopes (if not (mem_str s scopes) then scopes ++ s ∷ [] else scopes) ss

all_scopes : Claims → Option String → List String
all_scopes c none = c.scopes
all_scopes c (some scope_str) = merge_scopes c.scopes (split_whitespace scope_str)

decode_error : String → AuthError
decode_error msg = if contains msg "ExpiredSignature" then expired_token else invalid_token msg

module _ (decode : Validation → String → Result Claims String) where
  unfoldable pub authenticate : Validation → String → Result Identity AuthError
  unfolding all_scopes decode_error
  authenticate v token = do
    claims ← map_err decode_error (decode v token)
    sub ← ok_or claims.sub (invalid_token "missing sub claim")
    ok (record {
      sub = sub;
      roles = claims.roles;
      scopes = all_scopes claims claims.scope;
      metadata = [];
    })

  abbrev pub strategy : Validation → AuthStrategy
  strategy v = record { name = "jwt"; authenticate = authenticate v }
