-- ===== src/Tools/ScopedClient.antt =====
-- sphere/src/tools/scoped_client.rs. The crates `url` and `reqwest` are a parameter: how a URL
-- parses, and what the network answers to a request.
pub mod Allowlist
use intellisphere.Common.{
  ℕ, String, Bool, true, false, not, Option, none, some, List, [], ◌∷◌, Result, ok, err, ◌>>=◌,
  ◌>>◌, ok_or, map_err, ltb, str_eq, if◌then◌else◌,
}
use intellisphere.Common.Text.{◌<>◌, show_nat, str_len, mem_str}

pub record Url : Type 0 where
  pub scheme : String
  pub host_str : Option String
  pub href : String

-- What the source tells the builder of `reqwest::Client`: `limited 10` is the crate's default for
-- redirects, which `Policy::none()` replaces.
pub data RedirectPolicy : Type 0 where
  no_redirects : RedirectPolicy
  limited : ℕ → RedirectPolicy

pub record HttpClient : Type 0 where
  pub timeout_secs : ℕ
  pub redirect : RedirectPolicy

-- A request that is sent; a POST has a body.
pub record HttpRequest : Type 0 where
  pub client : HttpClient
  pub url : Url
  pub body : Option String

-- A reply is the response's text, the text of an error, or `none` where none comes within the
-- milliseconds that the caller of `post` waits.
pub record Network : Type 0 where
  pub parse : String → Result Url String
  pub get : HttpClient → Url → Result String String
  pub post : HttpClient → ℕ → Url → String → Option (Result String String)

pub record ScopedHttpClient : Type 0 where
  pub client : HttpClient
  pub allowed_domains : List String
  pub max_request_body_bytes : ℕ
  pub max_response_body_bytes : ℕ

abbrev pub new : List String → ℕ → ℕ → ℕ → ScopedHttpClient
new allowed_domains timeout_secs max_request_body_bytes max_response_body_bytes = record {
  client = record { timeout_secs = timeout_secs; redirect = no_redirects };
  allowed_domains = allowed_domains;
  max_request_body_bytes = max_request_body_bytes;
  max_response_body_bytes = max_response_body_bytes;
}

pub data ScopedClientError : Type 0 where
  domain_not_allowed insecure_url request_failed invalid_url : String → ScopedClientError
  response_too_large : ℕ → ScopedClientError

unfoldable pub client_error_text : ScopedClientError → String
client_error_text (domain_not_allowed d) = "Domain '" <> d <> "' is not in the allowlist"
client_error_text (insecure_url u) = "Only HTTPS URLs are allowed, got: " <> u
client_error_text (response_too_large n) =
    "Response body exceeds maximum size of " <> show_nat n <> " bytes"
client_error_text (request_failed e) = "HTTP request failed: " <> e
client_error_text (invalid_url e) = "Invalid URL: " <> e

module _ (net : Network) where
  check_host : ScopedHttpClient → Url → Result Url ScopedClientError
  check_host c url = do
    domain ← ok_or url.host_str (invalid_url "No host in URL")
    if not (mem_str domain c.allowed_domains) then err (domain_not_allowed domain) else ok url

  unfoldable pub validate_url : ScopedHttpClient → String → Result Url ScopedClientError
  unfolding check_host
  validate_url c url_str = do
    url ← map_err invalid_url (net.parse url_str)
    if not (str_eq url.scheme "https") then err (insecure_url url_str) else check_host c url

  bounded : ScopedHttpClient → String → Result String ScopedClientError
  bounded c body =
      if ltb c.max_response_body_bytes (str_len body)
      then err (response_too_large c.max_response_body_bytes)
      else ok body

  fetch :
      ScopedHttpClient
      → Result Url ScopedClientError
      → Result String ScopedClientError × List HttpRequest
  unfolding bounded
  fetch c (err e) = (err e, [])
  fetch c (ok validated) = (
    map_err request_failed (net.get c.client validated) >>= bounded c,
    record { client = c.client; url = validated; body = none } ∷ [],
  )

  -- The result, beside the requests that were sent for it.
  unfoldable pub get :
      ScopedHttpClient → String → Result String ScopedClientError × List HttpRequest
  unfolding fetch
  get c url = fetch c (validate_url c url)

  -- `none` where the reply does not come in time.
  reply_of :
      ScopedHttpClient → Option (Result String String) → Option (Result String ScopedClientError)
  unfolding bounded
  reply_of c none = none
  reply_of c (some r) = some (map_err request_failed r >>= bounded c)

  send :
      ScopedHttpClient
      → ℕ
      → String
      → Result Url ScopedClientError
      → Option (Result String ScopedClientError) × List HttpRequest
  unfolding reply_of
  send c timeout_ms body (err e) = (some (err e), [])
  send c timeout_ms body (ok validated) =
      if ltb c.max_request_body_bytes (str_len body)
      then (some (err (response_too_large c.max_request_body_bytes)), [])
      else (
        reply_of c (net.post c.client timeout_ms validated body),
        record { client = c.client; url = validated; body = some body } ∷ [],
      )

  unfoldable pub post :
      ScopedHttpClient
      → ℕ
      → String
      → String
      → Option (Result String ScopedClientError) × List HttpRequest
  unfolding send
  post c timeout_ms url body = send c timeout_ms body (validate_url c url)
