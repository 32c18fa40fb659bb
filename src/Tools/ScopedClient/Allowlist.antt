-- ===== src/Tools/ScopedClient/Allowlist.antt =====
-- Where the client's requests can go.
use intellisphere.Common.{
  ℕ, ◌≤◌, String, ◌≡◌, refl, Bool, true, false, ◌&&◌, List, [], none, some, Result, ok, err, All,
  str_eq, ltb, arith, Bool-cases, inl, inr,
}
use intellisphere.Common.Text.{str_len, mem_str}
use intellisphere.Tools.ScopedClient.{
  Url, Network, ScopedHttpClient, ScopedClientError, HttpRequest, no_redirects, new, validate_url,
  fetch, send, get, post,
}

-- The URL may be requested: it is https, and its host is in the allowlist.
abbrev pub permitted : ScopedHttpClient → Url → Bool
permitted c url = elim url.host_str [
  | none ↦ false
  | some host ↦ str_eq url.scheme "https" && mem_str host c.allowed_domains
]

module _ (net : Network) where
  -- A URL that validates parses, is https, and names a host of the allowlist; every such URL
  -- validates, as itself.
  pub validate_url-permitted :
      (c : ScopedHttpClient) (s : String) (url : Url)
      → (validate_url net c s ≡ ok url → (net.parse s ≡ ok url) × (permitted c url ≡ true))
        × (net.parse s ≡ ok url → permitted c url ≡ true → validate_url net c s ≡ ok url)
  unfolding validate_url
  validate_url-permitted c s url = (λ h. (ground arith, ground arith), λ p q. ground arith)

-- A request of the client: it goes to a URL that may be requested, and the `reqwest` client that
-- sends it follows no redirects.
abbrev pub IsConfined : ScopedHttpClient → HttpRequest → Type 0
IsConfined c r = (permitted c r.url ≡ true) × (r.client.redirect ≡ no_redirects)

module _ (net : Network) where
  fetch-IsConfined :
      (c : ScopedHttpClient) (v : Result Url ScopedClientError)
      → c.client.redirect ≡ no_redirects
      → ((url : Url) → v ≡ ok url → permitted c url ≡ true)
      → All (IsConfined c) (fetch net c v).1
  unfolding fetch
  fetch-IsConfined c (err e) none_followed good = tt
  fetch-IsConfined c (ok url) none_followed good = ((good url refl, none_followed), tt)

  send-IsConfined :
      (c : ScopedHttpClient) (n : ℕ) (body : String) (v : Result Url ScopedClientError)
      → c.client.redirect ≡ no_redirects
      → ((url : Url) → v ≡ ok url → permitted c url ≡ true)
      → All (IsConfined c) (send net c n body v).1
  unfolding send
  send-IsConfined c n body (err e) none_followed good = tt
  send-IsConfined c n body (ok url) none_followed good =
      elim (Bool-cases (ltb c.max_request_body_bytes (str_len body))) [
        | inl long ↦ rw long tt
        | inr short ↦ rw short ((good url refl, none_followed), tt)
      ]

  pub post_limit :
      (c : ScopedHttpClient) (n : ℕ) (s body response : String)
      → (post net c n s body).0 ≡ some (ok response)
      → str_len response ≤ c.max_response_body_bytes
  unfolding post
  post_limit c n s body response h = ground arith

  get_limit :
      (c : ScopedHttpClient) (s response : String)
      → (get net c s).0 ≡ ok response
      → str_len response ≤ c.max_response_body_bytes
  unfolding get
  get_limit c s response h = ground arith

  -- Of a client as the source makes it, on any network and for any URL and body: every request that
  -- it sends is to an https URL on an allowed host, through a `reqwest` client that follows no
  -- redirects; and no response above its limit is returned.
  pub post-IsConfined :
      (domains : List String) (timeout_secs most_sent most_read n : ℕ) (s body : String)
      → let c = new domains timeout_secs most_sent most_read in
        All (IsConfined c) (post net c n s body).1
        × All (IsConfined c) (get net c s).1
        × ((response : String)
            → (post net c n s body).0 ≡ some (ok response)
            → str_len response ≤ most_read)
        × ((response : String) → (get net c s).0 ≡ ok response → str_len response ≤ most_read)
  unfolding post get
  post-IsConfined domains timeout_secs most_sent most_read n s body =
      let c = new domains timeout_secs most_sent most_read in
      let good = λ (url : Url) (h : validate_url net c s ≡ ok url).
        ((validate_url-permitted net c s url).0 h).1 in
      (
        send-IsConfined c n body (validate_url net c s) refl good,
        fetch-IsConfined c (validate_url net c s) refl good,
        post_limit c n s body,
        get_limit c s,
      )

  -- With an empty allowlist the network is never asked, so that what it would answer is no matter.
  pub post-closed :
      (net' : Network) (c : ScopedHttpClient) (n : ℕ) (s body : String)
      → c.allowed_domains ≡ []
      → net.parse ≡ net'.parse
      → post net c n s body ≡ post net' c n s body
  unfolding post validate_url
  post-closed net' c n s body none_allowed same = rw (none_allowed, same) (ground arith)
