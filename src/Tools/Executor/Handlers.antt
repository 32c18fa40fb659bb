-- ===== src/Tools/Executor/Handlers.antt =====
-- What the executor makes of a handler's response.
use intellisphere.Common.{
  ℕ, ◌≤◌, String, ◌≡◌, refl, Bool-cases, inl, inr, Result, err, false, Option, none, some, [], ok,
  str_eq,
}
use intellisphere.Common.Text.{str_len}
use intellisphere.Proto.{ToolCall}
use intellisphere.Tools.Registry.{ToolRegistration, ToolZone, sphere, satellite, wasm}
use intellisphere.Tools.Json.{JsonLib}
use intellisphere.Tools.ScopedClient.{Network, ScopedClientError, post}
use intellisphere.Tools.ScopedClient.Allowlist.{post_limit, post-closed}
use intellisphere.Tools.Executor.{
  ToolExecutor, execute, execute_in, execute_sphere_tool, call_handler, answer, execute_echo,
}

-- A tool of the Sphere, other than the echo, whose handler answers the call with a response.
pub record Responds (net : Network) (exec : ToolExecutor) (tc : ToolCall) (reg : ToolRegistration)
    (response : String) : Type 0 where
  pub zone : reg.zone ≡ sphere
  pub handler : str_eq tc.name "intellisphere_echo" ≡ false
  pub url : String
  pub handler_url : reg.handler_url ≡ some url
  pub answered :
      (post net exec.scoped_client reg.timeout_ms url tc.arguments_json).0 ≡ some (ok response)

pub execute-Responds :
    {Val : Type 0} (json : JsonLib Val) (net : Network) (timestamp : String) (exec : ToolExecutor)
    (tc : ToolCall) (reg : ToolRegistration) (response : String)
    → Responds net exec tc reg response
    → execute json net timestamp exec tc reg
      ≡ record { call_id = tc.call_id; result_json = response; is_error = false }
unfolding execute execute_in execute_sphere_tool call_handler answer
execute-Responds json net timestamp exec tc reg response r =
    rw (r.zone, r.handler, r.handler_url, r.answered) refl

module _ {Val : Type 0} (json : JsonLib Val) (net net' : Network) (timestamp : String)
    (exec : ToolExecutor) (closed : exec.scoped_client.allowed_domains ≡ [])
    (same : net.parse ≡ net'.parse) where
  execute_in-closed :
      (zone : ToolZone) (tc : ToolCall) (reg : ToolRegistration) (url : Option String)
      → reg.handler_url ≡ url
      → execute_in json net timestamp zone exec tc reg
        ≡ execute_in json net' timestamp zone exec tc reg
  unfolding execute_in execute_sphere_tool call_handler execute_echo
  execute_in-closed satellite tc reg url e = refl
  execute_in-closed wasm tc reg url e = refl
  execute_in-closed sphere tc reg none e = rw e refl
  execute_in-closed sphere tc reg (some url) e =
      rw
        (
          e,
          post-closed net net' exec.scoped_client reg.timeout_ms url tc.arguments_json closed same,
        )
        refl

  -- With an empty allowlist the executor does the same on every network.
  pub execute-closed :
      (tc : ToolCall) (reg : ToolRegistration)
      → execute json net timestamp exec tc reg ≡ execute json net' timestamp exec tc reg
  unfolding execute
  execute-closed tc reg = execute_in-closed reg.zone tc reg reg.handler_url refl

-- A result is an error's text, the echo's text or a handler's response within the client's limit.
module _ {Val : Type 0} (json : JsonLib Val) (net : Network) (timestamp : String)
    (exec : ToolExecutor) (P : String → Type 0)
    (of_error : (code message : String) → P (json.error_body code message))
    (of_echo : (message : String) → P (json.echo_body message timestamp))
    (of_response : (response : String)
      → str_len response ≤ exec.scoped_client.max_response_body_bytes
      → P response) where
  answer_elim :
      (tc : ToolCall) (o : Option (Result String ScopedClientError))
      → ((response : String)
          → o ≡ some (ok response)
          → str_len response ≤ exec.scoped_client.max_response_body_bytes)
      → P (answer json net timestamp tc o).result_json
  unfolding answer
  answer_elim tc none h = of_error _ _
  answer_elim tc (some (ok response)) h = of_response response (h response refl)
  answer_elim tc (some (err e)) h = of_error _ _

  handler_elim :
      (tc : ToolCall) (timeout_ms : ℕ) (url : Option String)
      → P (call_handler json net timestamp exec tc timeout_ms url).result_json
  unfolding call_handler
  handler_elim tc timeout_ms none = of_error _ _
  handler_elim tc timeout_ms (some url) =
      answer_elim tc _ (post_limit net exec.scoped_client timeout_ms url tc.arguments_json)

  zone_elim :
      (zone : ToolZone) (tc : ToolCall) (reg : ToolRegistration)
      → P (execute_in json net timestamp zone exec tc reg).result_json
  unfolding execute_in execute_sphere_tool execute_echo
  zone_elim satellite tc reg = of_error _ _
  zone_elim wasm tc reg = of_error _ _
  zone_elim sphere tc reg = elim (Bool-cases (str_eq tc.name "intellisphere_echo")) [
    | inl echo ↦ rw echo (of_echo _)
    | inr other ↦ rw other (handler_elim tc reg.timeout_ms reg.handler_url)
  ]

  pub execute_elim :
      (tc : ToolCall) (reg : ToolRegistration)
      → P (execute json net timestamp exec tc reg).result_json
  unfolding execute
  execute_elim tc reg = zone_elim reg.zone tc reg
