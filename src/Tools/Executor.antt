-- ===== src/Tools/Executor.antt =====
-- sphere/src/tools/executor.rs. The time that the echo tool reads is an argument.
pub mod Handlers
use intellisphere.Common.{
  ℕ, String, true, false, Option, none, some, List, Result, ok, err, unwrap_or, str_eq,
  if◌then◌else◌,
}
use intellisphere.Common.Text.{◌<>◌}
use intellisphere.Proto.{ToolCall, ToolResult}
use intellisphere.Tools.Registry.{ToolRegistration, ToolZone, sphere, satellite, wasm}
use intellisphere.Tools.Json.{JsonLib}
use intellisphere.Tools.ScopedClient
use intellisphere.Tools.ScopedClient.{
  Network, ScopedHttpClient, ScopedClientError, client_error_text, post,
}

pub record ToolExecutor : Type 0 where
  pub scoped_client : ScopedHttpClient

-- `ToolExecutor::new`: five seconds, and one mebibyte each way.
abbrev pub new : List String → ToolExecutor
new allowed_domains = record { scoped_client = ScopedClient.new allowed_domains 5 1048576 1048576 }

module _ {Val : Type 0} (json : JsonLib Val) (net : Network) (timestamp : String) where
  abbrev pub failed : ToolCall → String → String → ToolResult
  failed tc code message = record {
    call_id = tc.call_id;
    result_json = json.error_body code message;
    is_error = true;
  }

  arguments_of : Result Val String → Val
  arguments_of (ok v) = v
  arguments_of (err e) = json.null

  execute_echo : ToolCall → ToolResult
  unfolding arguments_of
  execute_echo tc =
      let message : String =
        unwrap_or (json.message_of (arguments_of (json.from_str tc.arguments_json)))
          "(no message)" in
      record {
        call_id = tc.call_id;
        result_json = json.echo_body message timestamp;
        is_error = false;
      }

  answer : ToolCall → Option (Result String ScopedClientError) → ToolResult
  answer tc none = failed tc "EXECUTION_TIMEOUT" "Tool handler exceeded timeout"
  answer tc (some (ok response)) = record {
    call_id = tc.call_id;
    result_json = response;
    is_error = false;
  }
  answer tc (some (err e)) =
      failed tc "EXECUTION_ERROR" ("Tool handler request failed: " <> client_error_text e)

  call_handler : ToolExecutor → ToolCall → ℕ → Option String → ToolResult
  unfolding answer
  call_handler exec tc timeout_ms none =
      failed tc "EXECUTION_ERROR" "No handler URL configured for this tool"
  call_handler exec tc timeout_ms (some url) =
      answer tc (post net exec.scoped_client timeout_ms url tc.arguments_json).0

  execute_sphere_tool : ToolExecutor → ToolCall → ToolRegistration → ToolResult
  unfolding call_handler execute_echo
  execute_sphere_tool exec tc reg =
      if str_eq tc.name "intellisphere_echo"
      then execute_echo tc
      else call_handler exec tc reg.timeout_ms reg.handler_url

  execute_in : ToolZone → ToolExecutor → ToolCall → ToolRegistration → ToolResult
  unfolding execute_sphere_tool
  execute_in sphere exec tc reg = execute_sphere_tool exec tc reg
  execute_in satellite exec tc reg =
      failed tc "SATELLITE_UNAVAILABLE"
        "Tool requires browser connection. No Satellite session active."
  execute_in wasm exec tc reg =
      failed tc "NOT_IMPLEMENTED" "WASM tool execution is not yet supported."

  unfoldable pub execute : ToolExecutor → ToolCall → ToolRegistration → ToolResult
  unfolding execute_in
  execute exec tc reg = execute_in reg.zone exec tc reg
