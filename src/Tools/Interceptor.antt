-- ===== src/Tools/Interceptor.antt =====
-- sphere/src/tools/interceptor.rs. `none` stands for a panic of the interceptor itself; a panic of
-- the spawned execution is caught, and where one happens is a parameter.
pub mod Authorization
pub mod Isolation
pub mod Truncation
pub mod Delivery
pub mod Closed
use intellisphere.Common.{
  ℕ, suc, String, Bool, true, false, not, ◌&&◌, Option, none, some, List, [], ◌∷◌, Result, ok, err,
  ◌>>=◌, ◌>>◌, map_err, ltb, is_empty, if◌then◌else◌,
}
use intellisphere.Common.Text.{◌<>◌, join, str_len, mem_str, get?}
use intellisphere.Proto.{ToolCall, ToolResult}
use intellisphere.Auth.Identity.{Identity}
use intellisphere.Tools.Registry
use intellisphere.Tools.Registry.{ToolRegistration, ToolRegistry}
use intellisphere.Tools.Json.{JsonLib}
use intellisphere.Tools.ScopedClient.{Network}
use intellisphere.Tools.Executor.{ToolExecutor, execute}

abbrev pub max_result_size : ℕ
max_result_size = 1048576

check_roles : List String → Identity → Result (Unit {0}) String
check_roles [] identity = ok tt
check_roles (role ∷ rest) identity =
    let later = check_roles rest identity in
    if not (mem_str role identity.roles) then err ("Missing required role: " <> role) else later

check_scopes : List String → List String → Identity → Result (Unit {0}) String
unfolding check_roles
check_scopes [] roles identity = check_roles roles identity
check_scopes (scope ∷ rest) roles identity =
    let later = check_scopes rest roles identity in
    if not (mem_str scope identity.scopes) then err ("Missing required scope: " <> scope) else later

unfoldable pub check_identity : ToolRegistration → Option Identity → Result (Unit {0}) String
unfolding check_scopes
check_identity reg none = err "Authentication required for this tool"
check_identity reg (some identity) = check_scopes reg.required_scopes reg.required_roles identity

unfoldable pub check_authorization : ToolRegistration → Option Identity → Result (Unit {0}) String
unfolding check_identity
check_authorization reg identity =
    if is_empty reg.required_scopes && is_empty reg.required_roles
    then ok tt
    else check_identity reg identity

unfoldable pub collect : Option ToolResult → Option (List ToolResult) → Option (List ToolResult)
collect none rest = none
collect (some r) none = none
collect (some r) (some rs) = some (r ∷ rs)

module _ {Val : Type 0} (json : JsonLib Val) where
  unfoldable pub validate_params : String → String → Result (Unit {0}) String
  validate_params params_json schema_json = do
    params ← map_err (λ e. "Invalid JSON: " <> e) (json.from_str params_json)
    schema ← map_err (λ e. "Invalid schema: " <> e) (json.from_str schema_json)
    errors_of ← map_err (λ e. "Invalid JSON Schema: " <> e) (json.compile schema)
    if is_empty (errors_of params) then ok tt else err (join "; " (errors_of params))

  abbrev pub error_result : String → String → String → ToolResult
  error_result call_id code message = record {
    call_id = call_id;
    result_json = json.error_body code message;
    is_error = true;
  }

  -- The slice `[..MAX_RESULT_SIZE]` panics inside a character.
  cut : ToolResult → Option String → Option ToolResult
  cut result none = none
  cut result (some head) = some (record result { result_json = head })

  unfoldable pub enforce_size : ToolResult → Option ToolResult
  unfolding cut
  enforce_size result =
      if ltb max_result_size (str_len result.result_json)
      then cut result (get? result.result_json 0 max_result_size)
      else some result

  -- `panics` says whether the execution of a call panics.
  module _ (net : Network) (timestamp : String) (panics : ToolCall → Bool)
      (exec : ToolExecutor) where
    execute_with_containment : ToolCall → ToolRegistration → Option ToolResult
    execute_with_containment tc reg =
        if panics tc
        then some
            (error_result tc.call_id "EXECUTION_ERROR" "Tool handler encountered an internal error")
        else enforce_size (execute json net timestamp exec tc reg)

    validated : ToolCall → ToolRegistration → Result (Unit {0}) String → Option ToolResult
    unfolding execute_with_containment
    validated tc reg (err e) =
        some (error_result tc.call_id "VALIDATION_FAILED" ("Parameter validation failed: " <> e))
    validated tc reg (ok u) = execute_with_containment tc reg

    unfoldable pub authorized :
        ToolCall → ToolRegistration → Result (Unit {0}) String → Option ToolResult
    unfolding validated
    authorized tc reg (err e) = some (error_result tc.call_id "AUTHORIZATION_DENIED" e)
    authorized tc reg (ok u) =
        validated tc reg (validate_params tc.arguments_json reg.input_schema_json)

    unfoldable pub found : ToolCall → Option Identity → Option ToolRegistration → Option ToolResult
    unfolding authorized
    found tc identity none =
        some
          (error_result tc.call_id "TOOL_NOT_FOUND" ("Tool '" <> tc.name <> "' is not registered"))
    found tc identity (some reg) = authorized tc reg (check_authorization reg identity)

    -- One turn of the loop of `process`.
    unfoldable pub process_one : ToolRegistry → Option Identity → ToolCall → Option ToolResult
    unfolding found
    process_one registry identity tc = found tc identity (Registry.get tc.name registry)

-- The calls come one after the other: the network, the time and the panics are those of the place of
-- the call among them.
module _ {Val : Type 0} (json : JsonLib Val) (net : ℕ → Network) (timestamp : ℕ → String)
    (panics : ℕ → ToolCall → Bool) (exec : ToolExecutor) where
  unfoldable pub process_from :
      ℕ → ToolRegistry → Option Identity → List ToolCall → Option (List ToolResult)
  unfolding collect
  process_from i registry identity [] = some []
  process_from i registry identity (tc ∷ tcs) =
      collect (process_one json (net i) (timestamp i) (panics i) exec registry identity tc)
        (process_from (suc i) registry identity tcs)

  unfoldable pub process : ToolRegistry → Option Identity → List ToolCall → Option (List ToolResult)
  unfolding process_from
  process registry identity tcs = process_from 0 registry identity tcs
