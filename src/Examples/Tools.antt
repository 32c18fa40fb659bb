-- ===== src/Examples/Tools.antt =====
-- Witnesses for the modules of Tools.
use intellisphere.Common.{
  ◌≤◌, String, ◌≡◌, refl, true, false, none, some, List, [], ◌∷◌, ok, All, map,
}
use intellisphere.Common.Dict.{lookup}
use intellisphere.Common.Text.{str_len}
use intellisphere.Proto.{ToolCall, ToolResult}
use intellisphere.Tools.Registry
use intellisphere.Tools.Registry.{register, len}
use intellisphere.Tools.ScopedClient
use intellisphere.Tools.ScopedClient.{ScopedHttpClient}
use intellisphere.Tools.ScopedClient.Allowlist.{IsConfined, post-IsConfined}
use intellisphere.Tools.Executor
use intellisphere.Tools.Interceptor.{check_authorization, check_identity, process_one}
use intellisphere.Tools.Interceptor.Isolation.{process_one_apart}
use intellisphere.Common.{arith}
use intellisphere.Tools.Registry.{ToolRegistration, ToolRegistry}
use intellisphere.Tools.Interceptor.{validate_params}
use intellisphere.Tools.Interceptor.Delivery.{process_one-Responds}
use intellisphere.Tools.Executor.Handlers.{Responds}
use intellisphere.Examples.Data.{user, json, net, quiet, exec, guarded_tool, registry, call}

abbrev client : ScopedHttpClient
client = ScopedClient.new ("api.example.com" ∷ []) 5 1024 1024

post-IsConfined_example :
    All (IsConfined client) (ScopedClient.post net client 1000 "https://api.example.com/x" "{}").1
    × All (IsConfined client) (ScopedClient.get net client "https://api.example.com/x").1
    × ((response : String)
        → (ScopedClient.post net client 1000 "https://api.example.com/x" "{}").0
          ≡ some (ok response)
        → str_len response ≤ 1024)
    × ((response : String)
        → (ScopedClient.get net client "https://api.example.com/x").0 ≡ ok response
        → str_len response ≤ 1024)
post-IsConfined_example =
    post-IsConfined net ("api.example.com" ∷ []) 5 1024 1024 1000 "https://api.example.com/x" "{}"

-- One request is sent.
sent_test :
    map (λ r. r.body) (ScopedClient.post net client 1000 "https://api.example.com/x" "{}").1
    ≡ some "{}" ∷ []
unfolding ScopedClient.post ScopedClient.validate_url
sent_test = refl

process_one_apart_example :
    (r : ToolResult) × (process_one json net "now" quiet exec registry
        (some user)
        (call "c1" "wipe")
      ≡ some r)
    × (process_one json net "later"
          (λ tc. true)
          (Executor.new [])
          registry
          (some user)
          (call "c1" "wipe")
        ≡ some r)
    × (r.is_error ≡ true)
unfolding Registry.get lookup check_authorization check_identity
process_one_apart_example =
    process_one_apart json net net "now" "later" quiet (λ tc. true) exec (Executor.new []) registry
      (some user) (call "c1" "wipe") refl

abbrev calls : List ToolCall
calls = call "c1" "wipe" ∷ call "c2" "missing" ∷ []

abbrev results : List ToolResult
results =
    record {
      call_id = "c1";
      result_json = "Authentication required for this tool";
      is_error = true;
    }
    ∷ record { call_id = "c2"; result_json = "Tool 'missing' is not registered"; is_error = true }
    ∷ []

abbrev short_result : ToolResult
short_result = record { call_id = "c1"; result_json = "{}"; is_error = false }

abbrev remote_tool : ToolRegistration
remote_tool = record guarded_tool {
  name = "fetch";
  required_scopes = [];
  handler_url = some "https://api.example.com/fetch";
}

abbrev remote_registry : ToolRegistry
remote_registry = record { tools = ("fetch", remote_tool) ∷ [] }

pub remote_tool-Responds : Responds net exec (call "c1" "fetch") remote_tool "done"
unfolding ScopedClient.post ScopedClient.validate_url
remote_tool-Responds = record {
  zone = refl;
  handler = refl;
  url = "https://api.example.com/fetch";
  handler_url = refl;
  answered = refl;
}

process_one-Responds_example :
    process_one json net "now" quiet exec remote_registry none (call "c1" "fetch")
    ≡ some (record { call_id = "c1"; result_json = "done"; is_error = false })
unfolding Registry.get lookup check_authorization validate_params
process_one-Responds_example =
    process_one-Responds json net "now" quiet exec remote_registry none (call "c1" "fetch")
      remote_tool "done" refl refl refl (omega arith) remote_tool-Responds
