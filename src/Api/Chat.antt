-- ===== src/Api/Chat.antt =====
-- sphere/src/api/chat.rs. The Core is a function of the iteration and the request; what
-- the tools' network answers, the time and the panics of handlers are functions of the iteration and
-- the place of the call among those of the turn. A handler returns its response
-- beside the requests that it sent to the Core; the response is `none` where the handler panics.
pub mod Lengths
pub mod Turns
pub mod Cases
pub mod Tokens
pub mod Outcome
pub mod Conversation
pub mod Answers
pub mod Sanitized
pub mod Offline
pub mod Identity
pub mod Stream
use intellisphere.Common.{
  ℕ, zero, suc, ◌+◌, ◌%◌, ◌^◌, min, String, Bool, true, false, not, ◌&&◌, Option, none, some, List,
  [], ◌∷◌, ◌++◌, map, Result, ok, err, ◌>>=◌, map_err, is_empty, unwrap_or, if◌then◌else◌,
}
use intellisphere.Common.Text.{◌<>◌, show_nat}
use intellisphere.Errors.{SphereError, core_error}
use intellisphere.Proto.{
  Message, ToolCall, ToolResult, ToolDefinition, Usage, StopReason, unspecified, end_turn, tool_use,
  max_tokens, stop_sequence, CompletionRequest, CompletionResponse, CompletionChunk,
}
use intellisphere.Pipeline.Context
use intellisphere.Pipeline.Context.{PipelineContext, Filtered}
use intellisphere.Pipeline.Chain.{PipelineChain, run_inbound, run_outbound}
use intellisphere.Tools.Registry.{ToolRegistration, ToolRegistry, all_tools}
use intellisphere.Tools.Json.{JsonLib}
use intellisphere.Tools.ScopedClient.{Network}
use intellisphere.Tools.Executor.{ToolExecutor}
use intellisphere.Tools.Interceptor.{process}

pub record ChatMessage : Type 0 where
  pub role : String
  pub content : String

pub record ChatRequest : Type 0 where
  pub messages : List ChatMessage
  pub model : String
  pub max_tokens : ℕ
  pub temperature : ℕ
  pub system : Option String

pub record UsageResponse : Type 0 where
  pub input_tokens : ℕ
  pub output_tokens : ℕ

pub record ChatResponse : Type 0 where
  pub content : String
  pub model : String
  pub stop_reason : String
  pub usage : UsageResponse

-- What the handlers read of `AppState`.
pub record AppState : Type 0 where
  pub pipeline : PipelineChain
  pub tool_registry : ToolRegistry
  pub tool_executor : ToolExecutor
  pub max_tool_iterations : ℕ

-- The model and the token limit of a request that leaves them out.
abbrev pub default_model : String
default_model = "claude-sonnet-4-20250514"

abbrev pub default_max_tokens : ℕ
default_max_tokens = 1024

definition_of : ToolRegistration → ToolDefinition
definition_of t = record {
  name = t.name;
  description = t.description;
  input_schema_json = t.input_schema_json;
}

unfoldable pub build_tool_defs : AppState → List ToolDefinition
unfolding definition_of
build_tool_defs state = map definition_of (all_tools state.tool_registry)

unfoldable pub map_stop_reason : StopReason → String
map_stop_reason end_turn = "end_turn"
map_stop_reason tool_use = "tool_use"
map_stop_reason max_tokens = "max_tokens"
map_stop_reason stop_sequence = "stop_sequence"
map_stop_reason unspecified = "unknown"

unfoldable pub is_tool_use : StopReason → Bool
is_tool_use tool_use = true
is_tool_use end_turn = false
is_tool_use max_tokens = false
is_tool_use stop_sequence = false
is_tool_use unspecified = false

abbrev pub plain : String → String → Message
plain role content = record { role = role; content = content; tool_results = []; tool_calls = [] }

abbrev pub Converted : Type 0
Converted = Result (List Message) SphereError × PipelineContext

unfoldable pub push : Message → Converted → Converted
push m (ok ms, context) = (ok (m ∷ ms), context)
push m (err e, context) = (err e, context)

-- The loop that converts the messages and runs each through the inbound pipeline.
unfoldable pub run_messages : PipelineChain → List ChatMessage → PipelineContext → Converted
unfolding push
run_messages chain [] context = (ok [], context)
run_messages chain (msg ∷ msgs) context =
    let (result, m, context') = run_inbound chain (plain msg.role msg.content) context in
    elim result [ ok u ↦ push m (run_messages chain msgs context') | err e ↦ (err e, context') ]

unfoldable pub request_of : AppState → ChatRequest → String → List Message → CompletionRequest
unfolding build_tool_defs
request_of state req request_id messages = record {
  provider = "anthropic";
  model = req.model;
  system = unwrap_or req.system "";
  messages = messages;
  max_tokens = req.max_tokens;
  temperature = req.temperature;
  tools = build_tool_defs state;
  stop_sequences = [];
  request_id = request_id;
  session_id = "";
}

-- `i32` addition, as release builds have it
abbrev add_i32 : ℕ → ℕ → ℕ
add_i32 a b = (a + b) % 2 ^ 32

unfoldable pub count : Option Usage → UsageResponse → UsageResponse
count none total = total
count (some usage) total = record {
  input_tokens = add_i32 total.input_tokens usage.input_tokens;
  output_tokens = add_i32 total.output_tokens usage.output_tokens;
}

abbrev pub Handled : Type 0
Handled = Option (Result ChatResponse SphereError) × List CompletionRequest

abbrev pub after_request : CompletionRequest → Handled → Handled
after_request r (response, requests) = (response, r ∷ requests)

unfoldable pub finish_with :
    CompletionResponse → UsageResponse → Filtered → Result ChatResponse SphereError
finish_with response total (err e, m, context) = err e
finish_with response total (ok u, m, context) = ok (record {
  content = m.content;
  model = response.model;
  stop_reason = map_stop_reason response.stop_reason;
  usage = total;
})

-- The model has finished: its answer passes the outbound pipeline.
unfoldable pub finish :
    AppState
    → PipelineContext
    → CompletionResponse
    → UsageResponse
    → Result ChatResponse SphereError
unfolding finish_with map_stop_reason
finish state context response total =
    finish_with response total
      (run_outbound state.pipeline (plain "assistant" response.content) context)

unfoldable pub gave_up : ChatRequest → ℕ → UsageResponse → ChatResponse
gave_up req effective_max total = record {
  content =
      "[IntelliSphere: Tool loop reached maximum of " <> show_nat effective_max <> " iterations]";
  model = req.model;
  stop_reason = "max_iterations";
  usage = total;
}

-- The assistant's turn and the user's turn with the results of its tools.
abbrev pub tool_turn : CompletionResponse → List ToolResult → List Message
tool_turn response results =
    record {
      role = "assistant";
      content = response.content;
      tool_results = [];
      tool_calls = response.tool_calls;
    }
    ∷ record { role = "user"; content = ""; tool_results = results; tool_calls = [] }
    ∷ []

abbrev pub effective_max : AppState → ℕ
effective_max state = min state.max_tool_iterations 25

module _ {Val : Type 0} (json : JsonLib Val) (net : ℕ → ℕ → Network) (timestamp : ℕ → ℕ → String)
    (panics : ℕ → ℕ → ToolCall → Bool)
    (complete : ℕ → CompletionRequest → Result CompletionResponse String) where
  unfoldable pub after_tools : Option (List ToolResult) → (List ToolResult → Handled) → Handled
  after_tools none next = (none, [])
  after_tools (some results) next = next results

  -- One turn of the loop, `next` being its further turns.
  unfoldable pub turn :
      AppState
      → PipelineContext
      → ℕ
      → UsageResponse
      → Result CompletionResponse String
      → (CompletionResponse → UsageResponse → List ToolResult → Handled)
      → Handled
  unfolding after_tools count is_tool_use
  turn state context iteration total (err e) next = (some (err (core_error e)), [])
  turn state context iteration total (ok response) next =
      let total' = count response.usage total in
      if is_tool_use response.stop_reason && not (is_empty response.tool_calls)
      then after_tools
          (process json (net iteration) (timestamp iteration) (panics iteration) state.tool_executor
            state.tool_registry context.identity response.tool_calls)
          (next response total')
      else (some (finish state context response total'), [])

  -- The turns that are left, from the given iteration on.
  unfoldable pub tool_loop :
      AppState
      → ChatRequest
      → String
      → PipelineContext
      → ℕ
      → ℕ
      → List Message
      → UsageResponse
      → Handled
  unfolding turn
  tool_loop state req request_id context iteration zero messages total =
      (some (ok (gave_up req (effective_max state) total)), [])
  tool_loop state req request_id context iteration (suc left) messages total =
      let request = request_of state req request_id messages in
      after_request request (
        turn state context iteration total (complete iteration request) (λ response total' results.
          tool_loop state req request_id context (suc iteration) left
            (messages ++ tool_turn response results) total'))

  unfoldable pub after_inbound : AppState → ChatRequest → String → Converted → Handled
  unfolding tool_loop
  after_inbound state req request_id (err e, context) = (some (err e), [])
  after_inbound state req request_id (ok messages, context) =
      tool_loop state req request_id context 0 (effective_max state) messages
        (record { input_tokens = 0; output_tokens = 0 })

  -- `request_id` is the fresh UUID.
  unfoldable pub chat : AppState → ChatRequest → String → Handled
  unfolding after_inbound
  chat state req request_id =
      after_inbound state req request_id
        (run_messages state.pipeline req.messages (Context.new request_id ""))

-- `chat_stream`: the Core's chunks, each as the event it becomes.
-- `event_data` is the text of `{"delta": .., "chunk_type": ..}`.
module _
    (complete_stream : CompletionRequest → Result (List (Result CompletionChunk String)) String)
    (event_data : String → ℕ → String) where
  event : Result CompletionChunk String → Result String SphereError
  event (ok chunk) = ok (event_data chunk.delta chunk.chunk_type)
  event (err e) = err (core_error e)

  unfoldable pub chat_stream :
      AppState → ChatRequest → String → Result (List (Result String SphereError)) SphereError
  unfolding event
  chat_stream state req request_id = do
    messages ← (run_messages state.pipeline req.messages (Context.new request_id "")).0
    stream ← map_err core_error (complete_stream (request_of state req request_id messages))
    ok (map event stream)
