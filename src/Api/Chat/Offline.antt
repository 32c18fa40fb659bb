-- ===== src/Api/Chat/Offline.antt =====
-- A completion whose executor has an empty allowlist.
use intellisphere.Common.{
  ℕ, zero, suc, String, ◌≡◌, refl, Bool, not, ◌&&◌, Option, none, some, List, [], ◌++◌, Result, ok,
  err, is_empty, Bool-cases, inl, inr,
}
use intellisphere.Proto.{Message, ToolCall, ToolResult, CompletionRequest, CompletionResponse}
use intellisphere.Pipeline.Context.{PipelineContext}
use intellisphere.Tools.Json.{JsonLib}
use intellisphere.Tools.ScopedClient.{Network}
use intellisphere.Tools.Interceptor.Closed.{process-closed}
use intellisphere.Api.Chat.{
  AppState, ChatRequest, UsageResponse, Handled, Converted, after_tools, turn, is_tool_use,
  effective_max, tool_turn, tool_loop, after_inbound, chat,
}

module _ {Val : Type 0} (json : JsonLib Val) (net net' : ℕ → ℕ → Network)
    (timestamp : ℕ → ℕ → String) (panics : ℕ → ℕ → ToolCall → Bool)
    (complete : ℕ → CompletionRequest → Result CompletionResponse String)
    (same : (i j : ℕ) → (net i j).parse ≡ (net' i j).parse) where
  after_tools-closed :
      (o : Option (List ToolResult)) (next next' : List ToolResult → Handled)
      → ((rs : List ToolResult) → next rs ≡ next' rs)
      → after_tools json net timestamp panics complete o next
        ≡ after_tools json net' timestamp panics complete o next'
  unfolding after_tools
  after_tools-closed none next next' h = refl
  after_tools-closed (some rs) next next' h = h rs

  turn-closed :
      (state : AppState) (context : PipelineContext) (i : ℕ) (total : UsageResponse)
      (reply : Result CompletionResponse String)
      (next next' : CompletionResponse → UsageResponse → List ToolResult → Handled)
      → state.tool_executor.scoped_client.allowed_domains ≡ []
      → ((r : CompletionResponse) (t : UsageResponse) (rs : List ToolResult)
          → next r t rs ≡ next' r t rs)
      → turn json net timestamp panics complete state context i total reply next
        ≡ turn json net' timestamp panics complete state context i total reply next'
  unfolding turn
  turn-closed state context i total (err e) next next' closed h = refl
  turn-closed state context i total (ok r) next next' closed h =
      elim (Bool-cases (is_tool_use r.stop_reason && not (is_empty r.tool_calls))) [
        | inl tools ↦
            rw
              (
                tools,
                process-closed json (net i) (net' i) (timestamp i) (panics i) state.tool_executor
                    closed (same i) state.tool_registry context.identity r.tool_calls,
              )
              (after_tools-closed _ _ _ (h r _))
        | inr done ↦ rw done refl
      ]

  loop-closed :
      (state : AppState) (req : ChatRequest) (id : String) (context : PipelineContext) (i left : ℕ)
      (messages : List Message) (total : UsageResponse)
      → state.tool_executor.scoped_client.allowed_domains ≡ []
      → tool_loop json net timestamp panics complete state req id context i left messages total
        ≡ tool_loop json net' timestamp panics complete state req id context i left messages total
  unfolding tool_loop
  loop-closed state req id context i zero messages total closed = refl
  loop-closed state req id context i (suc left) messages total closed =
      rw
        (turn-closed state context i total _ _ _ closed (λ r t rs.
          loop-closed state req id context (suc i) left (messages ++ tool_turn r rs) t closed))
        refl

  inbound-closed :
      (state : AppState) (req : ChatRequest) (id : String) (c : Converted)
      → state.tool_executor.scoped_client.allowed_domains ≡ []
      → after_inbound json net timestamp panics complete state req id c
        ≡ after_inbound json net' timestamp panics complete state req id c
  unfolding after_inbound
  inbound-closed state req id (err e, context) closed = refl
  inbound-closed state req id (ok messages, context) closed =
      loop-closed state req id context 0 (effective_max state) messages _ closed

  -- With an empty allowlist a completion does the same on every network.
  pub chat-closed :
      (state : AppState) (req : ChatRequest) (id : String)
      → state.tool_executor.scoped_client.allowed_domains ≡ []
      → chat json net timestamp panics complete state req id
        ≡ chat json net' timestamp panics complete state req id
  unfolding chat
  chat-closed state req id closed = inbound-closed state req id _ closed
