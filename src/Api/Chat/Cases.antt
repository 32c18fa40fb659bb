-- ===== src/Api/Chat/Cases.antt =====
-- One turn of the tool loop by its cases, with all that is known in each.
use intellisphere.Common.{
  ℕ, String, ◌≡◌, refl, Bool, true, false, not, ◌&&◌, Option, none, some, List, [], Result, ok, err,
  is_empty, Bool-cases, inl, inr,
}
use intellisphere.Errors.{core_error}
use intellisphere.Proto.{ToolCall, ToolResult, CompletionRequest, CompletionResponse}
use intellisphere.Pipeline.Context.{PipelineContext}
use intellisphere.Tools.Json.{JsonLib}
use intellisphere.Tools.ScopedClient.{Network}
use intellisphere.Tools.Interceptor.{process}
use intellisphere.Api.Chat.{
  AppState, UsageResponse, Handled, count, finish, after_tools, turn, is_tool_use,
}

-- The model wants tools: its answer says so and names some.
abbrev pub wants_tools : CompletionResponse → Bool
wants_tools response = is_tool_use response.stop_reason && not (is_empty response.tool_calls)

module _ {Val : Type 0} (json : JsonLib Val) (net : ℕ → ℕ → Network) (timestamp : ℕ → ℕ → String)
    (panics : ℕ → ℕ → ToolCall → Bool)
    (complete : ℕ → CompletionRequest → Result CompletionResponse String) where
  tools_cases :
      (P : Handled → Type 0) (o : Option (List ToolResult)) (next : List ToolResult → Handled)
      → P (none, [])
      → ((results : List ToolResult) → P (next results))
      → P (after_tools json net timestamp panics complete o next)
  unfolding after_tools
  tools_cases P none next panicked onward = panicked
  tools_cases P (some results) next panicked onward = onward results

  pub turn_cases :
      (P : Handled → Type 0) (state : AppState) (context : PipelineContext) (i : ℕ)
      (total : UsageResponse) (reply : Result CompletionResponse String)
      (next : CompletionResponse → UsageResponse → List ToolResult → Handled)
      → P (none, [])
      → ((e : String) → reply ≡ err e → P (some (err (core_error e)), []))
      → ((r : CompletionResponse)
          → reply ≡ ok r
          → wants_tools r ≡ false
          → P (some (finish state context r (count r.usage total)), []))
      → ((r : CompletionResponse) (results : List ToolResult)
          → reply ≡ ok r
          → wants_tools r ≡ true
          → P (next r (count r.usage total) results))
      → P (turn json net timestamp panics complete state context i total reply next)
  unfolding turn
  turn_cases P state context i total (err e) next panicked failed finished onward = failed e refl
  turn_cases P state context i total (ok r) next panicked failed finished onward =
      elim (Bool-cases (wants_tools r)) [
        | inl tools ↦ rw tools (
            tools_cases P
              (process json (net i) (timestamp i) (panics i) state.tool_executor state.tool_registry
                context.identity r.tool_calls)
              (next r (count r.usage total)) panicked (λ results. onward r results refl tools))
        | inr done ↦ rw done (finished r refl done)
      ]
