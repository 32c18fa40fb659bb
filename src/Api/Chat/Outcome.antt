-- ===== src/Api/Chat/Outcome.antt =====
-- How a completion ends: with what answer, or with whose error.
use intellisphere.Common.{
  ℕ, ◌+◌, ◌≤◌, min, String, ◌≡◌, ◌⊎◌, Bool, false, some, List, [], ◌∷◌, ◌++◌, length, Result, ok,
  err,
}
use intellisphere.Common.Text.{◌<>◌, show_nat}
use intellisphere.Errors.{SphereError, core_error}
use intellisphere.Proto.{ToolCall, CompletionRequest, CompletionResponse}
use intellisphere.Pipeline.Context
use intellisphere.Pipeline.Context.{PipelineContext, Filtered}
use intellisphere.Pipeline.Chain.{run_outbound}
use intellisphere.Tools.Json.{JsonLib}
use intellisphere.Tools.ScopedClient.{Network}
use intellisphere.Api.Chat.{
  AppState, ChatResponse, Handled, Converted, plain, map_stop_reason, effective_max,
}
use intellisphere.Api.Chat.Cases.{wants_tools}

-- The answer of the Core as the outbound pipeline leaves it, or the pipeline's refusal.
abbrev pub Passed : CompletionResponse → Filtered → Result ChatResponse SphereError → Type 0
Passed response (err e, m, context) result = result ≡ err e
Passed response (ok u, m, context) result =
    (r : ChatResponse) × (result ≡ ok r)
    × (r.content ≡ m.content)
    × (r.model ≡ response.model)
    × (r.stop_reason ≡ map_stop_reason response.stop_reason)

-- What the Core's last answer makes of the completion.
abbrev pub Settled :
    AppState
    → PipelineContext
    → Result CompletionResponse String
    → Result ChatResponse SphereError
    → Type 0
Settled state context (err e) result = result ≡ err (core_error e)
Settled state context (ok response) result =
    (wants_tools response ≡ false)
    × Passed response (run_outbound state.pipeline (plain "assistant" response.content) context)
        result

-- The answer of a loop that was cut off.
abbrev pub CutOff : ℕ → Result ChatResponse SphereError → Type 0
CutOff most result =
    (r : ChatResponse) × (result ≡ ok r)
    × (r.stop_reason ≡ "max_iterations")
    × (r.content
        ≡ "[IntelliSphere: Tool loop reached maximum of " <> show_nat most <> " iterations]")

module _ {Val : Type 0} (json : JsonLib Val) (net : ℕ → ℕ → Network) (timestamp : ℕ → ℕ → String)
    (panics : ℕ → ℕ → ToolCall → Bool)
    (complete : ℕ → CompletionRequest → Result CompletionResponse String) where
  -- The last request, before which there were some others, and what its answer makes of it all.
  abbrev pub SettledBy :
      AppState
      → PipelineContext
      → ℕ
      → List CompletionRequest
      → Result ChatResponse SphereError
      → Type 0
  SettledBy state context i requests result =
      (before : List CompletionRequest) × (q : CompletionRequest) × (requests ≡ before ++ q ∷ [])
      × Settled state context (complete (i + length before) q) result

  abbrev LoopEnds : AppState → PipelineContext → ℕ → ℕ → Handled → Type 0
  LoopEnds state context i left h =
      (result : Result ChatResponse SphereError)
      → h.0 ≡ some result
      → ((length h.1 ≡ left) × CutOff (effective_max state) result)
        ⊎ SettledBy state context i h.1 result

  -- What is asked of a completion whose messages the inbound pipeline refused, or let pass.
  abbrev pub Ends :
      AppState → Converted → List CompletionRequest → Result ChatResponse SphereError → Type 0
  Ends state (err e, context) requests result = (result ≡ err e) × (requests ≡ [])
  Ends state (ok messages, context) requests result =
      (length requests ≤ min state.max_tool_iterations 25)
      × (((length requests ≡ min state.max_tool_iterations 25)
            × CutOff (min state.max_tool_iterations 25) result)
          ⊎ SettledBy state context 0 requests result)
