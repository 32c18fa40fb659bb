-- ===== src/Api/Chat/Conversation.antt =====
-- What the tool loop says to the Core from one request to the next, and that it ends.
use intellisphere.Common.{
  ℕ, zero, suc, String, ◌≡◌, refl, sym, subst, Bool, true, not, ◌&&◌, Option, none, some, List, [],
  ◌∷◌, ◌++◌, map, Result, ok, err, is_empty, Bool-cases, Option-cases, inl, inr,
}
use intellisphere.Errors.{SphereError}
use intellisphere.Proto.{Message, ToolCall, ToolResult, CompletionRequest, CompletionResponse}
use intellisphere.Pipeline.Context
use intellisphere.Pipeline.Context.{PipelineContext}
use intellisphere.Tools.Json.{JsonLib}
use intellisphere.Tools.ScopedClient.{Network}
use intellisphere.Tools.Interceptor.{process}
use intellisphere.Tools.Interceptor.Isolation.{call_ids-process}
use intellisphere.Api.Chat.{
  AppState, ChatRequest, ChatResponse, UsageResponse, Handled, Converted, run_messages, request_of,
  after_request, after_tools, turn, is_tool_use, effective_max, tool_turn, tool_loop, after_inbound,
  chat,
}

-- The two messages that go on top of the conversation: what the model answered, with its calls, and
-- what its tools answered.
abbrev pub exchange : CompletionResponse → List ToolResult → List Message
exchange response results =
    record {
      role = "assistant";
      content = response.content;
      tool_results = [];
      tool_calls = response.tool_calls;
    }
    ∷ record { role = "user"; content = ""; tool_results = results; tool_calls = [] }
    ∷ []

module _ {Val : Type 0} (json : JsonLib Val) (net : ℕ → ℕ → Network) (timestamp : ℕ → ℕ → String)
    (panics : ℕ → ℕ → ToolCall → Bool)
    (complete : ℕ → CompletionRequest → Result CompletionResponse String) where
  -- The Core answered the i-th request by tool calls, and the next request repeats it with that
  -- answer and a result for each call, which are what the interceptor makes of the calls for the
  -- identity of the context.
  abbrev pub Follows :
      AppState → PipelineContext → ℕ → CompletionRequest → CompletionRequest → Type 0
  Follows state context i r r' =
      (response : CompletionResponse) × (results : List ToolResult) × (complete i r ≡ ok response)
      × ((is_tool_use response.stop_reason && not (is_empty response.tool_calls)) ≡ true)
      × (map (λ t. t.call_id) results ≡ map (λ c. c.call_id) response.tool_calls)
      × (process json (net i) (timestamp i) (panics i) state.tool_executor state.tool_registry
            context.identity response.tool_calls
          ≡ some results)
      × (r' ≡ record r { messages = r.messages ++ exchange response results })

  abbrev pub Linked :
      AppState → PipelineContext → ℕ → CompletionRequest → List CompletionRequest → Type 0
  Linked state context i r [] = Unit {0}
  Linked state context i r (r' ∷ rs) =
      Follows state context i r r' × Linked state context (suc i) r' rs

  abbrev Begins :
      AppState → PipelineContext → ℕ → CompletionRequest → List CompletionRequest → Type 0
  Begins state context i first [] = Unit {0}
  Begins state context i first (r ∷ rs) = (r ≡ first) × Linked state context i r rs

  Begins-Linked :
      (state : AppState) (context : PipelineContext) (i : ℕ) (r r' : CompletionRequest)
      (rs : List CompletionRequest)
      → Follows state context i r r'
      → Begins state context (suc i) r' rs
      → Linked state context i r rs
  Begins-Linked state context i r r' [] f b = tt
  Begins-Linked state context i r r' (r'' ∷ rs) f b =
      (subst (Follows state context i r) (sym b.0) f, b.1)

  unfoldable pub run_tools :
      ℕ → AppState → PipelineContext → List ToolCall → Option (List ToolResult)
  run_tools i state context calls =
      process json (net i) (timestamp i) (panics i) state.tool_executor state.tool_registry
        context.identity calls

  -- A turn with what is known where it goes on.
  pub turn_onward :
      (P : Handled → Type 0) (state : AppState) (context : PipelineContext) (i : ℕ)
      (total : UsageResponse) (reply : Result CompletionResponse String)
      (next : CompletionResponse → UsageResponse → List ToolResult → Handled)
      → ((calls : List ToolCall) → run_tools i state context calls ≡ none → P (none, []))
      → ((result : Result ChatResponse SphereError) → P (some result, []))
      → ((r : CompletionResponse) (t : UsageResponse) (results : List ToolResult)
          → reply ≡ ok r
          → (is_tool_use r.stop_reason && not (is_empty r.tool_calls)) ≡ true
          → run_tools i state context r.tool_calls ≡ some results
          → P (next r t results))
      → P (turn json net timestamp panics complete state context i total reply next)
  unfolding turn after_tools run_tools
  turn_onward P state context i total (err e) next panicked ended onward = ended _
  turn_onward P state context i total (ok r) next panicked ended onward =
      elim (Bool-cases (is_tool_use r.stop_reason && not (is_empty r.tool_calls))) [
        | inl tools ↦ elim (Option-cases (run_tools i state context r.tool_calls)) [
          | inl e ↦ rw (tools, e) (panicked r.tool_calls e)
          | inr (results, e) ↦ rw (tools, e) (onward r _ results refl tools e)
        ]
        | inr done ↦ rw done (ended _)
      ]

  loop-Begins :
      (state : AppState) (req : ChatRequest) (id : String) (context : PipelineContext) (i left : ℕ)
      (messages : List Message) (total : UsageResponse)
      → Begins state context i
          (request_of state req id messages)
          (tool_loop json net timestamp panics complete state req id context i left messages
            total).1
  unfolding tool_loop run_tools request_of
  loop-Begins state req id context i zero messages total = tt
  loop-Begins state req id context i (suc left) messages total =
      turn_onward
        (λ h.
          Begins state context i (request_of state req id messages)
            (after_request (request_of state req id messages) h).1)
        state context i total _ _ (λ calls e. (refl, tt)) (λ result. (refl, tt))
        (λ r t results answered tools ran. (
          refl,
          Begins-Linked state context i (request_of state req id messages)
              (request_of state req id (messages ++ tool_turn r results)) _
              (
                r,
                results,
                answered,
                tools,
                call_ids-process json (net i) (timestamp i) (panics i) state.tool_executor
                    state.tool_registry context.identity r.tool_calls results ran,
                ran,
                refl,
              )
              (loop-Begins state req id context (suc i) left (messages ++ tool_turn r results) t),
        ))

  -- The requests of a completion: the first carries the messages of the caller as the inbound
  -- pipeline leaves them.
  abbrev pub Converses : AppState → Converted → List CompletionRequest → Type 0
  Converses state inbound [] = Unit {0}
  Converses state (inbound, context) (r ∷ rs) =
      (inbound ≡ ok r.messages) × Linked state context 0 r rs

  Begins-Converses :
      (state : AppState) (context : PipelineContext) (messages : List Message)
      (first : CompletionRequest) (rs : List CompletionRequest)
      → first.messages ≡ messages
      → Begins state context 0 first rs
      → Converses state (ok messages, context) rs
  Begins-Converses state context messages first [] same b = tt
  Begins-Converses state context messages first (r ∷ rs) same b = (rw (b.0, same) refl, b.1)

  inbound-Converses :
      (state : AppState) (req : ChatRequest) (id : String) (c : Converted)
      → Converses state c (after_inbound json net timestamp panics complete state req id c).1
  unfolding after_inbound request_of
  inbound-Converses state req id (err e, context) = tt
  inbound-Converses state req id (ok messages, context) =
      Begins-Converses state context messages (request_of state req id messages) _ refl
        (loop-Begins state req id context 0 (effective_max state) messages _)

  -- What a completion asks the Core: its first request carries the caller's messages as the inbound
  -- pipeline leaves them; each further request follows one that the Core answered by tool calls,
  -- and repeats it with two messages more, that answer and the results that the interceptor gives
  -- its calls, for the identity of the context that the inbound pipeline left, one for each call, in
  -- order and under its id. Nothing else of the request changes.
  pub chat-Converses :
      (state : AppState) (req : ChatRequest) (id : String)
      → Converses state
          (run_messages state.pipeline req.messages (Context.new id ""))
          (chat json net timestamp panics complete state req id).1
  unfolding chat
  chat-Converses state req id = inbound-Converses state req id _
