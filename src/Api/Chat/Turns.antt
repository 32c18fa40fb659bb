-- ===== src/Api/Chat/Turns.antt =====
-- The tool loop: how many calls of the Core, and with what conversation.
use intellisphere.Common.{
  ℕ, zero, suc, ◌+◌, ◌≤◌, min, String, ◌≡◌, refl, sym, subst, ◌∙◌, Bool, true, false, not, ◌&&◌,
  Option, none, some, List, [], ◌∷◌, ◌++◌, Result, ok, err, is_empty, length, length-append, arith,
  if◌then◌else◌,
}
use intellisphere.Errors.{core_error}
use intellisphere.Proto.{
  Message, ToolCall, ToolResult, CompletionRequest, CompletionResponse, StopReason, unspecified,
  end_turn, tool_use, max_tokens, stop_sequence,
}
use intellisphere.Pipeline.Context.{PipelineContext, Filtered}
use intellisphere.Tools.Json.{JsonLib}
use intellisphere.Tools.ScopedClient.{Network}
use intellisphere.Api.Chat.{
  AppState, ChatRequest, ChatResponse, UsageResponse, Handled, Converted, request_of, after_request,
  after_tools, turn, is_tool_use, finish, finish_with, map_stop_reason, effective_max, tool_turn,
  tool_loop, after_inbound, chat,
}
use intellisphere.Api.Chat.Lengths.{length-run_messages}

if_elim : {A : Type 0} (P : A → Type 0) (b : Bool) (x y : A) → P x → P y → P (if b then x else y)
if_elim P true x y p q = p
if_elim P false x y p q = q

finish_reason :
    (response : CompletionResponse) (total : UsageResponse) (f : Filtered) (r : ChatResponse)
    → finish_with response total f ≡ ok r
    → r.stop_reason ≡ map_stop_reason response.stop_reason
unfolding finish_with
finish_reason response total (err e, m, context) r h = cc
finish_reason response total (ok u, m, context) r h = cc

map_stop_reason-apart : (s : StopReason) → map_stop_reason s ≡ "max_iterations" → ⊥
unfolding map_stop_reason
map_stop_reason-apart end_turn h = cc
map_stop_reason-apart tool_use h = cc
map_stop_reason-apart max_tokens h = cc
map_stop_reason-apart stop_sequence h = cc
map_stop_reason-apart unspecified h = cc

some-injective : {A : Type 0} {a b : A} → some a ≡ some b → a ≡ b
some-injective h = cc

finish-apart :
    (state : AppState) (context : PipelineContext) (response : CompletionResponse)
    (total : UsageResponse) (r : ChatResponse)
    → finish state context response total ≡ ok r
    → r.stop_reason ≡ "max_iterations"
    → ⊥
unfolding finish
finish-apart state context response total r h e =
    map_stop_reason-apart response.stop_reason (sym (finish_reason response total _ r h) ∙ e)

-- Each request has two messages more than the one before, the first n.
abbrev pub Grows : ℕ → List CompletionRequest → Type 0
Grows n [] = Unit {0}
Grows n (r ∷ rs) = (length r.messages ≡ n) × Grows (n + 2) rs

-- The answer that the loop gives when it gives up.
abbrev pub GaveUp : Handled → Type 0
GaveUp h = (r : ChatResponse) × (h.0 ≡ some (ok r)) × (r.stop_reason ≡ "max_iterations")

module _ {Val : Type 0} (json : JsonLib Val) (net : ℕ → ℕ → Network) (timestamp : ℕ → ℕ → String)
    (panics : ℕ → ℕ → ToolCall → Bool)
    (complete : ℕ → CompletionRequest → Result CompletionResponse String) where
  after_tools_elim :
      (P : Handled → Type 0) (o : Option (List ToolResult)) (next : List ToolResult → Handled)
      → P (none, [])
      → ((rs : List ToolResult) → P (next rs))
      → P (after_tools json net timestamp panics complete o next)
  unfolding after_tools
  after_tools_elim P none next panicked onward = panicked
  after_tools_elim P (some rs) next panicked onward = onward rs

  -- A turn ends the loop without a further request, or goes on with the next one.
  turn_elim :
      (P : Handled → Type 0) (state : AppState) (context : PipelineContext) (iteration : ℕ)
      (total : UsageResponse) (reply : Result CompletionResponse String)
      (next : CompletionResponse → UsageResponse → List ToolResult → Handled)
      → P (none, [])
      → ((e : String) → P (some (err (core_error e)), []))
      → ((r : CompletionResponse) (t : UsageResponse) → P (some (finish state context r t), []))
      → ((r : CompletionResponse) (t : UsageResponse) (rs : List ToolResult) → P (next r t rs))
      → P (turn json net timestamp panics complete state context iteration total reply next)
  unfolding turn after_tools
  turn_elim P state context iteration total (err e) next panicked failed finished onward = failed e
  turn_elim P state context iteration total (ok r) next panicked failed finished onward =
      if_elim P (is_tool_use r.stop_reason && not (is_empty r.tool_calls)) _ _
        (after_tools_elim P _ _ panicked (onward r _)) (finished r _)

  pub loop_calls :
      (state : AppState) (req : ChatRequest) (id : String) (context : PipelineContext)
      (iteration left : ℕ) (messages : List Message) (total : UsageResponse)
      → length
          (tool_loop json net timestamp panics complete state req id context iteration left messages
            total).1
        ≤ left
  unfolding tool_loop
  loop_calls state req id context iteration zero messages total = omega arith
  loop_calls state req id context iteration (suc left) messages total =
      turn_elim (λ h. length (after_request (request_of state req id messages) h).1 ≤ suc left)
        state context iteration total _ _ (omega arith) (λ e. omega arith) (λ r t. omega arith)
        (λ r t rs. omega (
          arith,
          loop_calls state req id context (suc iteration) left (messages ++ tool_turn r rs) t,
        ))

  loop-Grows :
      (state : AppState) (req : ChatRequest) (id : String) (context : PipelineContext)
      (iteration left : ℕ) (messages : List Message) (total : UsageResponse)
      → Grows
          (length messages)
          (tool_loop json net timestamp panics complete state req id context iteration left messages
            total).1
  unfolding tool_loop request_of
  loop-Grows state req id context iteration zero messages total = tt
  loop-Grows state req id context iteration (suc left) messages total =
      turn_elim
        (λ h. Grows (length messages) (after_request (request_of state req id messages) h).1) state
        context iteration total _ _ (refl, tt) (λ e. (refl, tt)) (λ r t. (refl, tt))
        (λ r t rs. (
          refl,
          subst
              (λ n.
                Grows n
                  (tool_loop json net timestamp panics complete state req id context (suc iteration)
                    left (messages ++ tool_turn r rs) t).1)
              (length-append messages (tool_turn r rs))
              (loop-Grows state req id context (suc iteration) left (messages ++ tool_turn r rs) t),
        ))

  loop-GaveUp :
      (state : AppState) (req : ChatRequest) (id : String) (context : PipelineContext)
      (iteration left : ℕ) (messages : List Message) (total : UsageResponse)
      → GaveUp (
          tool_loop json net timestamp panics complete state req id context iteration left messages
            total)
      → length
          (tool_loop json net timestamp panics complete state req id context iteration left messages
            total).1
        ≡ left
  unfolding tool_loop finish
  loop-GaveUp state req id context iteration zero messages total g = omega arith
  loop-GaveUp state req id context iteration (suc left) messages total gave =
      turn_elim
        (λ h.
          GaveUp (after_request (request_of state req id messages) h)
          → length (after_request (request_of state req id messages) h).1 ≡ suc left)
        state context iteration total _ _ (λ g. absurd (cc (g.1))) (λ e g. absurd (cc (g.1)))
        (λ r t g. absurd (finish-apart state context r t g.0 (some-injective g.1) g.2))
        (λ r t rs g. omega (
          arith,
          loop-GaveUp state req id context (suc iteration) left (messages ++ tool_turn r rs) t g,
        ))
        gave

  inbound_calls :
      (state : AppState) (req : ChatRequest) (id : String) (c : Converted)
      → length (after_inbound json net timestamp panics complete state req id c).1
        ≤ effective_max state
  unfolding after_inbound
  inbound_calls state req id (err e, context) = omega arith
  inbound_calls state req id (ok messages, context) =
      loop_calls state req id context 0 (effective_max state) messages _

  inbound-GaveUp :
      (state : AppState) (req : ChatRequest) (id : String) (c : Converted)
      → GaveUp (after_inbound json net timestamp panics complete state req id c)
      → length (after_inbound json net timestamp panics complete state req id c).1
        ≡ effective_max state
  unfolding after_inbound
  inbound-GaveUp state req id (err e, context) g = absurd (cc (g.1))
  inbound-GaveUp state req id (ok messages, context) g =
      loop-GaveUp state req id context 0 (effective_max state) messages _ g

  -- A completion calls the Core at most as often as the configured maximum of iterations and 25
  -- allow, and it answers that it gave up only after as many calls as that.
  pub chat-calls :
      (state : AppState) (req : ChatRequest) (id : String)
      → (length (chat json net timestamp panics complete state req id).1
          ≤ min state.max_tool_iterations 25)
        × (GaveUp (chat json net timestamp panics complete state req id)
            → length (chat json net timestamp panics complete state req id).1
              ≡ min state.max_tool_iterations 25)
  unfolding chat
  chat-calls state req id = (inbound_calls state req id _, inbound-GaveUp state req id _)

  inbound-Grows :
      (state : AppState) (req : ChatRequest) (id : String) (n : ℕ) (c : Converted)
      → ((ms : List Message) → c.0 ≡ ok ms → length ms ≡ n)
      → Grows n (after_inbound json net timestamp panics complete state req id c).1
  unfolding after_inbound
  inbound-Grows state req id n (err e, context) h = tt
  inbound-Grows state req id n (ok messages, context) h =
      subst
        (λ k.
          Grows k
            (after_inbound json net timestamp panics complete state req id
              (ok messages, context)).1)
        (h messages refl) (loop-Grows state req id context 0 (effective_max state) messages _)

  -- The first request to the Core has as many messages as the caller sent, and each further one has
  -- two more.
  pub chat-Grows :
      (state : AppState) (req : ChatRequest) (id : String)
      → Grows (length req.messages) (chat json net timestamp panics complete state req id).1
  unfolding chat
  chat-Grows state req id =
      inbound-Grows state req id (length req.messages) _
        (length-run_messages state.pipeline req.messages _)
