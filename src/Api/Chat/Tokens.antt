-- ===== src/Api/Chat/Tokens.antt =====
-- What a completion reports of the tokens that it used.
use intellisphere.Common.{
  ℕ, zero, suc, ◌+◌, ◌%◌, ◌^◌, ◌<◌, String, ◌≡◌, sym, Bool, Option, none, some, List, [], ◌∷◌, ◌++◌,
  Result, ok, err, Option-cases, inl, inr, arith,
}
use intellisphere.Errors.{SphereError}
use intellisphere.Proto.{Message, ToolCall, CompletionRequest, CompletionResponse}
use intellisphere.Pipeline.Context.{PipelineContext, Filtered}
use intellisphere.Tools.Json.{JsonLib}
use intellisphere.Tools.ScopedClient.{Network}
use intellisphere.Api.Chat.Cases.{turn_cases}
use intellisphere.Api.Chat.{
  AppState, ChatRequest, ChatResponse, UsageResponse, Handled, Converted, request_of, count,
  finish_with, finish, gave_up, after_request, effective_max, tool_turn, tool_loop, after_inbound,
  chat,
}

-- The tokens that an answer of the Core counts.
abbrev pub input_of : Result CompletionResponse String → ℕ
input_of (err e) = 0
input_of (ok response) = elim response.usage [ none ↦ 0 | some usage ↦ usage.input_tokens ]

abbrev pub output_of : Result CompletionResponse String → ℕ
output_of (err e) = 0
output_of (ok response) = elim response.usage [ none ↦ 0 | some usage ↦ usage.output_tokens ]

abbrev Fits : UsageResponse → Type 0
Fits total = (total.input_tokens < 2 ^ 32) × (total.output_tokens < 2 ^ 32)

-- The counts with what is still to come.
abbrev pub Counts : UsageResponse → ℕ → ℕ → UsageResponse → Type 0
Counts total input output usage =
    (usage.input_tokens ≡ (total.input_tokens + input) % 2 ^ 32)
    × (usage.output_tokens ≡ (total.output_tokens + output) % 2 ^ 32)

count-Counts :
    (response : CompletionResponse) (total : UsageResponse)
    → Fits total
    → Fits (count response.usage total)
      × Counts total (input_of (ok response)) (output_of (ok response)) (count response.usage total)
unfolding count
count-Counts response total f = elim (Option-cases response.usage) [
  | inl e ↦ rw e (omega arith)
  | inr (usage, e) ↦ rw e (omega arith)
]

finish_usage :
    (response : CompletionResponse) (total : UsageResponse) (f : Filtered) (r : ChatResponse)
    → finish_with response total f ≡ ok r
    → r.usage ≡ total
unfolding finish_with
finish_usage response total (err e, m, context) r h = cc
finish_usage response total (ok u, m, context) r h = cc

some_inj : {A : Type 0} {a b : A} → some a ≡ some b → a ≡ b
some_inj h = cc

usage_same :
    (a r : ChatResponse)
    → ◌≡◌ {A = Option (Result ChatResponse SphereError)} (some (ok a)) (some (ok r))
    → a.usage ≡ r.usage
usage_same a r h = cc

module _ {Val : Type 0} (json : JsonLib Val) (net : ℕ → ℕ → Network) (timestamp : ℕ → ℕ → String)
    (panics : ℕ → ℕ → ToolCall → Bool)
    (complete : ℕ → CompletionRequest → Result CompletionResponse String) where
  -- The sums over the answers to the requests from the i-th on.
  abbrev pub input_sum : ℕ → List CompletionRequest → ℕ
  input_sum i [] = 0
  input_sum i (q ∷ qs) = input_of (complete i q) + input_sum (suc i) qs

  abbrev pub output_sum : ℕ → List CompletionRequest → ℕ
  output_sum i [] = 0
  output_sum i (q ∷ qs) = output_of (complete i q) + output_sum (suc i) qs

  abbrev Reported : ℕ → UsageResponse → Handled → Type 0
  Reported i total h =
      (r : ChatResponse)
      → h.0 ≡ some (ok r)
      → Counts total (input_sum i h.1) (output_sum i h.1) r.usage

  -- The counts at the end.
  none_more : (total usage : UsageResponse) → Fits total → total ≡ usage → Counts total 0 0 usage
  none_more total usage f e = rw (← e) (omega arith)

  -- What comes after an answer that was counted.
  counted :
      (i : ℕ) (total total' usage : UsageResponse) (input output more_in more_out : ℕ)
      → Counts total input output total'
      → Counts total' more_in more_out usage
      → Counts total (input + more_in) (output + more_out) usage
  counted i total total' usage input output more_in more_out c d = omega (arith, c, d)

  done_usage :
      (state : AppState) (context : PipelineContext) (response : CompletionResponse)
      (total : UsageResponse) (r : ChatResponse)
      → finish state context response total ≡ ok r
      → r.usage ≡ total
  unfolding finish
  done_usage state context response total r h = finish_usage response total _ r h

  loop-Reported :
      (state : AppState) (req : ChatRequest) (id : String) (context : PipelineContext) (i left : ℕ)
      (messages : List Message) (total : UsageResponse)
      → Fits total
      → Reported i total
          (tool_loop json net timestamp panics complete state req id context i left messages total)
  unfolding tool_loop gave_up
  loop-Reported state req id context i zero messages total f =
      λ r h. none_more total r.usage f (usage_same _ r h)
  loop-Reported state req id context i (suc left) messages total f =
      let q = request_of state req id messages in
      turn_cases json net timestamp panics complete (λ h. Reported i total (after_request q h))
        state context i total (complete i q) _ (λ r h. cc) (λ e failed r h. cc)
        (λ response answered done r h.
          let (fits, counts) = count-Counts response total f in
          rw answered (
            counted i total (count response.usage total) r.usage _ _ _ _ counts (
              none_more (count response.usage total) r.usage fits
                (sym (done_usage state context response _ r (some_inj h))))))
        (λ response results answered tools r h.
          let (fits, counts) = count-Counts response total f in
          rw answered (
            counted i total (count response.usage total) r.usage _ _ _ _ counts (
              loop-Reported state req id context (suc i) left
                (messages ++ tool_turn response results) (count response.usage total) fits r h)))

  start_Reported :
      (state : AppState) (req : ChatRequest) (id : String) (c : Converted)
      → Reported 0
          (record { input_tokens = 0; output_tokens = 0 })
          (after_inbound json net timestamp panics complete state req id c)
  unfolding after_inbound
  start_Reported state req id (err e, context) = λ r h. cc
  start_Reported state req id (ok messages, context) =
      loop-Reported state req id context 0 (effective_max state) messages _ (omega arith)

  -- A completion reports the tokens of all the Core's answers, those by tool calls included: the
  -- sums of what the answers to the requests that it sent count, as i32 sums wrap, where an answer
  -- without counts adds nothing.
  pub chat_usage :
      (state : AppState) (req : ChatRequest) (id : String) (r : ChatResponse)
      → (chat json net timestamp panics complete state req id).0 ≡ some (ok r)
      → (r.usage.input_tokens
          ≡ input_sum 0 (chat json net timestamp panics complete state req id).1 % 2 ^ 32)
        × (r.usage.output_tokens
            ≡ output_sum 0 (chat json net timestamp panics complete state req id).1 % 2 ^ 32)
  unfolding chat
  chat_usage state req id r h = omega (arith, start_Reported state req id _ r h)
