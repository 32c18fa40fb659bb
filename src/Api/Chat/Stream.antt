-- ===== src/Api/Chat/Stream.antt =====
-- Streamed answers and the outbound pipeline.
use intellisphere.Common.{ℕ, String, ◌≡◌, refl, List, [], ◌∷◌, Result, ok, err}
use intellisphere.Proto.{CompletionRequest, CompletionChunk}
use intellisphere.Pipeline.Context.{Filter}
use intellisphere.Pipeline.Chain.{PipelineChain, run_inbound}
use intellisphere.Api.Chat.{
  AppState, Converted, push, plain, ChatMessage, ChatRequest, run_messages, request_of, chat_stream,
  build_tool_defs,
}
use intellisphere.Pipeline.Context.{PipelineContext, Filtered}

-- The state with other outbound filters.
abbrev pub with_outbound : List Filter → AppState → AppState
with_outbound fs state = record state { pipeline = record state.pipeline { outbound_filters = fs } }

first_congr :
    (f : Filtered) (rest rest' : PipelineContext → Converted)
    → ((context : PipelineContext) → rest context ≡ rest' context)
    → elim f.0 as (λ x. Converted) [ ok u ↦ push f.1 (rest f.2) | err e ↦ (err e, f.2) ]
      ≡ elim f.0 as (λ x. Converted) [ ok u ↦ push f.1 (rest' f.2) | err e ↦ (err e, f.2) ]
first_congr (ok u, m, k) rest rest' h = rw (h k)
first_congr (err e, m, k) rest rest' h = refl

run_messages-outbound :
    (fs : List Filter) (chain : PipelineChain) (msgs : List ChatMessage) (context : PipelineContext)
    → run_messages (record chain { outbound_filters = fs }) msgs context
      ≡ run_messages chain msgs context
unfolding run_messages run_inbound
run_messages-outbound fs chain [] context = refl
run_messages-outbound fs chain (msg ∷ msgs) context =
    first_congr (run_inbound chain (plain msg.role msg.content) context)
      (run_messages (record chain { outbound_filters = fs }) msgs) (run_messages chain msgs)
      (run_messages-outbound fs chain msgs)

-- A streamed completion is the same whatever outbound filters are configured: the leak detection,
-- the size limit and the rest never see it.
pub chat_stream-outbound :
    (complete_stream : CompletionRequest → Result (List (Result CompletionChunk String)) String)
    (event_data : String → ℕ → String) (fs : List Filter) (state : AppState) (req : ChatRequest)
    (id : String)
    → chat_stream complete_stream event_data (with_outbound fs state) req id
      ≡ chat_stream complete_stream event_data state req id
unfolding chat_stream request_of build_tool_defs
chat_stream-outbound complete_stream event_data fs state req id =
    rw (run_messages-outbound fs state.pipeline req.messages)
