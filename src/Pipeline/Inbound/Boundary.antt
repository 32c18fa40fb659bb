-- ===== src/Pipeline/Inbound/Boundary.antt =====
-- sphere/src/pipeline/inbound/conversation_boundary.rs
pub mod Turns
use intellisphere.Common.{
  ℕ, ◌+◌, ◌%◌, String, Option, none, some, Result, ok, err, ltb, unwrap_or, if◌then◌else◌,
}
use intellisphere.Common.Text.{◌<>◌, show_nat}
use intellisphere.Errors.{SphereError, filter_rejected}
use intellisphere.Proto.{Message}
use intellisphere.Pipeline.Context.{PipelineContext, Filtered, Filter}

pub record ConversationBoundaryFilter : Type 0 where
  pub max_turns : Option ℕ
  pub max_context_tokens : Option ℕ

abbrev pub filter_name : String
filter_name = "ConversationBoundary"

window_exceeded : ℕ → ℕ → SphereError
window_exceeded tokens max =
    filter_rejected filter_name
      ("Context window exceeded: " <> show_nat tokens <> " tokens (max " <> show_nat max <> ")")

check_window : Option ℕ → Option ℕ → Message → PipelineContext → Filtered
unfolding window_exceeded
check_window none tokens message context = (ok tt, message, context)
check_window (some max) none message context = (ok tt, message, context)
check_window (some max) (some tokens) message context =
    if ltb max tokens
    then (err (window_exceeded tokens max), message, context)
    else (ok tt, message, context)

too_many_turns : ℕ → ℕ → SphereError
too_many_turns count max =
    filter_rejected filter_name
      ("Session exceeded maximum turns: " <> show_nat count <> " (max " <> show_nat max <> ")")

-- The turn count is a `u32`, which wraps.
check_turns : ConversationBoundaryFilter → Option ℕ → Message → PipelineContext → Filtered
unfolding check_window too_many_turns
check_turns f none message context =
    check_window f.max_context_tokens context.session_token_count message context
check_turns f (some max) message context =
    let new_count : ℕ = (unwrap_or context.turn_count 0 + 1) % 4294967296 in
    let context' = record context { turn_count = some new_count } in
    if ltb max new_count
    then (err (too_many_turns new_count max), message, context')
    else check_window f.max_context_tokens context.session_token_count message context'

unfoldable pub apply : ConversationBoundaryFilter → Message → PipelineContext → Filtered
unfolding check_turns
apply f message context = check_turns f f.max_turns message context

abbrev pub filter : ConversationBoundaryFilter → Filter
filter f = record { name = filter_name; apply = apply f }
