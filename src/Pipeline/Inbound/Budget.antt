-- ===== src/Pipeline/Inbound/Budget.antt =====
-- sphere/src/pipeline/inbound/token_budget.rs
pub mod Session
use intellisphere.Common.{
  ℕ, ◌+◌, ◌*◌, ◌/◌, ◌%◌, ◌^◌, String, Option, none, some, Result, ok, err, min, ltb, unwrap_or,
  if◌then◌else◌,
}
use intellisphere.Common.Text.{◌<>◌, show_nat, str_len}
use intellisphere.Errors.{SphereError, filter_rejected}
use intellisphere.Proto.{Message}
use intellisphere.Pipeline.Context.{PipelineContext, Filtered, Filter}

pub record TokenBudgetFilter : Type 0 where
  pub max_input_tokens : Option ℕ
  pub max_session_tokens : Option ℕ

abbrev pub filter_name : String
filter_name = "TokenBudget"

-- `(len as f64 / 4.0).ceil() as u32`, which saturates; the quotient is exact below 2 ^ 53 bytes.
unfoldable pub estimate_tokens : String → ℕ
estimate_tokens text = min ((str_len text + 3) / 4) 4294967295

-- The check of the session's budget; a `u64` sum wraps.
charge_session : ℕ → Option ℕ → Message → PipelineContext → Filtered
charge_session estimated none message context = (ok tt, message, context)
charge_session estimated (some max_session) message context =
    let new_total : ℕ =
      (unwrap_or context.session_token_count 0 + estimated) % 18446744073709551616 in
    let context' = record context { session_token_count = some new_total } in
    if ltb max_session new_total
    then (
      err (
          filter_rejected filter_name (
            "Session token budget exceeded: "
            <> show_nat new_total
            <> " tokens (max "
            <> show_nat max_session
            <> ")")),
      message,
      context',
    )
    else (ok tt, message, context')

over_input : ℕ → ℕ → SphereError
over_input estimated max = filter_rejected filter_name (
    "Input exceeds token budget: ~" <> show_nat estimated <> " tokens (max " <> show_nat max <> ")")

check_input : TokenBudgetFilter → ℕ → Option ℕ → Message → PipelineContext → Filtered
unfolding charge_session over_input
check_input f estimated none message context =
    charge_session estimated f.max_session_tokens message context
check_input f estimated (some max) message context =
    if ltb max estimated
    then (err (over_input estimated max), message, context)
    else charge_session estimated f.max_session_tokens message context

unfoldable pub apply : TokenBudgetFilter → Message → PipelineContext → Filtered
unfolding check_input
apply f message context =
    let estimated = estimate_tokens message.content in
    check_input f estimated f.max_input_tokens message
      (record context { input_token_count = some estimated })

abbrev pub filter : TokenBudgetFilter → Filter
filter f = record { name = filter_name; apply = apply f }
