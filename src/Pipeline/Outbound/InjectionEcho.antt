-- ===== src/Pipeline/Outbound/InjectionEcho.antt =====
-- sphere/src/pipeline/outbound/injection_echo.rs
pub mod Quiet
pub mod Fed
use intellisphere.Common.{
  ℕ, String, Bool, true, false, Option, none, some, List, [], ◌∷◌, ◌++◌, Result, ok, err, retain,
  is_empty, map, if◌then◌else◌,
}
use intellisphere.Common.Text.{◌<>◌, join, contains}
use intellisphere.Errors.{SphereError, outbound_rejected}
use intellisphere.Proto.{Message}
use intellisphere.Pipeline.Context.{
  PipelineContext, Filtered, Filter, get_annotations, annotate_all,
}

pub data InjectionEchoAction : Type 0 where
  block flag log : InjectionEchoAction

abbrev pub filter_name : String
filter_name = "InjectionEcho"

abbrev pub echo_indicators : List String
echo_indicators =
    "ignore previous" ∷ "new instructions" ∷ "i am now" ∷ "i will now" ∷ "as dan" ∷ "entering"
    ∷ "switching to" ∷ "override accepted" ∷ "new persona" ∷ "jailbreak" ∷ "bypass" ∷ []

module _ (to_lowercase : String → String) where
  -- The indicators that the lower-cased content contains, then the flagged names that it repeats.
  unfoldable pub matched_indicators : String → List String → List String
  matched_indicators content_lower patterns =
      retain (contains content_lower) echo_indicators
      ++ map (λ name. "pattern_echo:" <> name)
          (retain (λ name. contains content_lower (to_lowercase name)) patterns)

  decide_action : InjectionEchoAction → List String → Message → PipelineContext → Filtered
  decide_action block matched message context = (
    err (
        outbound_rejected
          ("Response appears to execute injected instructions: " <> join ", " matched)),
    message,
    context,
  )
  decide_action flag matched message context =
      (ok tt, message, annotate_all context "injection_echo_detected" matched)
  decide_action log matched message context = (ok tt, message, context)

  check_echo : InjectionEchoAction → Option (List String) → Message → PipelineContext → Filtered
  unfolding decide_action
  check_echo action none message context = (ok tt, message, context)
  check_echo action (some patterns) message context =
      let matched = matched_indicators (to_lowercase message.content) patterns in
      if is_empty patterns
      then (ok tt, message, context)
      else if is_empty matched
      then (ok tt, message, context)
      else decide_action action matched message context

  unfoldable pub apply : InjectionEchoAction → Message → PipelineContext → Filtered
  unfolding check_echo
  apply action message context =
      check_echo action (get_annotations context "injection_patterns") message context

  abbrev pub filter : InjectionEchoAction → Filter
  filter action = record { name = filter_name; apply = apply action }
