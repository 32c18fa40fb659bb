-- ===== src/Pipeline/Chain.antt =====
-- sphere/src/pipeline/chain.rs. The filters' own patterns are taken to compile.
pub mod Runs
pub mod Unfed
pub mod Refusals
use intellisphere.Common.{
  ℕ, String, Bool, true, false, List, [], ◌∷◌, ◌++◌, Result, ok, err, if◌then◌else◌,
}
use intellisphere.Config.{PipelineConfig}
use intellisphere.Errors.{SphereError}
use intellisphere.Proto.{Message}
use intellisphere.Pipeline.Context.{PipelineContext, Filtered, Filter}
use intellisphere.Pipeline.Regex.{RegexEngine}
use intellisphere.Pipeline.Inbound.Sanitization
use intellisphere.Pipeline.Outbound.ResultSize
use intellisphere.Pipeline.Outbound.LeakDetection
use intellisphere.Pipeline.Outbound.InjectionEcho
use intellisphere.Pipeline.Outbound.ResponseClassifier
use intellisphere.Pipeline.Outbound.Hallucination

pub record PipelineChain : Type 0 where
  pub inbound_filters : List Filter
  pub outbound_filters : List Filter

abbrev pub push_if : Bool → Filter → List Filter
push_if b f = if b then f ∷ [] else []

unfoldable pub inbound_of : PipelineConfig → List Filter
inbound_of config =
    push_if config.input_sanitization.enabled (Sanitization.filter config.input_sanitization)

unfoldable pub outbound_of : RegexEngine → (String → String) → PipelineConfig → List Filter
outbound_of re to_lowercase config =
    push_if config.outbound.result_size.enabled
      (ResultSize.filter (record { max_chars = config.outbound.result_size.max_chars }))
    ++ (push_if config.outbound.pii_leak_detection
          (LeakDetection.filter re (LeakDetection.new LeakDetection.redact))
        ++ (push_if config.outbound.injection_echo
              (InjectionEcho.filter to_lowercase InjectionEcho.flag)
            ++ (push_if config.outbound.response_classifier (
                  ResponseClassifier.filter re
                    (ResponseClassifier.classifier ResponseClassifier.flag []))
                ++ push_if config.outbound.hallucination_flag (Hallucination.filter re))))

unfoldable pub from_config : RegexEngine → (String → String) → PipelineConfig → PipelineChain
unfolding inbound_of outbound_of
from_config re to_lowercase config = record {
  inbound_filters = inbound_of config;
  outbound_filters = outbound_of re to_lowercase config;
}

-- The loop of `run_inbound` and of `run_outbound`: the first error ends it.
unfoldable pub run_filters : List Filter → Message → PipelineContext → Filtered
run_filters [] message context = (ok tt, message, context)
run_filters (f ∷ fs) message context =
    let (result, message', context') = f.apply message context in
    elim result [ ok u ↦ run_filters fs message' context' | err e ↦ (err e, message', context') ]

unfoldable pub run_inbound : PipelineChain → Message → PipelineContext → Filtered
run_inbound chain = run_filters chain.inbound_filters

unfoldable pub run_outbound : PipelineChain → Message → PipelineContext → Filtered
run_outbound chain = run_filters chain.outbound_filters
