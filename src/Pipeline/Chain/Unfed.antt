-- ===== src/Pipeline/Chain/Unfed.antt =====
-- The filters that read what no configured inbound filter writes.
use intellisphere.Common.{ℕ, String, ◌≡◌, refl, Bool, true, false, none, List, ◌∙◌, All, ◌++◌}
use intellisphere.Config.{PipelineConfig}
use intellisphere.Proto.{Message}
use intellisphere.Pipeline.Context.{PipelineContext, Filter, get_annotations}
use intellisphere.Pipeline.Regex.{RegexEngine}
use intellisphere.Pipeline.Inbound.Sanitization.Clean.{apply_rejects}
use intellisphere.Pipeline.Chain.{
  push_if, inbound_of, run_filters, from_config, run_inbound, run_outbound,
}
use intellisphere.Pipeline.Chain.Runs.{run_filters-skip, run_filters_inv, run_filters-congr}
use intellisphere.Pipeline.Outbound.ResultSize
use intellisphere.Pipeline.Outbound.ResultSize.Bounds.{annotations-apply}
use intellisphere.Pipeline.Outbound.LeakDetection.Verdict.{annotations-redact}
use intellisphere.Pipeline.Outbound.LeakDetection
use intellisphere.Pipeline.Outbound.InjectionEcho
use intellisphere.Pipeline.Outbound.InjectionEcho.Quiet.{apply_unflagged}

keeps_if :
    (P : PipelineContext → Type 0) (b : Bool) (f : Filter)
    → ((m : Message) (ctx : PipelineContext) → P ctx → P (f.apply m ctx).2)
    → All (λ g. (m : Message) (ctx : PipelineContext) → P ctx → P (g.apply m ctx).2) (push_if b f)
keeps_if P true f h = (h, tt)
keeps_if P false f h = tt

inbound_keeps :
    (config : PipelineConfig) (ctx : PipelineContext)
    → All
        (λ f. (m : Message) (c : PipelineContext) → c ≡ ctx → (f.apply m c).2 ≡ ctx)
        (inbound_of config)
unfolding inbound_of
inbound_keeps config ctx =
    keeps_if (λ c. c ≡ ctx) config.input_sanitization.enabled _
      (λ m c h. (apply_rejects config.input_sanitization m c).1 ∙ h)

-- No configured inbound chain writes to the context.
pub run_inbound-context :
    (re : RegexEngine) (lower : String → String) (config : PipelineConfig) (m : Message)
    (ctx : PipelineContext)
    → (run_inbound (from_config re lower config) m ctx).2 ≡ ctx
unfolding run_inbound from_config
run_inbound-context re lower config m ctx =
    run_filters_inv (λ c. c ≡ ctx) (inbound_of config) (inbound_keeps config ctx) m ctx refl

-- Nothing has been flagged for the echo filter.
abbrev pub Unflagged : PipelineContext → Type 0
Unflagged ctx = get_annotations ctx "injection_patterns" ≡ none

size-Unflagged :
    (n : ℕ) (m : Message) (ctx : PipelineContext)
    → Unflagged ctx
    → Unflagged (ResultSize.apply (record { max_chars = n }) m ctx).2
size-Unflagged n m ctx h =
    annotations-apply (record { max_chars = n }) m ctx "injection_patterns" refl ∙ h

leak-Unflagged :
    (re : RegexEngine) (m : Message) (ctx : PipelineContext)
    → Unflagged ctx
    → Unflagged (LeakDetection.apply re (LeakDetection.new LeakDetection.redact) m ctx).2
leak-Unflagged re m ctx h = annotations-redact re _ m ctx "injection_patterns" refl ∙ h

echo_skipped :
    (lower : String → String) (b : Bool) (fs : List Filter) (m : Message) (ctx : PipelineContext)
    → Unflagged ctx
    → run_filters (push_if b (InjectionEcho.filter lower InjectionEcho.flag) ++ fs) m ctx
      ≡ run_filters fs m ctx
echo_skipped lower true fs m ctx h =
    run_filters-skip (InjectionEcho.filter lower InjectionEcho.flag) fs m ctx
      (apply_unflagged lower InjectionEcho.flag m ctx h)
echo_skipped lower false fs m ctx h = refl

-- The configuration without the echo filter.
abbrev pub without_echo : PipelineConfig → PipelineConfig
without_echo config = record config { outbound = record config.outbound { injection_echo = false } }

-- On a context in which no injection pattern is flagged, the configured outbound chain does the
-- same with the injection echo filter as without it.
pub run_outbound-without_echo :
    (re : RegexEngine) (lower : String → String) (config : PipelineConfig) (m : Message)
    (ctx : PipelineContext)
    → Unflagged ctx
    → run_outbound (from_config re lower config) m ctx
      ≡ run_outbound (from_config re lower (without_echo config)) m ctx
unfolding run_outbound from_config
run_outbound-without_echo re lower config m ctx h =
    run_filters-congr Unflagged _ _ _
      (keeps_if Unflagged config.outbound.result_size.enabled _
        (size-Unflagged config.outbound.result_size.max_chars))
      (run_filters-congr Unflagged _ _ _
        (keeps_if Unflagged config.outbound.pii_leak_detection _ (leak-Unflagged re))
        (echo_skipped lower config.outbound.injection_echo _))
      m ctx h
