-- ===== src/Pipeline/Chain/Refusals.antt =====
-- What a configured inbound chain refuses.
use intellisphere.Common.{
  String, ◌≡◌, refl, ◌∙◌, Bool, true, false, ◌&&◌, ok, err, arith, if◌then◌else◌,
}
use intellisphere.Config.{PipelineConfig}
use intellisphere.Errors.{filter_rejected}
use intellisphere.Proto.{Message}
use intellisphere.Pipeline.Context.{PipelineContext, Filtered, Filter}
use intellisphere.Pipeline.Regex.{RegexEngine}
use intellisphere.Pipeline.Inbound.Sanitization
use intellisphere.Pipeline.Inbound.Sanitization.{has_null}
use intellisphere.Pipeline.Inbound.Sanitization.Clean.{result-apply}
use intellisphere.Pipeline.Chain.{push_if, run_filters, from_config, run_inbound}
use intellisphere.Pipeline.Chain.Runs.{after}

-- A chain of one filter returns what that filter returns.
after_one : (r : Filtered) → (after r (λ m ctx. (ok tt, m, ctx))).0 ≡ r.0
after_one (ok u, m, ctx) = refl
after_one (err e, m, ctx) = refl

one_or_none :
    (b : Bool) (f : Filter) (m : Message) (ctx : PipelineContext)
    → (run_filters (push_if b f) m ctx).0 ≡ (if b then (f.apply m ctx).0 else ok tt)
unfolding run_filters
one_or_none true f m ctx = after_one (f.apply m ctx)
one_or_none false f m ctx = refl

pub run_inbound-result :
    (re : RegexEngine) (lower : String → String) (config : PipelineConfig) (m : Message)
    (ctx : PipelineContext)
    → (run_inbound (from_config re lower config) m ctx).0 ≡ (
        if config.input_sanitization.enabled
          && (config.input_sanitization.reject_null_bytes && has_null m.content)
        then err (filter_rejected "InputSanitization" "Input contains null bytes")
        else ok tt)
unfolding run_inbound from_config
run_inbound-result re lower config m ctx =
    one_or_none config.input_sanitization.enabled (Sanitization.filter config.input_sanitization) m
      ctx
    ∙ ground (arith, result-apply config.input_sanitization m ctx)

if_all :
    {A : Type 0} (a b c : Bool) (x y : A)
    → a ≡ true
    → b ≡ true
    → c ≡ true
    → (if a && (b && c) then x else y) ≡ x
if_all a b c x y p q r = rw (p, q, r)

pub run_inbound-null :
    (re : RegexEngine) (lower : String → String) (config : PipelineConfig) (m : Message)
    (ctx : PipelineContext)
    → config.input_sanitization.enabled ≡ true
    → config.input_sanitization.reject_null_bytes ≡ true
    → has_null m.content ≡ true
    → (run_inbound (from_config re lower config) m ctx).0
      ≡ err (filter_rejected "InputSanitization" "Input contains null bytes")
run_inbound-null re lower config m ctx on reject null =
    run_inbound-result re lower config m ctx
    ∙ if_all config.input_sanitization.enabled config.input_sanitization.reject_null_bytes
        (has_null m.content) (err (filter_rejected "InputSanitization" "Input contains null bytes"))
        (ok tt) on reject null
