-- ===== src/Pipeline/Outbound/InjectionEcho/Quiet.antt =====
-- When the echo filter has nothing to look for.
use intellisphere.Common.{String, ◌≡◌, none, ok}
use intellisphere.Proto.{Message}
use intellisphere.Pipeline.Context.{PipelineContext, get_annotations}
use intellisphere.Pipeline.Outbound.InjectionEcho.{InjectionEchoAction, check_echo, apply}

pub apply_unflagged :
    (lower : String → String) (action : InjectionEchoAction) (m : Message) (ctx : PipelineContext)
    → get_annotations ctx "injection_patterns" ≡ none
    → apply lower action m ctx ≡ (ok tt, m, ctx)
unfolding apply
apply_unflagged lower action m ctx h = rw (h, check_echo)
