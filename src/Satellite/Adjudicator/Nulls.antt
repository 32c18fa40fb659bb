-- ===== src/Satellite/Adjudicator/Nulls.antt =====
-- What a payload that the sanitizer refuses costs its session.
use intellisphere.Common.{◌≤◌, String, ◌≡◌, refl, true, false, some, ltb, arith}
use intellisphere.Common.Text.{str_len}
use intellisphere.Common.Float.{Float}
use intellisphere.Config.{PipelineConfig}
use intellisphere.Pipeline.Context
use intellisphere.Pipeline.Regex.{RegexEngine}
use intellisphere.Pipeline.Inbound.Sanitization.{has_null}
use intellisphere.Pipeline.Chain.{from_config}
use intellisphere.Pipeline.Chain.Refusals.{run_inbound-null}
use intellisphere.Tools.Registry
use intellisphere.Tools.Registry.{ToolRegistry, ToolRegistration, is_satellite}
use intellisphere.Satellite.TrustBudget.{deduct, add_suspicion}
use intellisphere.Satellite.Session.{SatelliteSession}
use intellisphere.Satellite.Adjudicator.{
  ToolProposal, max_result_bytes, proposal_message, judge_tool, adjudicate,
}

not_over :
    (p : ToolProposal)
    → str_len p.result_payload ≤ max_result_bytes
    → ltb max_result_bytes (str_len p.result_payload) ≡ false
not_over p h = ground arith

module _ {F : Type 0} ⦃fl : Float F⦄ where
  -- Where the configured sanitizer refuses nulls, a proposal that passes the first three steps and
  -- whose payload has a null is rejected, and its session's suspicion grows by 0.2, as for any other
  -- failed adjudication, and not by the 0.5 of an injection.
  pub adjudicate_null :
      (id : String) (p : ToolProposal) (registry : ToolRegistry) (re : RegexEngine)
      (lower : String → String) (config : PipelineConfig) (s : SatelliteSession F)
      (tool : ToolRegistration)
      → config.input_sanitization.enabled ≡ true
      → config.input_sanitization.reject_null_bytes ≡ true
      → has_null p.result_payload ≡ true
      → (deduct (fl.nat 1) s.trust_budget).0 ≡ true
      → Registry.get p.tool_name registry ≡ some tool
      → is_satellite tool.zone ≡ true
      → str_len p.result_payload ≤ max_result_bytes
      → ((adjudicate id p registry (from_config re lower config) s).0.accepted ≡ false)
        × ((adjudicate id p registry (from_config re lower config) s).1.trust_budget.suspicion_score
            ≡ fl.add s.trust_budget.suspicion_score (fl.tenths 2))
  unfolding adjudicate add_suspicion deduct
  adjudicate_null id p registry re lower config s tool on reject null positive found zone small =
      rw
        (
          positive,
          found,
          judge_tool,
          zone,
          not_over p small,
          run_inbound-null re lower config (proposal_message p) (Context.new id s.session_id) on
              reject null,
        )
        (refl, refl)
