-- ===== src/Satellite/Adjudicator/Verdict.antt =====
-- When a proposal is accepted.
use intellisphere.Common.{
  String, ◌≡◌, refl, ap, ◌∙◌, Bool, false, ◌&&◌, Option, none, some, Result, ok, err, is_ok, leb,
  arith, Bool-cases, inl, inr,
}
use intellisphere.Common.Text.{str_len}
use intellisphere.Common.Float.{Float}
use intellisphere.Errors.{SphereError, filter_rejected}
use intellisphere.Pipeline.Context
use intellisphere.Pipeline.Context.{PipelineContext}
use intellisphere.Pipeline.Chain.{PipelineChain, run_inbound}
use intellisphere.Tools.Registry
use intellisphere.Tools.Registry.{ToolRegistry, ToolRegistration, is_satellite}
use intellisphere.Satellite.TrustBudget.{deduct}
use intellisphere.Satellite.Session.{SatelliteSession}
use intellisphere.Satellite.Adjudicator.{
  ToolProposal, max_result_bytes, proposal_message, judge_outcome, judge_payload, judge_tool,
  adjudicate, suspect,
}

abbrev pub in_satellite_zone : Option ToolRegistration → Bool
in_satellite_zone none = false
in_satellite_zone (some reg) = is_satellite reg.zone

module _ {F : Type 0} ⦃fl : Float F⦄ where
  accepted-judge_outcome :
      (r : Result (Unit {0}) SphereError) (s : SatelliteSession F)
      → (judge_outcome r s).0.accepted ≡ is_ok r
  unfolding judge_outcome
  accepted-judge_outcome (ok u) s = refl
  accepted-judge_outcome (err (filter_rejected f r)) s = refl
  accepted-judge_outcome (err _) s = refl

  accepted-judge_payload :
      (id : String) (p : ToolProposal) (chain : PipelineChain) (s : SatelliteSession F)
      → (judge_payload id p chain s).0.accepted ≡ (
          leb (str_len p.result_payload) max_result_bytes
          && is_ok (run_inbound chain (proposal_message p) (Context.new id s.session_id)).0)
  unfolding judge_payload suspect
  accepted-judge_payload id p chain s = ground (
    arith,
    accepted-judge_outcome (run_inbound chain (proposal_message p) (Context.new id s.session_id)).0
        s,
  )

  accepted-judge_tool :
      (id : String) (p : ToolProposal) (reg : Option ToolRegistration) (chain : PipelineChain)
      (s : SatelliteSession F)
      → (judge_tool id p reg chain s).0.accepted
        ≡ (in_satellite_zone reg && (judge_payload id p chain s).0.accepted)
  unfolding judge_tool suspect
  accepted-judge_tool id p none chain s = refl
  accepted-judge_tool id p (some reg) chain s = ground arith

  -- A proposal is accepted exactly when the budget is still positive after its cost, its tool is
  -- registered in the Satellite zone, its payload is at most 256 KiB and the inbound pipeline
  -- passes it.
  pub adjudicate-accepted :
      (id : String) (p : ToolProposal) (registry : ToolRegistry) (chain : PipelineChain)
      (s : SatelliteSession F)
      → (adjudicate id p registry chain s).0.accepted ≡ (
          (deduct (fl.nat 1) s.trust_budget).0
          && (in_satellite_zone (Registry.get p.tool_name registry)
              && (leb (str_len p.result_payload) max_result_bytes
                  && is_ok
                      (run_inbound chain (proposal_message p) (Context.new id s.session_id)).0)))
  unfolding adjudicate
  adjudicate-accepted id p registry chain s =
      elim (Bool-cases (deduct (fl.nat 1) s.trust_budget).0) [
        | inl positive ↦ rw positive (
            accepted-judge_tool id p (Registry.get p.tool_name registry) chain _
            ∙ ap (λ b. in_satellite_zone (Registry.get p.tool_name registry) && b)
                (accepted-judge_payload id p chain _))
        | inr spent ↦ rw spent
      ]
