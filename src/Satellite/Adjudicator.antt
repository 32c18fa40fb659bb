-- ===== src/Satellite/Adjudicator.antt =====
-- sphere/src/satellite/adjudicator.rs
pub mod Verdict
pub mod Wear
pub mod Ageless
pub mod Nulls
pub mod Lifetime
use intellisphere.Common.{
  ℕ, String, Bool, true, false, not, Option, none, some, List, [], ◌∷◌, Result, ok, err, ltb,
  if◌then◌else◌,
}
use intellisphere.Common.Text.{◌<>◌, show_nat, str_len, contains}
use intellisphere.Common.Float.{Float}
use intellisphere.Errors.{
  SphereError, auth_error, rate_limited, filter_rejected, core_unavailable, core_error, tool_error,
  outbound_rejected, policy_violation, internal, error_text,
}
use intellisphere.Proto.{Message}
use intellisphere.Pipeline.Context
use intellisphere.Pipeline.Context.{PipelineContext}
use intellisphere.Pipeline.Chain.{PipelineChain, run_inbound}
use intellisphere.Tools.Registry
use intellisphere.Tools.Registry.{ToolRegistry, ToolRegistration, is_satellite}
use intellisphere.Satellite.TrustBudget.{
  TrustBudget, deduct, add_suspicion, suspicion_unregistered_tool, suspicion_oversized,
  suspicion_adjudication_failure, suspicion_injection,
}
use intellisphere.Satellite.Session.{SatelliteSession}

abbrev pub max_result_bytes : ℕ
max_result_bytes = 262144

pub record ToolProposal : Type 0 where
  pub tool_name : String
  pub result_payload : String

pub record AdjudicationResult : Type 0 where
  pub accepted : Bool
  pub reason : Option String

abbrev pub accepted_result : AdjudicationResult
accepted_result = record { accepted = true; reason = none }

abbrev pub rejected : String → AdjudicationResult
rejected reason = record { accepted = false; reason = some reason }

abbrev pub proposal_message : ToolProposal → Message
proposal_message p = record {
  role = "tool";
  content = p.result_payload;
  tool_results = [];
  tool_calls = [];
}

module _ {F : Type 0} ⦃fl : Float F⦄ where
  -- `session.trust_budget.add_suspicion(amount)`, and a rejection.
  suspect : F → String → SatelliteSession F → AdjudicationResult × SatelliteSession F
  suspect amount reason s =
      (rejected reason, record s { trust_budget = (add_suspicion amount s.trust_budget).1 })

  abbrev rejection_amount : String → F
  rejection_amount filter =
      if contains filter "sanitiz" then suspicion_injection else suspicion_adjudication_failure

  -- Step 4, on what the inbound pipeline returned.
  judge_outcome :
      Result (Unit {0}) SphereError → SatelliteSession F → AdjudicationResult × SatelliteSession F
  unfolding suspect
  judge_outcome (ok u) s = (accepted_result, s)
  judge_outcome (err (filter_rejected filter reason)) s =
      suspect (rejection_amount filter) ("inbound filter '" <> filter <> "' rejected: " <> reason) s
  judge_outcome (err e) s =
      suspect suspicion_adjudication_failure ("pipeline error: " <> error_text e) s

  -- Steps 3 and 4.
  judge_payload :
      String
      → ToolProposal
      → PipelineChain
      → SatelliteSession F
      → AdjudicationResult × SatelliteSession F
  unfolding judge_outcome
  judge_payload request_id p pipeline s =
      if ltb max_result_bytes (str_len p.result_payload)
      then suspect suspicion_oversized
          ("result payload exceeds maximum size ("
            <> show_nat (str_len p.result_payload)
            <> " > "
            <> show_nat max_result_bytes
            <> " bytes)")
          s
      else judge_outcome
          (run_inbound pipeline (proposal_message p) (Context.new request_id s.session_id)).0 s

  -- Step 2, on what the registry returned.
  judge_tool :
      String
      → ToolProposal
      → Option ToolRegistration
      → PipelineChain
      → SatelliteSession F
      → AdjudicationResult × SatelliteSession F
  unfolding judge_payload
  judge_tool request_id p none pipeline s =
      suspect suspicion_unregistered_tool ("tool '" <> p.tool_name <> "' is not registered") s
  judge_tool request_id p (some reg) pipeline s =
      if not (is_satellite reg.zone)
      then suspect suspicion_unregistered_tool
          ("tool '" <> p.tool_name <> "' is not in the Satellite zone") s
      else judge_payload request_id p pipeline s

  -- `request_id` is the fresh UUID of the pipeline's context.
  unfoldable pub adjudicate :
      String
      → ToolProposal
      → ToolRegistry
      → PipelineChain
      → SatelliteSession F
      → AdjudicationResult × SatelliteSession F
  unfolding judge_tool
  adjudicate request_id p registry pipeline s =
      let (positive, budget) = deduct (fl.nat 1) s.trust_budget in
      let s' : SatelliteSession F = record s { trust_budget = budget } in
      if not positive
      then (rejected "trust budget exhausted", s')
      else judge_tool request_id p (Registry.get p.tool_name registry) pipeline s'
