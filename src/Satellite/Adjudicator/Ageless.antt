-- ===== src/Satellite/Adjudicator/Ageless.antt =====
-- The end of a session and adjudication (`Adjudicator::adjudicate`).
use intellisphere.Common.{
  ℕ, String, ◌≡◌, refl, inl, inr, Option, none, some, Result, ok, err, ltb, Bool-cases,
}
use intellisphere.Common.Text.{str_len}
use intellisphere.Common.Float.{Float}
use intellisphere.Errors.{SphereError, filter_rejected}
use intellisphere.Pipeline.Chain.{PipelineChain}
use intellisphere.Tools.Registry
use intellisphere.Tools.Registry.{ToolRegistry, ToolRegistration, is_satellite}
use intellisphere.Satellite.TrustBudget.{deduct}
use intellisphere.Satellite.Session.{SatelliteSession}
use intellisphere.Satellite.Adjudicator.{
  ToolProposal, AdjudicationResult, max_result_bytes, judge_outcome, judge_payload, judge_tool,
  adjudicate,
}

-- The session with another end.
abbrev pub until : {F : Type 0} → ℕ → SatelliteSession F → SatelliteSession F
until t s = record s { expires_at = t }

module _ {F : Type 0} ⦃fl : Float F⦄ (t : ℕ) where
  abbrev later : AdjudicationResult × SatelliteSession F → AdjudicationResult × SatelliteSession F
  later (result, s) = (result, until t s)

  judge_outcome-until :
      (r : Result (Unit {0}) SphereError) (s : SatelliteSession F)
      → judge_outcome r (until t s) ≡ later (judge_outcome r s)
  unfolding judge_outcome
  judge_outcome-until (ok u) s = refl
  judge_outcome-until (err (filter_rejected f r)) s = refl
  judge_outcome-until (err _) s = refl

  judge_payload-until :
      (id : String) (p : ToolProposal) (chain : PipelineChain) (s : SatelliteSession F)
      → judge_payload id p chain (until t s) ≡ later (judge_payload id p chain s)
  unfolding judge_payload
  judge_payload-until id p chain s =
      elim (Bool-cases (ltb max_result_bytes (str_len p.result_payload))) [
        | inl e ↦ rw e refl
        | inr e ↦ rw e (judge_outcome-until _ s)
      ]

  judge_tool-until :
      (id : String) (p : ToolProposal) (reg : Option ToolRegistration) (chain : PipelineChain)
      (s : SatelliteSession F)
      → judge_tool id p reg chain (until t s) ≡ later (judge_tool id p reg chain s)
  unfolding judge_tool
  judge_tool-until id p none chain s = refl
  judge_tool-until id p (some reg) chain s = elim (Bool-cases (is_satellite reg.zone)) [
    | inl e ↦ rw e (judge_payload-until id p chain s)
    | inr e ↦ rw e refl
  ]

  -- The verdict, the charge and the suspicion are the same whenever the session ends.
  pub adjudicate-until :
      (id : String) (p : ToolProposal) (registry : ToolRegistry) (chain : PipelineChain)
      (s : SatelliteSession F)
      → adjudicate id p registry chain (until t s)
        ≡ ((adjudicate id p registry chain s).0, until t (adjudicate id p registry chain s).1)
  unfolding adjudicate
  adjudicate-until id p registry chain s = elim (Bool-cases (deduct (fl.nat 1) s.trust_budget).0) [
    | inl positive ↦ rw positive (judge_tool-until id p (Registry.get p.tool_name registry) chain _)
    | inr spent ↦ rw spent refl
  ]
