-- ===== src/Satellite/Adjudicator/Wear.antt =====
-- What adjudication does to the session.
use intellisphere.Common.{
  String, ◌≡◌, refl, inl, inr, true, Option, none, some, Result, ok, err, ltb, arith, Bool-cases,
}
use intellisphere.Common.Text.{str_len, contains}
use intellisphere.Common.Float.{Float}
use intellisphere.Errors.{SphereError, filter_rejected}
use intellisphere.Pipeline.Chain.{PipelineChain}
use intellisphere.Tools.Registry
use intellisphere.Tools.Registry.{ToolRegistry, ToolRegistration, is_satellite}
use intellisphere.Satellite.TrustBudget.{deduct, add_suspicion}
use intellisphere.Satellite.TrustBudget.Monotone.{
  Worn, Worn-refl, Worn-trans, deduct-Worn, add_suspicion-Worn,
}
use intellisphere.Satellite.Session.{SatelliteSession}
use intellisphere.Satellite.Adjudicator.{
  ToolProposal, max_result_bytes, rejection_amount, judge_outcome, judge_payload, judge_tool,
  adjudicate,
}

module _ (F : Type 0) ⦃fl : Float F⦄ where
  rejection_amount_pos : (f : String) → fl.le (fl.nat 0) (rejection_amount f) ≡ true
  rejection_amount_pos f = elim (Bool-cases (contains f "sanitiz")) [
    | inl e ↦ rw e (fl.tenths_pos 5)
    | inr e ↦ rw e (fl.tenths_pos 2)
  ]

  one_pos : fl.le (fl.nat 0) (fl.nat 1) ≡ true
  one_pos = fl.le-nat 0 1 (omega arith) (omega arith)

module _ {F : Type 0} ⦃fl : Float F⦄ where
  -- `t` is `s` with, at most, more suspicion.
  record Suspected (s t : SatelliteSession F) : Type 0 where
    worn : Worn s.trust_budget t.trust_budget
    remaining : t.trust_budget.remaining ≡ s.trust_budget.remaining
    session_id : t.session_id ≡ s.session_id
    identity_sub : t.identity_sub ≡ s.identity_sub
    expires_at : t.expires_at ≡ s.expires_at

  Suspected-refl : (s : SatelliteSession F) → Suspected s s
  Suspected-refl s = record {
    worn = Worn-refl s.trust_budget;
    remaining = refl;
    session_id = refl;
    identity_sub = refl;
    expires_at = refl;
  }

  add_suspicion-Suspected :
      (amount : F) (s : SatelliteSession F)
      → fl.le (fl.nat 0) amount ≡ true
      → Suspected s (record s { trust_budget = (add_suspicion amount s.trust_budget).1 })
  unfolding add_suspicion
  add_suspicion-Suspected amount s pos = record {
    worn = add_suspicion-Worn amount s.trust_budget pos;
    remaining = refl;
    session_id = refl;
    identity_sub = refl;
    expires_at = refl;
  }

  judge_outcome-Suspected :
      (r : Result (Unit {0}) SphereError) (s : SatelliteSession F)
      → Suspected s (judge_outcome r s).1
  unfolding judge_outcome
  judge_outcome-Suspected (ok u) s = Suspected-refl s
  judge_outcome-Suspected (err (filter_rejected f r)) s =
      add_suspicion-Suspected (rejection_amount f) s (rejection_amount_pos F f)
  judge_outcome-Suspected (err _) s = add_suspicion-Suspected (fl.tenths 2) s (fl.tenths_pos 2)

  judge_payload-Suspected :
      (id : String) (p : ToolProposal) (chain : PipelineChain) (s : SatelliteSession F)
      → Suspected s (judge_payload id p chain s).1
  unfolding judge_payload
  judge_payload-Suspected id p chain s =
      elim (Bool-cases (ltb max_result_bytes (str_len p.result_payload))) [
        | inl e ↦ rw e (add_suspicion-Suspected (fl.tenths 2) s (fl.tenths_pos 2))
        | inr e ↦ rw e (judge_outcome-Suspected _ s)
      ]

  judge_tool-Suspected :
      (id : String) (p : ToolProposal) (reg : Option ToolRegistration) (chain : PipelineChain)
      (s : SatelliteSession F)
      → Suspected s (judge_tool id p reg chain s).1
  unfolding judge_tool
  judge_tool-Suspected id p none chain s = add_suspicion-Suspected (fl.tenths 3) s (fl.tenths_pos 3)
  judge_tool-Suspected id p (some reg) chain s = elim (Bool-cases (is_satellite reg.zone)) [
    | inl e ↦ rw e (judge_payload-Suspected id p chain s)
    | inr e ↦ rw e (add_suspicion-Suspected (fl.tenths 3) s (fl.tenths_pos 3))
  ]

  -- What a proposal does to its session, whatever its verdict: the cost is deducted, the budget is
  -- no better and the suspicion no lower, and the session stays the same caller's, to the same end.
  pub record Charged (s t : SatelliteSession F) : Type 0 where
    pub worn : Worn s.trust_budget t.trust_budget
    pub remaining : t.trust_budget.remaining ≡ fl.sub s.trust_budget.remaining (fl.nat 1)
    pub session_id : t.session_id ≡ s.session_id
    pub identity_sub : t.identity_sub ≡ s.identity_sub
    pub expires_at : t.expires_at ≡ s.expires_at

  paid : SatelliteSession F → SatelliteSession F
  paid s = record s { trust_budget = (deduct (fl.nat 1) s.trust_budget).1 }

  paid-Charged : {s t : SatelliteSession F} → Suspected (paid s) t → Charged s t
  unfolding paid deduct
  paid-Charged {s} {t} h = record {
    worn = Worn-trans (deduct-Worn (fl.nat 1) s.trust_budget (one_pos F)) h.worn;
    remaining = h.remaining;
    session_id = h.session_id;
    identity_sub = h.identity_sub;
    expires_at = h.expires_at;
  }

  -- Whatever the verdict, a proposal costs one unit of budget, never lowers the suspicion, and
  -- leaves the session's id, caller and expiry as they were.
  pub adjudicate-Charged :
      (id : String) (p : ToolProposal) (registry : ToolRegistry) (chain : PipelineChain)
      (s : SatelliteSession F)
      → Charged s (adjudicate id p registry chain s).1
  unfolding adjudicate paid
  adjudicate-Charged id p registry chain s =
      elim (Bool-cases (deduct (fl.nat 1) s.trust_budget).0) [
        | inl positive ↦ rw positive (
            paid-Charged
              (judge_tool-Suspected id p (Registry.get p.tool_name registry) chain (paid s)))
        | inr spent ↦ rw spent (paid-Charged (Suspected-refl (paid s)))
      ]
