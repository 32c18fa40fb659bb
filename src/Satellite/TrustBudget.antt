-- ===== src/Satellite/TrustBudget.antt =====
-- sphere/src/satellite/trust_budget.rs
pub mod Monotone
use intellisphere.Common.{ℕ, Bool, true, false, not}
use intellisphere.Common.Float.{Float, lt}

pub record TrustBudget (F : Type 0) : Type 0 where
  pub initial : F
  pub remaining : F
  pub suspicion_score : F
  pub suspicion_threshold : F

module _ {F : Type 0} ⦃fl : Float F⦄ where
  abbrev pub suspicion_unregistered_tool : F
  suspicion_unregistered_tool = fl.tenths 3

  abbrev pub suspicion_oversized : F
  suspicion_oversized = fl.tenths 2

  abbrev pub suspicion_rate_limit : F
  suspicion_rate_limit = fl.tenths 1

  abbrev pub suspicion_adjudication_failure : F
  suspicion_adjudication_failure = fl.tenths 2

  abbrev pub suspicion_injection : F
  suspicion_injection = fl.tenths 5

  abbrev pub new : F → F → TrustBudget F
  new initial suspicion_threshold = record {
    initial = initial;
    remaining = initial;
    suspicion_score = fl.nat 0;
    suspicion_threshold = suspicion_threshold;
  }

  unfoldable pub deduct : F → TrustBudget F → Bool × TrustBudget F
  deduct amount b =
      let left = fl.sub b.remaining amount in (lt (fl.nat 0) left, record b { remaining = left })

  unfoldable pub add_suspicion : F → TrustBudget F → Bool × TrustBudget F
  add_suspicion amount b =
      let score = fl.add b.suspicion_score amount in
      (lt score b.suspicion_threshold, record b { suspicion_score = score })

  unfoldable pub is_exhausted : TrustBudget F → Bool
  is_exhausted b = fl.le b.remaining (fl.nat 0)

  unfoldable pub is_suspicious : TrustBudget F → Bool
  is_suspicious b = fl.le b.suspicion_threshold b.suspicion_score
