-- ===== src/Satellite/TrustBudget/Monotone.antt =====
-- A budget only falls and a suspicion only grows, so a session that is to end stays so.
use intellisphere.Common.{◌≡◌, refl, ◌∙◌, true, not, Bool-cases, inl, inr}
use intellisphere.Common.Float.{Float}
use intellisphere.Satellite.TrustBudget.{
  TrustBudget, deduct, add_suspicion, is_exhausted, is_suspicious,
}

module _ {F : Type 0} ⦃fl : Float F⦄ where
  le_refl : (a : F) → fl.le a a ≡ true
  le_refl a = elim (Bool-cases (fl.le a a)) [ inl e ↦ e | inr e ↦ fl.le_total a a e ]

  -- `c` is at least as worn as `b`, under the same terms.
  pub record Worn (b c : TrustBudget F) : Type 0 where
    pub budget : fl.le c.remaining b.remaining ≡ true
    pub suspicion : fl.le b.suspicion_score c.suspicion_score ≡ true
    pub initial : c.initial ≡ b.initial
    pub threshold : c.suspicion_threshold ≡ b.suspicion_threshold

  pub Worn-refl : (b : TrustBudget F) → Worn b b
  Worn-refl b = record {
    budget = le_refl b.remaining;
    suspicion = le_refl b.suspicion_score;
    initial = refl;
    threshold = refl;
  }

  pub Worn-trans : {a b c : TrustBudget F} → Worn a b → Worn b c → Worn a c
  Worn-trans {a} {b} {c} v w = record {
    budget = fl.le_trans c.remaining b.remaining a.remaining w.budget v.budget;
    suspicion =
        fl.le_trans a.suspicion_score b.suspicion_score c.suspicion_score v.suspicion w.suspicion;
    initial = w.initial ∙ v.initial;
    threshold = w.threshold ∙ v.threshold;
  }

  pub deduct-Worn :
      (amount : F) (b : TrustBudget F) → fl.le (fl.nat 0) amount ≡ true → Worn b (deduct amount b).1
  unfolding deduct
  deduct-Worn amount b pos = record {
    budget = fl.sub-le b.remaining amount pos;
    suspicion = le_refl b.suspicion_score;
    initial = refl;
    threshold = refl;
  }

  pub add_suspicion-Worn :
      (amount : F) (b : TrustBudget F)
      → fl.le (fl.nat 0) amount ≡ true
      → Worn b (add_suspicion amount b).1
  unfolding add_suspicion
  add_suspicion-Worn amount b pos = record {
    budget = le_refl b.remaining;
    suspicion = fl.le-add b.suspicion_score amount pos;
    initial = refl;
    threshold = refl;
  }

  -- What `deduct` and `add_suspicion` return is what the two tests say of the budget afterwards.
  pub verdicts_agree :
      (amount : F) (b : TrustBudget F)
      → ((deduct amount b).0 ≡ not (is_exhausted (deduct amount b).1))
        × ((add_suspicion amount b).0 ≡ not (is_suspicious (add_suspicion amount b).1))
  unfolding deduct add_suspicion is_exhausted is_suspicious
  verdicts_agree amount b = (refl, refl)

  -- An exhausted budget stays exhausted and a suspicious one suspicious, however worn.
  pub Worn-final :
      {b c : TrustBudget F}
      → Worn b c
      → (is_exhausted b ≡ true → is_exhausted c ≡ true)
        × (is_suspicious b ≡ true → is_suspicious c ≡ true)
  unfolding is_exhausted is_suspicious
  Worn-final {b} {c} w = (
    λ h. fl.le_trans c.remaining b.remaining (fl.nat 0) w.budget h,
    λ h.
        rw w.threshold
          (fl.le_trans b.suspicion_threshold b.suspicion_score c.suspicion_score h w.suspicion),
  )
