-- ===== src/Satellite/Adjudicator/Lifetime.antt =====
-- How long a session's budget lasts.
use intellisphere.Common.{
  ℕ, zero, suc, ◌+◌, ◌-◌, ◌<◌, ◌≤◌, ◌^◌, String, ◌≡◌, refl, subst, ◌∙◌, ap, true, false, List, [],
  ◌∷◌, arith, length, if◌then◌else◌,
}
use intellisphere.Common.Float.{Float}
use intellisphere.Pipeline.Chain.{PipelineChain}
use intellisphere.Tools.Registry.{ToolRegistry}
use intellisphere.Satellite.TrustBudget.{is_exhausted, deduct}
use intellisphere.Satellite.TrustBudget.Monotone.{Worn-final}
use intellisphere.Satellite.Adjudicator.Wear.{adjudicate-Charged}
use intellisphere.Satellite.Adjudicator.Verdict.{adjudicate-accepted}
use intellisphere.Satellite.Session.{SatelliteSession}
use intellisphere.Satellite.Adjudicator.{ToolProposal, adjudicate}

module _ {F : Type 0} ⦃fl : Float F⦄ where
  -- Proposals one after another, each with its request id.
  abbrev pub run :
      List (String × ToolProposal)
      → ToolRegistry
      → PipelineChain
      → SatelliteSession F
      → SatelliteSession F
  run [] registry chain s = s
  run ((id, p) ∷ ps) registry chain s = run ps registry chain (adjudicate id p registry chain s).1

  -- Of a budget of n units, n below 2 ^ 53, k proposals leave n - k, whatever they were and
  -- whatever became of them; after the n-th the budget is exhausted.
  pub remaining-run :
      (n : ℕ) (ps : List (String × ToolProposal)) (registry : ToolRegistry) (chain : PipelineChain)
      (s : SatelliteSession F)
      → n < 2 ^ 53
      → length ps ≤ n
      → s.trust_budget.remaining ≡ fl.nat n
      → (run ps registry chain s).trust_budget.remaining ≡ fl.nat (n - length ps)
  remaining-run n [] registry chain s small fits start = start ∙ ap fl.nat (omega arith)
  remaining-run zero (x ∷ ps) registry chain s small fits start = absurd (omega arith)
  remaining-run (suc n) ((id, p) ∷ ps) registry chain s small fits start =
      let paid' = (adjudicate-Charged id p registry chain s).remaining in
      remaining-run n ps registry chain _ (omega arith) (omega arith)
        (paid' ∙ (ap (λ x. fl.sub x (fl.nat 1)) start ∙ fl.sub-nat n small))
      ∙ ap fl.nat (omega arith)

  -- How many of the proposals are accepted.
  abbrev pub accepted_count :
      List (String × ToolProposal) → ToolRegistry → PipelineChain → SatelliteSession F → ℕ
  accepted_count [] registry chain s = 0
  accepted_count ((id, p) ∷ ps) registry chain s =
      let (result, s') = adjudicate id p registry chain s in
      (if result.accepted then 1 else 0) + accepted_count ps registry chain s'

  refused_when_spent :
      (id : String) (p : ToolProposal) (registry : ToolRegistry) (chain : PipelineChain)
      (s : SatelliteSession F)
      → is_exhausted (adjudicate id p registry chain s).1.trust_budget ≡ true
      → (adjudicate id p registry chain s).0.accepted ≡ false
  unfolding is_exhausted deduct
  refused_when_spent id p registry chain s spent =
      let left = (adjudicate-Charged id p registry chain s).remaining in
      let gone : fl.le (fl.sub s.trust_budget.remaining (fl.nat 1)) (fl.nat 0) ≡ true =
        subst (λ r. fl.le r (fl.nat 0) ≡ true) left spent in
      adjudicate-accepted id p registry chain s ∙ rw gone

  spent_none :
      (ps : List (String × ToolProposal)) (registry : ToolRegistry) (chain : PipelineChain)
      (s : SatelliteSession F)
      → is_exhausted s.trust_budget ≡ true
      → accepted_count ps registry chain s ≡ 0
  spent_none [] registry chain s spent = refl
  spent_none ((id, p) ∷ ps) registry chain s spent =
      let after = (Worn-final (adjudicate-Charged id p registry chain s).worn).0 spent in
      rw (refused_when_spent id p registry chain s after)
        (omega (arith, spent_none ps registry chain (adjudicate id p registry chain s).1 after))

  nat_spent :
      (s : SatelliteSession F)
      → s.trust_budget.remaining ≡ fl.nat 0
      → is_exhausted s.trust_budget ≡ true
  unfolding is_exhausted
  nat_spent s e = rw e (fl.le-nat 0 0 (omega arith) (omega arith))

  -- A session with a budget of n + 1 units, fewer than 2 ^ 53, gets at most n proposals accepted,
  -- however many it makes.
  pub accepted_count-le :
      (n : ℕ) (ps : List (String × ToolProposal)) (registry : ToolRegistry) (chain : PipelineChain)
      (s : SatelliteSession F)
      → suc n < 2 ^ 53
      → s.trust_budget.remaining ≡ fl.nat (suc n)
      → accepted_count ps registry chain s ≤ n
  accepted_count-le n [] registry chain s small start = omega arith
  accepted_count-le zero ((id, p) ∷ ps) registry chain s small start =
      let left : (adjudicate id p registry chain s).1.trust_budget.remaining ≡ fl.nat 0 =
        (adjudicate-Charged id p registry chain s).remaining
        ∙ (ap (λ x. fl.sub x (fl.nat 1)) start ∙ fl.sub-nat 0 small) in
      let spent = nat_spent (adjudicate id p registry chain s).1 left in
      rw (refused_when_spent id p registry chain s spent)
        (omega (arith, spent_none ps registry chain (adjudicate id p registry chain s).1 spent))
  accepted_count-le (suc n) ((id, p) ∷ ps) registry chain s small start =
      let left : (adjudicate id p registry chain s).1.trust_budget.remaining ≡ fl.nat (suc n) =
        (adjudicate-Charged id p registry chain s).remaining
        ∙ (ap (λ x. fl.sub x (fl.nat 1)) start ∙ fl.sub-nat (suc n) small) in
      ground (
        arith,
        accepted_count-le n ps registry chain (adjudicate id p registry chain s).1 (omega arith)
            left,
      )
