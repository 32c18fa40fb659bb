-- ===== src/Policy/Engine/Reports.antt =====
-- Which violations the engine reports, and in which order.
use intellisphere.Common.{
  map-append, String, ◌≡◌, refl, sym, ◌∙◌, Bool, true, false, not, Option, none, some, List, [],
  ◌∷◌, ◌++◌, map, retain, if◌then◌else◌,
}
use intellisphere.Pipeline.Context.{PipelineContext}
use intellisphere.Policy.Engine.{
  PolicyRule, PolicyAction, PolicyEvent, Policy, PolicyViolation, scope_matches, evaluate_rule,
  violations_of, evaluate,
}
use intellisphere.Policy.Engine.Quiet.{obeys, is_none, evaluate_rule-obeys}

-- Whom a report names and what it asks for.
abbrev pub Notice : Type 0
Notice = String × PolicyAction

abbrev pub notice : PolicyViolation → Notice
notice v = (v.policy_name, v.action)

-- A notice for each rule of a policy that does not hold.
abbrev pub breaches_of : Policy → List PolicyRule → PipelineContext → PolicyEvent → List Notice
breaches_of policy rules context event =
    map (λ r. (policy.name, policy.action)) (retain (λ r. not (obeys r context event)) rules)

abbrev pub breaches : List Policy → PipelineContext → PolicyEvent → List Notice
breaches [] context event = []
breaches (policy ∷ policies) context event =
    (if scope_matches policy.scope context event
      then breaches_of policy policy.rules context event
      else [])
    ++ breaches policies context event

noticed :
    (policy : Policy) (rule : PolicyRule) (rules : List PolicyRule) (context : PipelineContext)
    (event : PolicyEvent) (o : Option String) (vs : List PolicyViolation)
    → is_none o ≡ obeys rule context event
    → map notice vs ≡ breaches_of policy rules context event
    → map notice (elim o [
      | none ↦ vs
      | some reason ↦
          record { policy_name = policy.name; action = policy.action; reason = reason } ∷ vs
    ])
      ≡ breaches_of policy (rule ∷ rules) context event
noticed policy rule rules context event none vs h k = rw (sym h, k) refl
noticed policy rule rules context event (some reason) vs h k = rw (sym h, k) refl

violations_of-breaches :
    (policy : Policy) (rules : List PolicyRule) (context : PipelineContext) (event : PolicyEvent)
    → map notice (violations_of policy rules context event) ≡ breaches_of policy rules context event
unfolding violations_of
violations_of-breaches policy [] context event = refl
violations_of-breaches policy (rule ∷ rules) context event =
    noticed policy rule rules context event (evaluate_rule rule context event) _
      (evaluate_rule-obeys rule context event) (violations_of-breaches policy rules context event)

scoped :
    (matches : Bool) (vs rest : List PolicyViolation) (own others : List Notice)
    → map notice vs ≡ own
    → map notice rest ≡ others
    → map notice (if not matches then rest else vs ++ rest)
      ≡ (if matches then own else []) ++ others
scoped true vs rest own others h k = map-append notice vs rest ∙ rw (h, k) refl
scoped false vs rest own others h k = k

-- The engine reports, for each policy whose scope matches the event, one violation with the
-- policy's name and action for each of its rules that does not hold, and nothing else; the reports
-- come in the order of the policies and of their rules.
pub evaluate-breaches :
    (policies : List Policy) (context : PipelineContext) (event : PolicyEvent)
    → map notice (evaluate policies context event) ≡ breaches policies context event
unfolding evaluate
evaluate-breaches [] context event = refl
evaluate-breaches (policy ∷ policies) context event =
    scoped (scope_matches policy.scope context event) _ _ _ _
      (violations_of-breaches policy policy.rules context event)
      (evaluate-breaches policies context event)
