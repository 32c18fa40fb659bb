-- ===== src/Policy/Engine/Quiet.antt =====
-- When the engine reports nothing, and whom a report names.
use intellisphere.Common.{
  is_empty-append, ℕ, String, ◌≡◌, refl, sym, ap, ◌∙◌, Bool, true, false, not, ◌&&◌, ◌||◌, Option,
  none, some, List, [], ◌∷◌, ◌++◌, leb, str_eq, is_empty, last, retain, if◌then◌else◌, all, arith,
}
use intellisphere.Common.Text.{mem_str}
use intellisphere.Common.Dict.{lookup}
use intellisphere.Auth.Identity.{Identity}
use intellisphere.Pipeline.Context.{PipelineContext, get_annotations}
use intellisphere.Policy.Engine.{
  PolicyRule, PolicyEvent, Policy, PolicyViolation, scope_matches, evaluate_rule, violations_of,
  evaluate, parse_usize, counts_calls, max_tool_calls_per_session, max_tokens_per_identity_per_hour,
  require_mfa, require_roles, max_result_size, over, recorded_size, require_mfa_of,
  require_roles_of, missing_roles, mfa_verified, unless_empty,
}

abbrev at_most : Option ℕ → ℕ → Bool
at_most none limit = true
at_most (some n) limit = leb n limit

abbrev last_size : Option (List String) → Option ℕ
last_size none = none
last_size (some sizes) = elim (last sizes) [ none ↦ none | some size_str ↦ parse_usize size_str ]

abbrev has_roles : List String → Option Identity → Bool
has_roles roles none = false
has_roles roles (some who) = all (λ r. mem_str r who.roles) roles

abbrev has_mfa : Option Identity → Bool
has_mfa none = false
has_mfa (some who) = elim (lookup "mfa_verified" who.metadata) [
  | none ↦ false
  | some v ↦ str_eq v "true"
]

-- What a rule asks for.
abbrev pub obeys : PolicyRule → PipelineContext → PolicyEvent → Bool
obeys (max_tool_calls_per_session limit) context event =
    not (counts_calls event) || at_most context.turn_count limit
obeys (max_tokens_per_identity_per_hour limit) context event =
    at_most context.session_token_count limit
obeys require_mfa context event = has_mfa context.identity
obeys (require_roles roles) context event = has_roles roles context.identity
obeys (max_result_size limit) context event =
    at_most (last_size (get_annotations context "result_size")) limit

abbrev pub is_none : {A : Type 0} → Option A → Bool
is_none none = true
is_none (some a) = false

is_none-over :
    (o : Option ℕ) (limit : ℕ) (reason : ℕ → String)
    → is_none (over reason o limit) ≡ at_most o limit
unfolding over
is_none-over none limit reason = refl
is_none-over (some n) limit reason = ground arith

none-unless_empty : (missing : List String) → is_none (unless_empty missing) ≡ is_empty missing
unfolding unless_empty
none-unless_empty [] = refl
none-unless_empty (r ∷ rs) = refl

none-mfa : (who : Option Identity) → is_none (require_mfa_of who) ≡ has_mfa who
unfolding require_mfa_of mfa_verified
none-mfa none = refl
none-mfa (some who) = ground arith

calls :
    (counted : Bool) (o : Option String) (b : Bool)
    → is_none o ≡ b
    → is_none (if counted then o else none) ≡ not counted || b
calls true o b h = h
calls false o b h = refl

recorded_last : (sizes : Option (List String)) → recorded_size sizes ≡ last_size sizes
unfolding recorded_size
recorded_last none = refl
recorded_last (some sizes) = refl

none_missing :
    (roles held : List String)
    → is_empty (retain (λ r. not (mem_str r held)) roles) ≡ all (λ r. mem_str r held) roles
none_missing [] held = refl
none_missing (r ∷ roles) held = ground (arith, none_missing roles held)

none-roles :
    (roles : List String) (who : Option Identity)
    → is_none (require_roles_of roles who) ≡ has_roles roles who
unfolding require_roles_of missing_roles
none-roles roles none = refl
none-roles roles (some who) =
    none-unless_empty (retain (λ r. not (mem_str r who.roles)) roles) ∙ none_missing roles who.roles

pub evaluate_rule-obeys :
    (rule : PolicyRule) (context : PipelineContext) (event : PolicyEvent)
    → is_none (evaluate_rule rule context event) ≡ obeys rule context event
unfolding evaluate_rule
evaluate_rule-obeys (max_tool_calls_per_session limit) context event =
    calls (counts_calls event) _ _ (is_none-over context.turn_count limit _)
evaluate_rule-obeys (max_tokens_per_identity_per_hour limit) context event =
    is_none-over context.session_token_count limit _
evaluate_rule-obeys require_mfa context event = none-mfa context.identity
evaluate_rule-obeys (require_roles roles) context event = none-roles roles context.identity
evaluate_rule-obeys (max_result_size limit) context event =
    is_none-over (recorded_size (get_annotations context "result_size")) limit _
    ∙ ap (λ o. at_most o limit) (recorded_last (get_annotations context "result_size"))

reported :
    {V : Type 0} (o : Option String) (v : String → V) (vs : List V) (p q : Bool)
    → is_none o ≡ p
    → is_empty vs ≡ q
    → is_empty (elim o [ none ↦ vs | some reason ↦ v reason ∷ vs ]) ≡ p && q
reported none v vs p q h k = rw (sym h, k)
reported (some s) v vs p q h k = rw (sym h)

violations_of-obeys :
    (policy : Policy) (rules : List PolicyRule) (context : PipelineContext) (event : PolicyEvent)
    → is_empty (violations_of policy rules context event) ≡ all (λ r. obeys r context event) rules
unfolding violations_of
violations_of-obeys policy [] context event = refl
violations_of-obeys policy (rule ∷ rules) context event =
    reported (evaluate_rule rule context event) _ _ _ _ (evaluate_rule-obeys rule context event)
      (violations_of-obeys policy rules context event)

applied :
    (matches : Bool) (vs rest : List PolicyViolation) (p q : Bool)
    → is_empty vs ≡ p
    → is_empty rest ≡ q
    → is_empty (if not matches then rest else vs ++ rest) ≡ (not matches || p) && q
applied true vs rest p q h k = is_empty-append vs rest ∙ rw (h, k)
applied false vs rest p q h k = k

-- The engine reports nothing exactly when every policy whose scope matches the event has only
-- rules that hold: the counters are within the limits, the identity is present with the roles and
-- the second factor, the last recorded result size is within its limit.
pub evaluate-quiet :
    (policies : List Policy) (context : PipelineContext) (event : PolicyEvent)
    → is_empty (evaluate policies context event)
      ≡ all
          (λ p.
            not (scope_matches p.scope context event) || all (λ r. obeys r context event) p.rules)
          policies
unfolding evaluate
evaluate-quiet [] context event = refl
evaluate-quiet (policy ∷ policies) context event =
    applied (scope_matches policy.scope context event) _ _ _ _
      (violations_of-obeys policy policy.rules context event)
      (evaluate-quiet policies context event)
