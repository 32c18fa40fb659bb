-- ===== src/Policy/Engine.antt =====
-- sphere/src/policy/types.rs, sphere/src/policy/engine.rs and sphere/src/policy/loader.rs
pub mod Quiet
pub mod Reports
use intellisphere.Common.{
  ℕ, zero, suc, ◌+◌, ◌*◌, ◌-◌, ◌^◌, String, Bool, true, false, not, ◌&&◌, Option, none, some, List,
  [], ◌∷◌, ◌++◌, map, ltb, leb, str_eq, is_empty, last, retain, unwrap_or, if◌then◌else◌,
}
use intellisphere.Common.Text.{code, ◌<>◌, mem_str, join, show_nat}
use intellisphere.Common.Dict.{lookup}
use intellisphere.Auth.Identity.{Identity}
use intellisphere.Pipeline.Context.{PipelineContext, get_annotations}

pub data PolicyScope : Type 0 where
  session identity global : PolicyScope
  tool : String → PolicyScope

pub data PolicyRule : Type 0 where
  max_tool_calls_per_session max_tokens_per_identity_per_hour : ℕ → PolicyRule
  require_mfa : PolicyRule
  require_roles : List String → PolicyRule
  max_result_size : ℕ → PolicyRule

pub data PolicyAction : Type 0 where
  terminate_session throttle block flag log : PolicyAction

pub data PolicyEvent : Type 0 where
  request_received : PolicyEvent
  tool_call_requested : String → PolicyEvent
  session_update : PolicyEvent

-- `Policy`, and `PolicyConfig` of sphere/src/config/mod.rs, which has the same fields
pub record Policy : Type 0 where
  pub name : String
  pub scope : PolicyScope
  pub rules : List PolicyRule
  pub action : PolicyAction

pub record PolicyConfig : Type 0 where
  pub name : String
  pub scope : PolicyScope
  pub rules : List PolicyRule
  pub action : PolicyAction

pub record PolicyViolation : Type 0 where
  pub policy_name : String
  pub action : PolicyAction
  pub reason : String

policy_of : PolicyConfig → Policy
policy_of cfg = record {
  name = cfg.name;
  scope = cfg.scope;
  rules = cfg.rules;
  action = cfg.action;
}

-- The engine is its list of policies.
unfoldable pub load_from_config : List PolicyConfig → List Policy
unfolding policy_of
load_from_config configs = map policy_of configs

unfoldable pub load_policies : List PolicyConfig → List Policy
load_policies configs = load_from_config configs

unfoldable pub scope_matches : PolicyScope → PipelineContext → PolicyEvent → Bool
scope_matches global context event = true
scope_matches session context event = true
scope_matches identity context event = true
scope_matches (tool name) context (tool_call_requested tool_name) = str_eq tool_name name
scope_matches (tool name) context request_received = false
scope_matches (tool name) context session_update = false

-- The decimal digits of `str::parse::<usize>`.
unfoldable pub digits : ℕ → String → Option ℕ
digits n String.[] = some n
digits n (String.◌∷◌ c rest) =
    let more = digits (n * 10 + (code c - 48)) rest in
    if leb 48 (code c) && leb (code c) 57 then more else none

bounded : Option ℕ → Option ℕ
bounded none = none
bounded (some n) = if ltb n (2 ^ 64) then some n else none

unsigned : String → Option ℕ
unsigned String.[] = none
unsigned (String.◌∷◌ c rest) = bounded (digits 0 (String.◌∷◌ c rest))

-- `str::parse::<usize>`: an optional sign, then at least one digit, within 64 bits.
unfoldable pub parse_usize : String → Option ℕ
unfolding bounded unsigned
parse_usize String.[] = none
parse_usize (String.◌∷◌ c rest) =
    let plain = unsigned (String.◌∷◌ c rest) in
    let signed = unsigned rest in if leb 43 (code c) && leb (code c) 43 then signed else plain

-- Whether the tool-call limit looks at the event.
unfoldable pub counts_calls : PolicyEvent → Bool
counts_calls request_received = false
counts_calls (tool_call_requested tool_name) = true
counts_calls session_update = true

-- A counter the context may lack against a limit.
unfoldable pub over : (ℕ → String) → Option ℕ → ℕ → Option String
over reason none limit = none
over reason (some n) limit = if ltb limit n then some (reason n) else none

unfoldable pub missing_roles : List String → Identity → List String
missing_roles roles who = retain (λ r. not (mem_str r who.roles)) roles

unfoldable pub mfa_verified : Identity → Bool
mfa_verified who = elim (lookup "mfa_verified" who.metadata) [
  | none ↦ false
  | some v ↦ str_eq v "true"
]

unfoldable pub unless_empty : List String → Option String
unless_empty missing =
    if is_empty missing then none else some ("Missing required roles: " <> join ", " missing)

unfoldable pub require_mfa_of : Option Identity → Option String
require_mfa_of none = some "MFA is required but no identity present"
require_mfa_of (some who) =
    if mfa_verified who then none else some "MFA is required but not verified"

unfoldable pub require_roles_of : List String → Option Identity → Option String
require_roles_of roles none = some "Roles required but no identity present"
require_roles_of roles (some who) = unless_empty (missing_roles roles who)

unfoldable pub recorded_size : Option (List String) → Option ℕ
recorded_size none = none
recorded_size (some sizes) = elim (last sizes) [
  | none ↦ none
  | some size_str ↦ parse_usize size_str
]

unfoldable pub evaluate_rule : PolicyRule → PipelineContext → PolicyEvent → Option String
unfolding over require_mfa_of require_roles_of recorded_size missing_roles mfa_verified unless_empty
evaluate_rule (max_tool_calls_per_session limit) context event =
    if counts_calls event
    then over
        (λ n. "Tool call count " <> show_nat n <> " exceeds session limit of " <> show_nat limit)
        context.turn_count limit
    else none
evaluate_rule (max_tokens_per_identity_per_hour limit) context event =
    over (λ n. "Token count " <> show_nat n <> " exceeds hourly limit of " <> show_nat limit)
      context.session_token_count limit
evaluate_rule require_mfa context event = require_mfa_of context.identity
evaluate_rule (require_roles roles) context event = require_roles_of roles context.identity
evaluate_rule (max_result_size limit) context event =
    over (λ n. "Result size " <> show_nat n <> " exceeds limit of " <> show_nat limit)
      (recorded_size (get_annotations context "result_size")) limit

-- The inner loop: the violations of one policy's rules.
unfoldable pub violations_of :
    Policy → List PolicyRule → PipelineContext → PolicyEvent → List PolicyViolation
violations_of policy [] context event = []
violations_of policy (rule ∷ rules) context event =
    let rest = violations_of policy rules context event in
    elim (evaluate_rule rule context event) [
      | none ↦ rest
      | some reason ↦
          record { policy_name = policy.name; action = policy.action; reason = reason } ∷ rest
    ]

unfoldable pub evaluate : List Policy → PipelineContext → PolicyEvent → List PolicyViolation
evaluate [] context event = []
evaluate (policy ∷ policies) context event =
    let rest = evaluate policies context event in
    if not (scope_matches policy.scope context event)
    then rest
    else violations_of policy policy.rules context event ++ rest
