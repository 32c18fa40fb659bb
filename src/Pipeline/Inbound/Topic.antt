-- ===== src/Pipeline/Inbound/Topic.antt =====
-- sphere/src/pipeline/inbound/topic_guardrail.rs
pub mod Verdict
use intellisphere.Common.{
  ℕ, String, ◌≡◌, Bool, true, false, not, ◌&&◌, List, [], ◌∷◌, map, Result, ok, err, leb, any,
  retain, length, is_empty, if◌then◌else◌,
}
use intellisphere.Common.Text.{◌<>◌, contains}
use intellisphere.Errors.{SphereError, filter_rejected}
use intellisphere.Proto.{Message}
use intellisphere.Pipeline.Context.{PipelineContext, Filtered, Filter}

pub record TopicRule : Type 0 where
  pub name : String
  pub keywords : List String
  pub threshold : ℕ

pub record TopicGuardrailFilter : Type 0 where
  pub allowed_topics : List TopicRule
  pub blocked_topics : List TopicRule

abbrev pub filter_name : String
filter_name = "TopicGuardrail"

module _ (to_lowercase : String → String) where
  rule_of : String × List String × ℕ → TopicRule
  rule_of (name, keywords, threshold) = record {
    name = name;
    keywords = map to_lowercase keywords;
    threshold = threshold;
  }

  unfoldable pub new :
      List (String × List String × ℕ) → List (String × List String × ℕ) → TopicGuardrailFilter
  unfolding rule_of
  new allowed blocked = record {
    allowed_topics = map rule_of allowed;
    blocked_topics = map rule_of blocked;
  }

  unfoldable pub count_matches : String → TopicRule → ℕ
  count_matches content rule =
      length (retain (λ k. contains (to_lowercase content) k) rule.keywords)

  abbrev pub triggered : String → TopicRule → Bool
  triggered content rule = leb rule.threshold (count_matches content rule)

  -- The loop over the blocked topics, then the check of the allowed ones.
  check_allowed : TopicGuardrailFilter → String → Result (Unit {0}) SphereError
  check_allowed f content =
      if not (is_empty f.allowed_topics) && not (any (triggered content) f.allowed_topics)
      then err (filter_rejected filter_name "Message does not match any allowed topic")
      else ok tt

  check_blocked : TopicGuardrailFilter → String → List TopicRule → Result (Unit {0}) SphereError
  unfolding check_allowed
  check_blocked f content [] = check_allowed f content
  check_blocked f content (rule ∷ rules) =
      let rest = check_blocked f content rules in
      if triggered content rule
      then err (filter_rejected filter_name ("Blocked topic detected: " <> rule.name))
      else rest

  unfoldable pub apply : TopicGuardrailFilter → Message → PipelineContext → Filtered
  unfolding check_blocked
  apply f message context = (check_blocked f message.content f.blocked_topics, message, context)

  abbrev pub filter : TopicGuardrailFilter → Filter
  filter f = record { name = filter_name; apply = apply f }
