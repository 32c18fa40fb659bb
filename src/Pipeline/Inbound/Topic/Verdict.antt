-- ===== src/Pipeline/Inbound/Topic/Verdict.antt =====
-- When the topic guardrail lets a message pass.
use intellisphere.Common.{
  String, ◌≡◌, refl, not, ◌&&◌, ◌||◌, List, [], ◌∷◌, is_ok, any, is_empty, arith,
}
use intellisphere.Proto.{Message}
use intellisphere.Pipeline.Context.{PipelineContext}
use intellisphere.Pipeline.Inbound.Topic.{
  TopicRule, TopicGuardrailFilter, triggered, check_blocked, apply,
}

module _ (to_lowercase : String → String) where
  check_blocked-is_ok :
      (f : TopicGuardrailFilter) (content : String) (rules : List TopicRule)
      → is_ok (check_blocked to_lowercase f content rules) ≡ (
          not (any (triggered to_lowercase content) rules)
          && (is_empty f.allowed_topics || any (triggered to_lowercase content) f.allowed_topics))
  unfolding check_blocked
  check_blocked-is_ok f content [] = ground arith
  check_blocked-is_ok f content (rule ∷ rules) = ground (arith, check_blocked-is_ok f content rules)

  -- A message passes exactly when it triggers no blocked topic and, where there are allowed
  -- topics, triggers one of them. Neither the message nor the context is changed.
  pub apply-on_topic :
      (f : TopicGuardrailFilter) (m : Message) (ctx : PipelineContext)
      → (is_ok (apply to_lowercase f m ctx).0 ≡ (
          not (any (triggered to_lowercase m.content) f.blocked_topics)
          && (is_empty f.allowed_topics
              || any (triggered to_lowercase m.content) f.allowed_topics)))
        × ((apply to_lowercase f m ctx).1 ≡ m)
        × ((apply to_lowercase f m ctx).2 ≡ ctx)
  unfolding apply
  apply-on_topic f m ctx = (check_blocked-is_ok f m.content f.blocked_topics, refl, refl)
