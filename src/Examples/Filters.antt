-- ===== src/Examples/Filters.antt =====
-- Witnesses for the modules of Pipeline.
use text.Mathlib.TextBridge.{IsPrefix}
use intellisphere.Common.{
  ◌+◌, ◌-◌, ◌≤◌, String, ◌≡◌, refl, false, not, ◌&&◌, ◌||◌, none, some, List, [], ◌∷◌, any,
  is_empty, ok, is_ok, arith,
}
use intellisphere.Common.Text.{◌<>◌, str_len}
use intellisphere.Config.{default_input_sanitization}
use intellisphere.Proto.{Message}
use intellisphere.Pipeline.Regex.{literal_engine}
use intellisphere.Pipeline.Inbound.Sanitization.{allowed, has_null, sanitize, filter_chars}
use intellisphere.Pipeline.Inbound.Sanitization.Clean.{AllChars, sanitize_stable}
use intellisphere.Pipeline.Inbound.Budget
use intellisphere.Pipeline.Inbound.Budget.{TokenBudgetFilter, estimate_tokens}
use intellisphere.Pipeline.Inbound.Budget.Session
use intellisphere.Pipeline.Inbound.Budget.Session.{charged, within, total, apply-is_ok, charged-run}
use intellisphere.Pipeline.Inbound.Boundary.{ConversationBoundaryFilter}
use intellisphere.Pipeline.Inbound.Topic
use intellisphere.Pipeline.Inbound.Topic.{TopicGuardrailFilter, triggered}
use intellisphere.Pipeline.Inbound.Topic.Verdict.{apply-on_topic}
use intellisphere.Pipeline.Inbound.Redaction
use intellisphere.Pipeline.Inbound.Redaction.{PiiRedactionFilter, mask}
use intellisphere.Pipeline.Inbound.Redaction.Content.{substituted, apply-substituted}
use intellisphere.Pipeline.Outbound.ResultSize
use intellisphere.Pipeline.Outbound.ResultSize.{
  ResultSizeEnforcementFilter, truncation_suffix, truncate,
}
use intellisphere.Pipeline.Outbound.ResultSize.Bounds.{truncate_longest, apply_fits}
use intellisphere.Pipeline.Outbound.LeakDetection
use intellisphere.Pipeline.Outbound.LeakDetection.{PiiLeakDetectionFilter}
use intellisphere.Pipeline.Outbound.LeakDetection.Verdict.{leaks, expected, refuses, apply_verdict}
use intellisphere.Examples.Data.{lower, say, fresh, literal_laws}

sanitize_stable_example :
    AllChars allowed "ab"
    × (has_null "ab" ≡ false)
    × (sanitize default_input_sanitization "ab" ≡ ok "ab")
unfolding sanitize filter_chars has_null
sanitize_stable_example = sanitize_stable default_input_sanitization "a\u{7}b" "ab" refl refl

abbrev budget : TokenBudgetFilter
budget = record { max_input_tokens = some 100; max_session_tokens = some 1000 }

abbrev conversation : List Message
conversation = say "hello" ∷ say "again" ∷ []

charged-run_example :
    (charged (Session.run budget conversation fresh).1 ≡ charged fresh + total conversation)
    × (charged (Session.run budget conversation fresh).1 ≤ 1000)
unfolding Budget.apply estimate_tokens
charged-run_example =
    charged-run budget 1000 refl conversation fresh (omega arith) (omega arith) refl

abbrev boundary : ConversationBoundaryFilter
boundary = record { max_turns = some 1; max_context_tokens = none }

abbrev guardrail : TopicGuardrailFilter
guardrail =
    Topic.new lower (("billing", "invoice" ∷ [], 1) ∷ []) (("weapons", "gun" ∷ "ammo" ∷ [], 2) ∷ [])

apply-on_topic_example :
    (is_ok (Topic.apply lower guardrail (say "my invoice") fresh).0 ≡ (
      not (any (triggered lower "my invoice") guardrail.blocked_topics)
      && (is_empty guardrail.allowed_topics
          || any (triggered lower "my invoice") guardrail.allowed_topics)))
    × ((Topic.apply lower guardrail (say "my invoice") fresh).1 ≡ say "my invoice")
    × ((Topic.apply lower guardrail (say "my invoice") fresh).2 ≡ fresh)
apply-on_topic_example = apply-on_topic lower guardrail (say "my invoice") fresh

abbrev redaction : PiiRedactionFilter
redaction = record { strategy = mask; patterns = Redaction.pii_patterns }

apply-substituted_example :
    ((Redaction.apply literal_engine redaction (say "call me") fresh).0 ≡ ok tt)
    × ((Redaction.apply literal_engine redaction (say "call me") fresh).1.content
        ≡ substituted literal_engine literal_laws mask redaction.patterns "call me")
apply-substituted_example =
    apply-substituted literal_engine literal_laws redaction (say "call me") fresh

truncate_longest_example :
    (k : String) × (truncate 15 "hello, big world" ≡ k <> truncation_suffix)
    × IsPrefix k "hello, big world"
    × (str_len k ≤ 15 - 12)
    × ((p : String) → IsPrefix p "hello, big world" → str_len p + 12 ≤ 15 → str_len p ≤ str_len k)
truncate_longest_example = truncate_longest 15 "hello, big world"

abbrev sized : ResultSizeEnforcementFilter
sized = record { max_chars = 15 }

apply_fits_example :
    ((ResultSize.apply sized (say "hello, big world") fresh).0 ≡ ok tt)
    × (str_len "hello, big world" ≤ 15
        → ResultSize.apply sized (say "hello, big world") fresh
          ≡ (ok tt, say "hello, big world", fresh))
    × (12 ≤ 15 → str_len (ResultSize.apply sized (say "hello, big world") fresh).1.content ≤ 15)
apply_fits_example = apply_fits sized (say "hello, big world") fresh

abbrev leak_block : PiiLeakDetectionFilter
leak_block = LeakDetection.new LeakDetection.block

apply_verdict_example :
    (is_ok (LeakDetection.apply literal_engine leak_block (say "hi") fresh).0
      ≡ not (
          refuses literal_engine literal_laws leak_block.action
          && leaks literal_engine leak_block.patterns "hi"))
    × ((LeakDetection.apply literal_engine leak_block (say "hi") fresh).1.content
        ≡ expected literal_engine literal_laws leak_block.action leak_block.patterns "hi")
    × (leaks literal_engine leak_block.patterns "hi" ≡ false
        → LeakDetection.apply literal_engine leak_block (say "hi") fresh ≡ (ok tt, say "hi", fresh))
apply_verdict_example = apply_verdict literal_engine literal_laws leak_block (say "hi") fresh
