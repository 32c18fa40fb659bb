-- ===== src/Pipeline/Inbound/Redaction.antt =====
-- sphere/src/pipeline/inbound/pii_redaction.rs
pub mod Content
use intellisphere.Common.{
  ℕ, ◌+◌, ◌%◌, String, ◌≡◌, List, [], ◌∷◌, Result, ok, err, length, ltb, if◌then◌else◌,
}
use intellisphere.Common.Text.{show_nat}
use intellisphere.Proto.{Message}
use intellisphere.Pipeline.Context.{PipelineContext, Filtered, Filter, annotate}
use intellisphere.Pipeline.Regex.{RegexEngine}

pub data RedactionStrategy : Type 0 where
  mask replace remove : RedactionStrategy

pub record PiiPattern : Type 0 where
  pub name : String
  pub regex : String
  pub mask_label : String
  pub replacement : String

pub record PiiRedactionFilter : Type 0 where
  pub strategy : RedactionStrategy
  pub patterns : List PiiPattern

abbrev pub filter_name : String
filter_name = "PIIRedaction"

abbrev pub email_regex : String
email_regex = "[a-zA-Z0-9._%+-]+@[a-zA-Z0-9.-]+\\.[a-zA-Z]{2,}"

abbrev pub phone_regex : String
phone_regex = "(\\+?1[-.\\s]?)?\\(?\\d{3}\\)?[-.\\s]?\\d{3}[-.\\s]?\\d{4}"

abbrev pub ssn_regex : String
ssn_regex = "\\b\\d{3}-\\d{2}-\\d{4}\\b"

abbrev pub card_regex : String
card_regex = "\\b(?:\\d[ -]*?){13,19}\\b"

abbrev pub pii_patterns : List PiiPattern
pii_patterns =
    record {
      name = "EMAIL";
      regex = email_regex;
      mask_label = "[EMAIL_REDACTED]";
      replacement = "user@example.com";
    }
    ∷ record {
      name = "PHONE";
      regex = phone_regex;
      mask_label = "[PHONE_REDACTED]";
      replacement = "555-000-0000";
    }
    ∷ record {
      name = "SSN";
      regex = ssn_regex;
      mask_label = "[SSN_REDACTED]";
      replacement = "000-00-0000";
    }
    ∷ record {
      name = "CREDIT_CARD";
      regex = card_regex;
      mask_label = "[CREDIT_CARD_REDACTED]";
      replacement = "0000-0000-0000-0000";
    }
    ∷ []

abbrev pub new : RedactionStrategy → PiiRedactionFilter
new strategy = record { strategy = strategy; patterns = pii_patterns }

-- The text that a strategy puts in the place of a match.
abbrev pub substitute : RedactionStrategy → PiiPattern → String
substitute mask p = p.mask_label
substitute replace p = p.replacement
substitute remove p = ""

-- The variables of the loop: the content, the count (a `u32`) and the context.
pub record Progress : Type 0 where
  pub content : String
  pub detected_count : ℕ
  pub context : PipelineContext

module _ (re : RegexEngine) where
  redact_one : RedactionStrategy → PiiPattern → Progress → Progress
  redact_one strategy p g =
      let match_count : ℕ = length (re.find_iter p.regex g.content) in
      if ltb 0 match_count
      then record {
        content = re.replace_all p.regex g.content (substitute strategy p);
        detected_count = (g.detected_count + match_count % 4294967296) % 4294967296;
        context = annotate g.context "pii_detected" p.name;
      }
      else g

  redact : RedactionStrategy → List PiiPattern → Progress → Progress
  unfolding redact_one
  redact strategy [] g = g
  redact strategy (p ∷ ps) g = redact strategy ps (redact_one strategy p g)

  finish : Message → Progress → Filtered
  finish message g = (
    ok tt,
    record message { content = g.content },
    if ltb 0 g.detected_count
        then annotate g.context "pii_entity_count" (show_nat g.detected_count)
        else g.context,
  )

  unfoldable pub apply : PiiRedactionFilter → Message → PipelineContext → Filtered
  unfolding redact finish
  apply f message context = finish message (
      redact f.strategy f.patterns
        (record { content = message.content; detected_count = 0; context = context }))

  abbrev pub filter : PiiRedactionFilter → Filter
  filter f = record { name = filter_name; apply = apply f }
