-- ===== src/Pipeline/Outbound/LeakDetection.antt =====
-- sphere/src/pipeline/outbound/pii_leak_detection.rs
pub mod Verdict
use intellisphere.Common.{
  ℕ, String, Bool, true, false, List, [], ◌∷◌, ◌++◌, Result, ok, err, is_empty, if◌then◌else◌,
}
use intellisphere.Common.Text.{◌<>◌, join}
use intellisphere.Errors.{SphereError, outbound_rejected}
use intellisphere.Proto.{Message}
use intellisphere.Pipeline.Context.{PipelineContext, Filtered, Filter, annotate_all}
use intellisphere.Pipeline.Regex.{RegexEngine}
use intellisphere.Pipeline.Inbound.Redaction.{email_regex, phone_regex, ssn_regex, card_regex}

pub data PiiLeakAction : Type 0 where
  redact block flag : PiiLeakAction

pub record PiiPattern : Type 0 where
  pub name : String
  pub regex : String
  pub mask_label : String

pub record PiiLeakDetectionFilter : Type 0 where
  pub action : PiiLeakAction
  pub patterns : List PiiPattern

abbrev pub filter_name : String
filter_name = "PIILeakDetection"

abbrev pub pii_patterns : List PiiPattern
pii_patterns =
    record { name = "EMAIL"; regex = email_regex; mask_label = "[EMAIL_REDACTED]" }
    ∷ record { name = "PHONE"; regex = phone_regex; mask_label = "[PHONE_REDACTED]" }
    ∷ record { name = "SSN"; regex = ssn_regex; mask_label = "[SSN_REDACTED]" }
    ∷ record { name = "CREDIT_CARD"; regex = card_regex; mask_label = "[CREDIT_CARD_REDACTED]" }
    ∷ []

abbrev pub new : PiiLeakAction → PiiLeakDetectionFilter
new action = record { action = action; patterns = pii_patterns }

module _ (re : RegexEngine) where
  -- `content` after one match: only `Redact` rewrites it.
  abbrev rewritten : PiiLeakAction → PiiPattern → String → String
  rewritten redact p content = re.replace_all p.regex content p.mask_label
  rewritten block p content = content
  rewritten flag p content = content

  -- The loop: the rewritten content, and the names detected so far.
  unfoldable pub scan :
      PiiLeakAction → List PiiPattern → String → List String → String × List String
  scan action [] content detected = (content, detected)
  scan action (p ∷ ps) content detected =
      let hit = scan action ps (rewritten action p content) (detected ++ p.name ∷ []) in
      let miss = scan action ps content detected in
      if re.is_match p.regex content then hit else miss

  finish : PiiLeakAction → String → List String → Message → PipelineContext → Filtered
  finish redact content detected message context = (
    ok tt,
    record message { content = content },
    annotate_all context "outbound_pii_redacted" detected,
  )
  finish block content detected message context =
      (err (outbound_rejected ("Response contains PII: " <> join ", " detected)), message, context)
  finish flag content detected message context =
      (ok tt, message, annotate_all context "outbound_pii_flagged" detected)

  unfoldable pub apply : PiiLeakDetectionFilter → Message → PipelineContext → Filtered
  unfolding finish
  apply f message context =
      let (content, detected) = scan f.action f.patterns message.content [] in
      if is_empty detected
      then (ok tt, message, context)
      else finish f.action content detected message context

  abbrev pub filter : PiiLeakDetectionFilter → Filter
  filter f = record { name = filter_name; apply = apply f }
