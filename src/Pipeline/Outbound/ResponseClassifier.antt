-- ===== src/Pipeline/Outbound/ResponseClassifier.antt =====
-- sphere/src/pipeline/outbound/response_classifier.rs
pub mod Verdict
use intellisphere.Common.{
  String, Option, none, some, List, [], ◌∷◌, ◌++◌, ok, err, all, is_empty, if◌then◌else◌,
}
use intellisphere.Common.Text.{◌<>◌, join}
use intellisphere.Errors.{outbound_rejected}
use intellisphere.Proto.{Message}
use intellisphere.Pipeline.Context.{PipelineContext, Filtered, Filter, annotate, annotate_all}
use intellisphere.Pipeline.Regex.{RegexEngine}
use intellisphere.Pipeline.Inbound.Classifier.{custom_names, names_at}

pub data ResponseClassifierAction : Type 0 where
  block redact flag : ResponseClassifierAction

pub record ResponseClassifierFilter : Type 0 where
  pub action : ResponseClassifierAction
  pub patterns : List String
  pub pattern_names : List String

abbrev pub filter_name : String
filter_name = "ResponseClassifier"

abbrev pub default_patterns : List String
default_patterns =
    "(?i)\\b(kill|murder|assassinate)\\s+(yourself|himself|herself|themselves|someone)\\b"
    ∷ "(?i)\\bhow\\s+to\\s+(make|build|create)\\s+(a\\s+)?(bomb|weapon|explosive)\\b"
    ∷ "(?i)\\b(hack|exploit|crack)\\s+(into|a|the)\\s+"
    ∷ "(?i)\\b(illegal|illicit)\\s+(drugs?|substances?|activities)\\b"
    ∷ "(?i)\\bhere\\s+(is|are)\\s+(the\\s+)?(stolen|leaked|hacked)\\b" ∷ []

abbrev pub default_names : List String
default_names = "violence" ∷ "weapons" ∷ "hacking" ∷ "illegal_activity" ∷ "stolen_data" ∷ []

-- The filter whose patterns are taken to compile; `with_patterns` checks that they do.
abbrev pub classifier : ResponseClassifierAction → List String → ResponseClassifierFilter
classifier action custom = record {
  action = action;
  patterns = default_patterns ++ custom;
  pattern_names = default_names ++ custom_names 0 custom;
}

module _ (re : RegexEngine) where
  -- `none` where the patterns do not compile, and the constructor panics.
  unfoldable pub with_patterns :
      ResponseClassifierAction → List String → Option ResponseClassifierFilter
  with_patterns action custom =
      if all re.valid (default_patterns ++ custom) then some (classifier action custom) else none

  unfoldable pub new : ResponseClassifierAction → Option ResponseClassifierFilter
  unfolding with_patterns
  new action = with_patterns action []

  abbrev pub matched_names : ResponseClassifierFilter → String → List String
  matched_names f content = names_at f.pattern_names (re.set_matches f.patterns content)

  decide_action : ResponseClassifierAction → List String → Message → PipelineContext → Filtered
  decide_action block names message context = (
    err (outbound_rejected ("Response contains harmful content: " <> join ", " names)),
    message,
    context,
  )
  decide_action redact names message context = (
    ok tt,
    record message {
      content = "[Content redacted: harmful patterns detected (" <> join ", " names <> ")]";
    },
    annotate (annotate_all context "response_classified_redacted" names)
        "response_classifier_action" ("redacted: " <> join ", " names),
  )
  decide_action flag names message context =
      (ok tt, message, annotate_all context "response_classified_flagged" names)

  unfoldable pub apply : ResponseClassifierFilter → Message → PipelineContext → Filtered
  unfolding decide_action
  apply f message context =
      if is_empty (re.set_matches f.patterns message.content)
      then (ok tt, message, context)
      else decide_action f.action (matched_names f message.content) message context

  abbrev pub filter : ResponseClassifierFilter → Filter
  filter f = record { name = filter_name; apply = apply f }
