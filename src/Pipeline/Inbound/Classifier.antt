-- ===== src/Pipeline/Inbound/Classifier.antt =====
-- sphere/src/pipeline/inbound/content_classifier.rs
pub mod Verdict
use intellisphere.Common.{
  ℕ, suc, String, Option, none, some, List, [], ◌∷◌, ◌++◌, ok, err, all, is_empty, get_elem?,
  if◌then◌else◌,
}
use intellisphere.Common.Text.{◌<>◌, show_nat, join}
use intellisphere.Errors.{filter_rejected}
use intellisphere.Proto.{Message}
use intellisphere.Pipeline.Context.{PipelineContext, Filtered, Filter, annotate_all}
use intellisphere.Pipeline.Regex.{RegexEngine}

pub data ClassifierMode : Type 0 where
  block flag log : ClassifierMode

pub record ContentClassifierFilter : Type 0 where
  pub mode : ClassifierMode
  pub patterns : List String
  pub pattern_names : List String

abbrev pub filter_name : String
filter_name = "ContentClassifier"

abbrev pub default_patterns : List String
default_patterns =
    "(?i)ignore\\s+(all\\s+|any\\s+)?(previous|prior|above)\\s+(instructions|prompts|rules)"
    ∷ "(?i)you\\s+are\\s+now\\s+(a\\s+|in\\s+)?"
    ∷ "(?i)disregard\\s+(all\\s+|any\\s+)?(previous|prior|earlier)"
    ∷ "(?i)new\\s+(instructions|rules|prompt|persona):" ∷ "(?i)system:\\s"
    ∷ "(?i)pretend\\s+(you\\s+are|to\\s+be|that)" ∷ "(?i)\\bDAN\\b" ∷ "(?i)jailbreak"
    ∷ "(?i)bypass\\s+(your\\s+|all\\s+)?(rules|restrictions|filters|safety)" ∷ []

abbrev pub default_names : List String
default_names =
    "ignore_previous" ∷ "role_assignment" ∷ "disregard_previous" ∷ "new_instructions"
    ∷ "fake_system_message" ∷ "pretend_to_be" ∷ "dan_jailbreak" ∷ "jailbreak_keyword"
    ∷ "bypass_filters" ∷ []

-- The names `custom_i` of the patterns from the i-th on.
abbrev pub custom_names : ℕ → List String → List String
custom_names i [] = []
custom_names i (p ∷ ps) = ("custom_" <> show_nat i) ∷ custom_names (suc i) ps

-- `filter_map(|&i| names.get(i))`
abbrev pub names_at : List String → List ℕ → List String
names_at names [] = []
names_at names (i ∷ is) = elim (get_elem? names i) [
  | none ↦ names_at names is
  | some n ↦ n ∷ names_at names is
]

module _ (re : RegexEngine) where
  -- `none` where the patterns do not compile, and the constructor panics.
  unfoldable pub new : ClassifierMode → List String → Option ContentClassifierFilter
  new mode custom =
      if all re.valid (default_patterns ++ custom)
      then some (record {
        mode = mode;
        patterns = default_patterns ++ custom;
        pattern_names = default_names ++ custom_names 0 custom;
      })
      else none

  abbrev pub matched_names : ContentClassifierFilter → String → List String
  matched_names f content = names_at f.pattern_names (re.set_matches f.patterns content)

  decide_mode : ClassifierMode → List String → Message → PipelineContext → Filtered
  decide_mode block names message context = (
    err (filter_rejected filter_name ("Potential injection detected: " <> join ", " names)),
    message,
    context,
  )
  decide_mode flag names message context =
      (ok tt, message, annotate_all context "injection_patterns" names)
  decide_mode log names message context = (ok tt, message, context)

  unfoldable pub apply : ContentClassifierFilter → Message → PipelineContext → Filtered
  unfolding decide_mode
  apply f message context =
      if is_empty (re.set_matches f.patterns message.content)
      then (ok tt, message, context)
      else decide_mode f.mode (matched_names f message.content) message context

  abbrev pub filter : ContentClassifierFilter → Filter
  filter f = record { name = filter_name; apply = apply f }
