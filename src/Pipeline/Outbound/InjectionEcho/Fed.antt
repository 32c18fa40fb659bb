-- ===== src/Pipeline/Outbound/InjectionEcho/Fed.antt =====
-- The echo filter on a context that the content classifier has flagged.
use intellisphere.Common.{
  is_empty-map, is_empty-retain, is_empty-append, any, ◌||◌, ◌&&◌, not, true, ◌∙◌, Bool, retain,
  String, ◌≡◌, refl, false, some, List, [], ◌∷◌, ◌++◌, is_ok, is_empty, unwrap_or, arith,
}
use intellisphere.Common.Text.{◌<>◌, contains}
use intellisphere.Proto.{Message}
use intellisphere.Pipeline.Context.{PipelineContext, get_annotations, get_annotations-own}
use intellisphere.Pipeline.Regex.{RegexEngine, RegexLaws}
use intellisphere.Pipeline.Inbound.Classifier
use intellisphere.Pipeline.Inbound.Classifier.{ContentClassifierFilter}
use intellisphere.Pipeline.Inbound.Classifier.Verdict.{matches_of, apply_classified}
use intellisphere.Pipeline.Outbound.InjectionEcho.{
  echo_indicators, block, matched_indicators, check_echo, decide_action, apply,
}

not_empty : {A : Type 0} (xs ys : List A) → is_empty ys ≡ false → is_empty (xs ++ ys) ≡ false
not_empty [] ys h = h
not_empty (x ∷ xs) ys h = refl

-- What the echo filter listens for: its indicators, and the names of flagged patterns.
abbrev pub echoes : (String → String) → List String → String → Bool
echoes lower names text =
    any (λ indicator. contains (lower text) indicator) echo_indicators
    || any (λ name. contains (lower text) (lower name)) names

not_either : (b c : Bool) → not b && not c ≡ not (b || c)
not_either true c = refl
not_either false c = refl

silent :
    (lower : String → String) (names : List String) (text : String)
    → is_empty (matched_indicators lower (lower text) names) ≡ not (echoes lower names text)
unfolding matched_indicators
silent lower names text =
    is_empty-append (retain (λ i. contains (lower text) i) echo_indicators) _
    ∙ (rw
        (
          is_empty-retain (λ i. contains (lower text) i) echo_indicators,
          is_empty-map (λ name. "pattern_echo:" <> name)
              (retain (λ name. contains (lower text) (lower name)) names),
          is_empty-retain (λ name. contains (lower text) (lower name)) names,
        )
        (not_either (any (λ i. contains (lower text) i) echo_indicators)
          (any (λ name. contains (lower text) (lower name)) names)))

module _ {re : RegexEngine} (laws : RegexLaws re) (lower : String → String) where
  -- The patterns flagged in a context, with those of a message.
  abbrev pub flagged_with : ContentClassifierFilter → Message → PipelineContext → List String
  flagged_with f m context =
      unwrap_or (get_annotations context "injection_patterns") []
      ++ matches_of laws f.patterns f.pattern_names m.content

  check_block :
      (names : List String) (m : Message) (context : PipelineContext)
      → is_empty names ≡ false
      → is_ok (check_echo lower block (some names) m context).0
        ≡ is_empty (matched_indicators lower (lower m.content) names)
  unfolding check_echo decide_action
  check_block names m context h = ground (arith, h)

  -- The content classifier, when it flags, arms the echo filter, when it blocks: if some named
  -- pattern matches the user's message, a response is refused exactly when it contains, in lower
  -- case, one of the echo's indicators or the name of a pattern flagged in the context, those of
  -- this message among them.
  pub apply-apply :
      (f : ContentClassifierFilter) (m response : Message) (context : PipelineContext)
      → f.mode ≡ Classifier.flag
      → is_empty (matches_of laws f.patterns f.pattern_names m.content) ≡ false
      → is_ok (apply lower block response (Classifier.apply re f m context).2).0
        ≡ not (echoes lower (flagged_with f m context) response.content)
  unfolding apply
  apply-apply f m response context flags some_match =
      rw
        (
          apply_classified laws f m context,
          flags,
          get_annotations-own context "injection_patterns"
              (matches_of laws f.patterns f.pattern_names m.content),
          some_match,
        )
        (check_block _ response _ (not_empty _ _ some_match)
          ∙ silent lower (flagged_with f m context) response.content)
