-- ===== src/Pipeline/Inbound/Classifier/Verdict.antt =====
-- What the classifiers make of the patterns that match.
use intellisphere.Common.{
  ℕ, suc, ◌+◌, String, ◌≡◌, refl, sym, ap, ◌∙◌, Bool, true, false, not, none, some, List, [], ◌∷◌,
  ◌++◌, Result, ok, err, any, is_empty, get_elem?, arith, Bool-cases, inl, inr, if◌then◌else◌,
}
use intellisphere.Common.Text.{◌<>◌, join}
use intellisphere.Errors.{SphereError, filter_rejected}
use intellisphere.Proto.{Message}
use intellisphere.Pipeline.Context.{PipelineContext, Filtered, annotate_all}
use intellisphere.Pipeline.Regex.{RegexEngine, RegexLaws, matching}
use intellisphere.Pipeline.Inbound.Classifier.{
  ClassifierMode, ContentClassifierFilter, block, flag, log, filter_name, names_at, decide_mode,
  apply,
}

-- A set matches nothing exactly when none of its patterns does.
pub is_empty-matching :
    (p : String → Bool) (n : ℕ) (rs : List String) → is_empty (matching p n rs) ≡ not (any p rs)
is_empty-matching p n [] = refl
is_empty-matching p n (r ∷ rs) = ground (arith, is_empty-matching p (suc n) rs)

-- The names that stand beside the patterns that match.
abbrev pub named : (String → Bool) → List String → List String → List String
named p [] names = []
named p (r ∷ rs) [] = []
named p (r ∷ rs) (name ∷ names) = (if p r then name ∷ [] else []) ++ named p rs names

named-nil : (p : String → Bool) (rs : List String) → named p rs [] ≡ []
named-nil p [] = refl
named-nil p (r ∷ rs) = refl

-- Looking the indices up from `n` on, where the names from there on are `names`.
names_at-from :
    (p : String → Bool) (whole : List String) (n : ℕ) (rs names : List String)
    → ((i : ℕ) → get_elem? whole (n + i) ≡ get_elem? names i)
    → names_at whole (matching p n rs) ≡ named p rs names
names_at-from p whole n [] names h = refl
names_at-from p whole n (r ∷ rs) [] h =
    let rest =
      names_at-from p whole (suc n) rs [] (λ i. ap (get_elem? whole) (omega arith) ∙ h (suc i)) in
    let here : get_elem? whole n ≡ none = ap (get_elem? whole) (omega arith) ∙ h 0 in
    elim (Bool-cases (p r)) [
      | inl hit ↦ rw (hit, names_at, here) (rest ∙ named-nil p rs)
      | inr miss ↦ rw miss (rest ∙ named-nil p rs)
    ]
names_at-from p whole n (r ∷ rs) (name ∷ names) h =
    let rest =
      names_at-from p whole (suc n) rs names
        (λ i. ap (get_elem? whole) (omega arith) ∙ h (suc i)) in
    let here : get_elem? whole n ≡ some name = ap (get_elem? whole) (omega arith) ∙ h 0 in
    elim (Bool-cases (p r)) [
      | inl hit ↦ rw (hit, names_at, here, rest) refl
      | inr miss ↦ rw miss rest
    ]

module _ {re : RegexEngine} (laws : RegexLaws re) where
  -- The names of the patterns that match.
  abbrev pub matches_of : List String → List String → String → List String
  matches_of patterns names content = named (λ r. re.is_match r content) patterns names

  abbrev pub is_matched : List String → String → Bool
  is_matched patterns content = any (λ r. re.is_match r content) patterns

  pub is_empty-set_matches :
      (patterns : List String) (content : String)
      → is_empty (re.set_matches patterns content) ≡ not (is_matched patterns content)
  is_empty-set_matches patterns content =
      rw (laws.set_matches_def patterns content) (is_empty-matching _ 0 patterns)

  pub names_at-set_matches :
      (patterns names : List String) (content : String)
      → names_at names (re.set_matches patterns content) ≡ matches_of patterns names content
  names_at-set_matches patterns names content =
      rw (laws.set_matches_def patterns content)
        (names_at-from _ names 0 patterns names (λ i. ap (get_elem? names) (omega arith)))

  -- Where no pattern matches there is no name to give.
  unmatched_none :
      (patterns names : List String) (content : String)
      → is_matched patterns content ≡ false
      → matches_of patterns names content ≡ []
  unmatched_none [] names content h = refl
  unmatched_none (r ∷ rs) [] content h = refl
  unmatched_none (r ∷ rs) (name ∷ names) content h = elim (Bool-cases (re.is_match r content)) [
    | inl hit ↦ absurd (cc (rw hit at h))
    | inr miss ↦ rw miss (unmatched_none rs names content (rw miss at h))
  ]

  abbrev pub outcome : ClassifierMode → Bool → List String → Result (Unit {0}) SphereError
  outcome block matched names =
      if matched
      then err (filter_rejected filter_name ("Potential injection detected: " <> join ", " names))
      else ok tt
  outcome flag matched names = ok tt
  outcome log matched names = ok tt

  abbrev pub annotated : ClassifierMode → List String → PipelineContext → PipelineContext
  annotated flag names context = annotate_all context "injection_patterns" names
  annotated block names context = context
  annotated log names context = context

  decide-verdict :
      (mode : ClassifierMode) (names : List String) (m : Message) (context : PipelineContext)
      → decide_mode re mode names m context
        ≡ (outcome mode true names, m, annotated mode names context)
  unfolding decide_mode
  decide-verdict block names m context = refl
  decide-verdict flag names m context = refl
  decide-verdict log names m context = refl

  quiet-verdict :
      (mode : ClassifierMode) (m : Message) (context : PipelineContext)
      → ◌≡◌ {A = Filtered} (outcome mode false [], m, annotated mode [] context) (ok tt, m, context)
  unfolding annotate_all
  quiet-verdict block m context = refl
  quiet-verdict flag m context = refl
  quiet-verdict log m context = refl

  -- The content classifier never changes a message. In blocking mode it refuses exactly the
  -- messages that some pattern matches, naming the patterns; in flagging mode it refuses none and
  -- annotates the context with the names of exactly the patterns that match; in logging mode it
  -- does nothing.
  pub apply_classified :
      (f : ContentClassifierFilter) (m : Message) (context : PipelineContext)
      → apply re f m context ≡ (
        outcome f.mode
            (is_matched f.patterns m.content)
            (matches_of f.patterns f.pattern_names m.content),
        m,
        annotated f.mode (matches_of f.patterns f.pattern_names m.content) context,
      )
  unfolding apply
  apply_classified f m context = elim (Bool-cases (is_matched f.patterns m.content)) [
    | inl hit ↦
        rw
          (
            is_empty-set_matches f.patterns m.content,
            names_at-set_matches f.patterns f.pattern_names m.content,
            hit,
          )
          (decide-verdict f.mode _ m context)
    | inr miss ↦
        rw
          (
            is_empty-set_matches f.patterns m.content,
            miss,
            unmatched_none f.patterns f.pattern_names m.content miss,
          )
          (sym (quiet-verdict f.mode m context))
  ]
