-- ===== src/Pipeline/Outbound/LeakDetection/Verdict.antt =====
-- What the leak detection does with a response under each action.
use intellisphere.Common.{
  String, ◌≡◌, refl, Bool, true, false, ◌&&◌, not, List, [], ◌∷◌, ◌++◌, ok, is_ok, str_eq, any,
  is_empty, arith, Bool-cases, inl, inr,
}
use intellisphere.Proto.{Message}
use intellisphere.Pipeline.Context.{PipelineContext, get_annotations, get_annotations-annotate_all}
use intellisphere.Pipeline.Regex.{RegexEngine, RegexLaws}
use intellisphere.Pipeline.Outbound.LeakDetection.{
  PiiLeakAction, PiiPattern, PiiLeakDetectionFilter, scan, apply,
}

is_empty-append : {A : Type 0} (xs : List A) (x : A) → is_empty (xs ++ x ∷ []) ≡ false
is_empty-append [] x = refl
is_empty-append (y ∷ xs) x = refl

module _ (re : RegexEngine) where
  abbrev pub leaks : List PiiPattern → String → Bool
  leaks ps s = any (λ p. re.is_match p.regex s) ps

  -- A scan that has detected something stays so.
  scan_keeps :
      (a : PiiLeakAction) (ps : List PiiPattern) (s : String) (found : List String)
      → is_empty found ≡ false
      → is_empty (scan re a ps s found).1 ≡ false
  unfolding scan
  scan_keeps a [] s found h = h
  scan_keeps a (p ∷ ps) s found h = elim (Bool-cases (re.is_match p.regex s)) [
    | inl hit ↦ rw hit (scan_keeps a ps _ (found ++ p.name ∷ []) (is_empty-append found p.name))
    | inr miss ↦ rw miss (scan_keeps a ps s found h)
  ]

  -- The first pattern to match decides, and none has rewritten the content before it.
  scan_detects :
      (a : PiiLeakAction) (ps : List PiiPattern) (s : String)
      → is_empty (scan re a ps s []).1 ≡ not (leaks ps s)
  unfolding scan
  scan_detects a [] s = refl
  scan_detects a (p ∷ ps) s = elim (Bool-cases (re.is_match p.regex s)) [
    | inl hit ↦ rw hit (scan_keeps a ps _ (p.name ∷ []) refl)
    | inr miss ↦ rw miss (scan_detects a ps s)
  ]

  -- Redaction annotates one key.
  pub annotations-redact :
      (ps : List PiiPattern) (m : Message) (ctx : PipelineContext) (j : String)
      → str_eq "outbound_pii_redacted" j ≡ false
      → get_annotations
          (apply re (record { action = PiiLeakAction.redact; patterns = ps }) m ctx).2
          j
        ≡ get_annotations ctx j
  unfolding apply
  annotations-redact ps m ctx j ne =
      elim (Bool-cases (is_empty (scan re PiiLeakAction.redact ps m.content []).1)) [
        | inl none' ↦ rw none'
        | inr some' ↦ rw some' (
            get_annotations-annotate_all ctx "outbound_pii_redacted" j
              (scan re PiiLeakAction.redact ps m.content []).1 ne)
      ]

module _ (re : RegexEngine) (laws : RegexLaws re) where
  -- Every pattern in turn is replaced everywhere by its label, matched or not.
  abbrev pub masked : List PiiPattern → String → String
  masked [] s = s
  masked (p ∷ ps) s = masked ps (re.replace_all p.regex s p.mask_label)

  masked_id : (ps : List PiiPattern) (s : String) → leaks re ps s ≡ false → masked ps s ≡ s
  masked_id [] s h = refl
  masked_id (p ∷ ps) s h = elim (Bool-cases (re.is_match p.regex s)) [
    | inl hit ↦ cc (rw hit at h)
    | inr miss ↦
        rw (laws.replace_all_id p.regex s p.mask_label miss) (masked_id ps s (rw miss at h))
  ]

  scan-masked :
      (ps : List PiiPattern) (s : String) (found : List String)
      → (scan re PiiLeakAction.redact ps s found).0 ≡ masked ps s
  unfolding scan
  scan-masked [] s found = refl
  scan-masked (p ∷ ps) s found = elim (Bool-cases (re.is_match p.regex s)) [
    | inl hit ↦ rw hit (scan-masked ps _ _)
    | inr miss ↦ rw (miss, laws.replace_all_id p.regex s p.mask_label miss) (scan-masked ps s found)
  ]

  abbrev pub expected : PiiLeakAction → List PiiPattern → String → String
  expected PiiLeakAction.redact ps s = masked ps s
  expected PiiLeakAction.block ps s = s
  expected PiiLeakAction.flag ps s = s

  abbrev pub refuses : PiiLeakAction → Bool
  refuses PiiLeakAction.redact = false
  refuses PiiLeakAction.block = true
  refuses PiiLeakAction.flag = false

  -- A response is refused exactly when the action is to block and some pattern matches it. Under
  -- redaction its text becomes the one in which every pattern in turn is replaced by its label,
  -- and under the other actions it stays. A response that no pattern matches is left alone.
  pub apply_verdict :
      (f : PiiLeakDetectionFilter) (m : Message) (ctx : PipelineContext)
      → (is_ok (apply re f m ctx).0 ≡ not (refuses f.action && leaks re f.patterns m.content))
        × ((apply re f m ctx).1.content ≡ expected f.action f.patterns m.content)
        × (leaks re f.patterns m.content ≡ false → apply re f m ctx ≡ (ok tt, m, ctx))
  unfolding apply
  apply_verdict f m ctx = (
    ground (arith, scan_detects re f.action f.patterns m.content),
    ground (
      arith,
      scan_detects re f.action f.patterns m.content,
      scan-masked f.patterns m.content [],
      masked_id f.patterns m.content,
    ),
    λ h. ground (arith, scan_detects re f.action f.patterns m.content),
  )
