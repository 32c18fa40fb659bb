-- ===== src/Pipeline/Regex.antt =====
-- The `regex` crate and the Unicode tables behind `str::to_lowercase`, which the filters call, as
-- parameters: a pattern is named by its source text.
use intellisphere.Common.{
  ℕ, suc, String, ◌≡◌, Bool, true, false, List, [], ◌∷◌, is_empty, if◌then◌else◌,
}
use intellisphere.Common.Text.{contains}

-- `set_matches` is `RegexSet::matches` as a list of indices, `valid` says that a pattern compiles.
pub record RegexEngine : Type 0 where
  pub valid : String → Bool
  pub is_match : String → String → Bool
  pub find_iter : String → String → List String
  pub replace_all : String → String → String → String
  pub set_matches : List String → String → List ℕ

-- The indices, from `n` up, of the patterns that match.
abbrev pub matching : (String → Bool) → ℕ → List String → List ℕ
matching p n [] = []
matching p n (r ∷ rs) = let rest = matching p (suc n) rs in if p r then n ∷ rest else rest

-- What the crate documents: `find_iter` yields a match exactly where `is_match` holds, a text with
-- no match is replaced by itself, and a set yields, in ascending order, the patterns that match.
pub record RegexLaws (re : RegexEngine) : Type 0 where
  pub find_iter-is_match :
      (r s : String) → is_empty (re.find_iter r s) ≡ true → re.is_match r s ≡ false
  pub is_match-find_iter :
      (r s : String) → is_empty (re.find_iter r s) ≡ false → re.is_match r s ≡ true
  pub replace_all_id : (r s t : String) → re.is_match r s ≡ false → re.replace_all r s t ≡ s
  pub set_matches_def :
      (rs : List String) (s : String) → re.set_matches rs s ≡ matching (λ r. re.is_match r s) 0 rs

-- An engine for patterns without special characters, which shows that the laws can hold.
abbrev pub literal_engine : RegexEngine
literal_engine = record {
  valid = λ r. true;
  is_match = λ r s. contains s r;
  find_iter = λ r s. if contains s r then r ∷ [] else [];
  replace_all = λ r s t. if contains s r then t else s;
  set_matches = λ rs s. matching (λ r. contains s r) 0 rs;
}
