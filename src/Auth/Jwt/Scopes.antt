-- ===== src/Auth/Jwt/Scopes.antt =====
-- How the scopes of the two claims come together.
use intellisphere.Common.{
  String, ◌≡◌, refl, ◌∙◌, ◌||◌, not, List, [], ◌∷◌, ◌++◌, arith, str_eq_iff, if◌then◌else◌,
}
use intellisphere.Common.Text.{mem_str}
use intellisphere.Auth.Jwt.{merge_scopes}

mem_str-append :
    (x : String) (xs ys : List String) → mem_str x (xs ++ ys) ≡ (mem_str x xs || mem_str x ys)
mem_str-append x [] ys = refl
mem_str-append x (y ∷ xs) ys = ground (arith, mem_str-append x xs ys)

-- Merging adds exactly the listed scopes.
pub mem_str-merge_scopes :
    (x : String) (scopes words : List String)
    → mem_str x (merge_scopes scopes words) ≡ (mem_str x scopes || mem_str x words)
unfolding merge_scopes
mem_str-merge_scopes x scopes [] = ground arith
mem_str-merge_scopes x scopes (w ∷ ws) =
    mem_str-merge_scopes x (if not (mem_str w scopes) then scopes ++ w ∷ [] else scopes) ws
    ∙ ground (arith, mem_str-append x scopes (w ∷ []), str_eq_iff w x)
