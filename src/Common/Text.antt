-- ===== src/Common/Text.antt =====
-- Rust strings: `String` is the native text, whose `len`, `slice` and `starts_with` are Rust's.
use Prim.Native.Char.{Char, code}
use Prim.Native.String.{len as str_len, slice, ◌++◌ as str_append}
use text.Mathlib.Text.{find?}
use intellisphere.Common.{
  ℕ, zero, suc, ◌/◌, ◌%◌, String, ◌≡◌, refl, Bool, false, ◌||◌, List, [], ◌∷◌, is_some, ltb, str_eq,
  if◌then◌else◌,
}
pub use Prim.Native.Char.{Char, code}
pub use Prim.Native.String.{len as str_len, slice}
pub use text.Mathlib.Text.{starts_with, is_char_boundary, get?}

-- concatenation
infixr 65 ◌<>◌
abbrev pub ◌<>◌ : String → String → String
s <> t = str_append s t

-- `s.contains(t)`
abbrev pub contains : String → String → Bool
contains s t = is_some (find? s t)

-- `xs.contains(&s)` on a `Vec<String>`
abbrev pub mem_str : String → List String → Bool
mem_str s [] = false
mem_str s (x ∷ xs) = str_eq x s || mem_str s xs

-- `parts.join(sep)`
abbrev pub join : String → List String → String
join sep [] = ""
join sep (s ∷ []) = s
join sep (s ∷ t ∷ rest) = s <> sep <> join sep (t ∷ rest)

digit : ℕ → String
digit d =
    if ltb d 1
    then "0"
    else if ltb d 2
    then "1"
    else if ltb d 3
    then "2"
    else if ltb d 4
    then "3"
    else if ltb d 5
    then "4"
    else if ltb d 6
    then "5"
    else if ltb d 7
    then "6"
    else if ltb d 8
    then "7"
    else if ltb d 9
    then "8"
    else "9"

-- A number has fewer decimal digits than its value plus one, so the fuel is enough.
decimal : ℕ → ℕ → String → String
unfolding digit
decimal zero n acc = acc
decimal (suc fuel) n acc =
    let rest = decimal fuel (n / 10) (digit (n % 10) <> acc) in
    if ltb n 10 then digit n <> acc else rest

-- `format!("{}", n)` of an unsigned integer
unfoldable pub show_nat : ℕ → String
unfolding decimal
show_nat n = decimal (suc n) n ""

show_nat_example : show_nat 262144 ≡ "262144"
unfolding show_nat
show_nat_example = refl
