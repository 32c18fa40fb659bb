-- ===== src/Common/Float.antt =====
-- The interface of the machine's `f64` where the program computes with values that a caller
-- or a configuration chooses: finite numbers, with the laws of IEEE 754 arithmetic that the theorems use. `nat n` is
-- the integer `n` as a `f64`, `tenths n` the literal n / 10.
use intellisphere.Common.{ℕ, suc, ◌<◌, ◌^◌, ◌≡◌, Bool, true, false, not, leb, if◌then◌else◌}

pub record Float (F : Type 0) : Type 0 where
  pub nat : ℕ → F
  pub tenths : ℕ → F
  pub add : F → F → F
  pub sub : F → F → F
  pub mul : F → F → F
  pub div : F → F → F
  pub le : F → F → Bool
  -- `Duration::as_secs_f64` of a number of nanoseconds, and the cast `as u32`
  pub seconds : ℕ → F
  pub to_u32 : F → ℕ
  -- comparison is a total order, as no operand is a NaN
  pub le_trans : (a b c : F) → le a b ≡ true → le b c ≡ true → le a c ≡ true
  pub le_total : (a b : F) → le a b ≡ false → le b a ≡ true
  -- rounding is monotone, so a sum or difference with a number that is not negative does not
  -- cross its first operand
  pub le-add : (a b : F) → le (nat 0) b ≡ true → le a (add a b) ≡ true
  pub sub-le : (a b : F) → le (nat 0) b ≡ true → le (sub a b) a ≡ true
  pub le-add' : (a b : F) → le (nat 0) a ≡ true → le b (add a b) ≡ true
  -- what is not negative stays so
  pub nat_pos : (n : ℕ) → le (nat 0) (nat n) ≡ true
  pub seconds_pos : (n : ℕ) → le (nat 0) (seconds n) ≡ true
  pub mul_pos : (a b : F) → le (nat 0) a ≡ true → le (nat 0) b ≡ true → le (nat 0) (mul a b) ≡ true
  pub div_pos : (a : F) (n : ℕ) → le (nat 0) a ≡ true → le (nat 0) (div a (nat (suc n))) ≡ true
  -- zero
  pub seconds-zero : seconds 0 ≡ nat 0
  pub mul-zero : (a : F) → mul (nat 0) a ≡ nat 0
  pub add-zero : (a : F) → add a (nat 0) ≡ a
  -- the literals are not negative, and integers below 2 ^ 53 are exact
  pub tenths_pos : (n : ℕ) → le (nat 0) (tenths n) ≡ true
  pub le-nat : (m n : ℕ) → m < 2 ^ 53 → n < 2 ^ 53 → le (nat m) (nat n) ≡ leb m n
  pub sub-nat : (n : ℕ) → suc n < 2 ^ 53 → sub (nat (suc n)) (nat 1) ≡ nat n

-- `a < b`, `a > b` and `a >= b`.
module _ {F : Type 0} ⦃fl : Float F⦄ where
  abbrev pub lt : F → F → Bool
  lt a b = not (fl.le b a)

  -- `a.min(b)`, and of equal numbers the second.
  abbrev pub min_of : F → F → F
  min_of a b = if fl.le b a then b else a
