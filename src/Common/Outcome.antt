-- ===== src/Common/Outcome.antt =====
-- Rust's `Result`, with its `?` as bind.
use mathlib.Core.Bool.{Bool, true, false}
use mathlib.Core.Path.{◌≡◌, refl}
use mathlib.Core.Logic.{◌⊎◌, inl, inr}
use mathlib.Core.Option.{Option, none, some}

pub data Result {ℓ} (A E : Type ℓ) : Type ℓ where
  ok : A → Result A E
  err : E → Result A E

module _ {ℓ} {A E : Type ℓ} where
  abbrev pub is_ok : Result A E → Bool
  is_ok (ok value) = true
  is_ok (err reason) = false

  abbrev pub ok_or : Option A → E → Result A E
  ok_or none reason = err reason
  ok_or (some value) reason = ok value

  abbrev pub map_err : {F : Type ℓ} → (E → F) → Result A E → Result A F
  map_err wrap (ok value) = ok value
  map_err wrap (err reason) = err (wrap reason)

pub Result-cases {ℓ} :
    {A E : Type ℓ} (r : Result A E) → ((a : A) × (r ≡ ok a)) ⊎ ((e : E) × (r ≡ err e))
Result-cases (ok value) = inl (value, refl)
Result-cases (err reason) = inr (reason, refl)

module _ {ℓ} {E A B : Type ℓ} where
  infixl 5 ◌>>=◌ ◌>>◌
  abbrev pub ◌>>=◌ : Result A E → (A → Result B E) → Result B E
  err reason >>= rest = err reason
  ok value >>= rest = rest value

  abbrev pub ◌>>◌ : Result A E → Result B E → Result B E
  err reason >> rest = err reason
  ok value >> rest = rest
