-- ===== src/Proto/ByName.antt =====
-- Reading a name back where one name is tried after another.
use intellisphere.Common.{
  String, ◌≡◌, sym, ap, ◌∙◌, Option, some, str_eq, str_eq_iff, Bool-cases, inl, inr, if◌then◌else◌,
}

module _ {A : Type 0} (name_of : A → String) where
  some_injective : {a b : A} → some a ≡ some b → a ≡ b
  some_injective h = cc

  pub named_by :
      (s name : String) (c r : A) (rest : Option A)
      → name_of c ≡ name
      → (rest ≡ some r → s ≡ name_of r)
      → (if str_eq s name then some c else rest) ≡ some r
      → s ≡ name_of r
  named_by s name c r rest e later h = elim (Bool-cases (str_eq s name)) [
    | inl same ↦
        let this : some c ≡ some r = rw same at h in
        (str_eq_iff s name).0 same ∙ (sym e ∙ ap name_of (some_injective this))
    | inr other ↦ later (rw other at h)
  ]
