-- ===== src/Common/Dict.antt =====
-- `HashMap<String, V>` as an association list with one entry for each key. The order of its
-- entries is not specified by the program's library; theorems that iterate hold for any order.
use intellisphere.Common.{
  ◌+◌, String, ◌≡◌, refl, subst, Bool, true, false, any, Option, none, some, List, [], ◌∷◌, arith,
  str_eq, str_eq_iff, is_some, length, retain, Bool-cases, inl, inr, if◌then◌else◌,
}

abbrev pub Dict {ℓ} : Type ℓ → Type ℓ
Dict V = List (String × V)

module _ {ℓ} {V : Type ℓ} where
  unfoldable pub lookup : String → Dict V → Option V
  lookup k [] = none
  lookup k ((j, v) ∷ m) = if str_eq j k then some v else lookup k m

  unfoldable pub insert : String → V → Dict V → Dict V
  insert k v [] = (k, v) ∷ []
  insert k v ((j, w) ∷ m) =
      let rest = insert k v m in if str_eq j k then (k, v) ∷ m else (j, w) ∷ rest

  unfoldable pub remove : String → Dict V → Dict V
  remove k [] = []
  remove k ((j, w) ∷ m) = let rest = remove k m in if str_eq j k then rest else (j, w) ∷ rest

  abbrev pub contains_key : String → Dict V → Bool
  contains_key k m = is_some (lookup k m)

  pub lookup-insert :
      (k j : String) (v : V) (m : Dict V)
      → lookup j (insert k v m) ≡ (if str_eq k j then some v else lookup j m)
  unfolding lookup insert
  lookup-insert k j v [] = refl
  lookup-insert k j v ((i, w) ∷ m) =
      ground (arith, lookup-insert k j v m, str_eq_iff i j, str_eq_iff i k, str_eq_iff k j)

  pub lookup-remove :
      (k j : String) (m : Dict V)
      → lookup j (remove k m) ≡ (if str_eq k j then none else lookup j m)
  unfolding lookup remove
  lookup-remove k j [] = ground arith
  lookup-remove k j ((i, w) ∷ m) =
      ground (arith, str_eq_iff k j, str_eq_iff i k, str_eq_iff i j, lookup-remove k j m)

pub lookup-nil {ℓ} : {V : Type ℓ} (k : String) → lookup {V = V} k [] ≡ none
unfolding lookup
lookup-nil k = refl

pub ruleset dict_laws = (lookup-nil, lookup-insert, lookup-remove)

module _ {ℓ} {V : Type ℓ} where
  -- Every key has one entry.
  abbrev pub Unique : Dict V → Type 0
  Unique [] = Unit {0}
  Unique ((k, v) ∷ m) = (contains_key k m ≡ false) × Unique m

  -- `insert` adds an entry exactly where the key is new.
  pub length-insert :
      (k : String) (v : V) (m : Dict V)
      → length (insert k v m) ≡ (if contains_key k m then length m else length m + 1)
  unfolding insert lookup
  length-insert k v [] = omega arith
  length-insert k v ((j, w) ∷ m) = ground (arith, length-insert k v m)

  pub insert-Unique : (k : String) (v : V) (m : Dict V) → Unique m → Unique (insert k v m)
  unfolding insert lookup
  insert-Unique k v [] u = (refl, tt)
  insert-Unique k v ((j, w) ∷ m) u = elim (Bool-cases (str_eq j k)) [
    | inl same ↦ rw same (subst (λ i. contains_key i m ≡ false) ((str_eq_iff j k).0 same) u.0, u.1)
    | inr other ↦ rw other (
      rw (lookup-insert k j v m) (ground (arith, u.0, str_eq_iff j k, str_eq_iff k j)),
      insert-Unique k v m u.1,
    )
  ]

  abbrev pub filter_some : (V → Bool) → Option V → Option V
  filter_some p none = none
  filter_some p (some v) = if p v then some v else none

  -- `retain` looks at each key's one entry.
  pub lookup-retain :
      (p : V → Bool) (k : String) (m : Dict V)
      → Unique m
      → lookup k (retain (λ e. p e.1) m) ≡ filter_some p (lookup k m)
  unfolding lookup
  lookup-retain p k [] u = refl
  lookup-retain p k ((j, w) ∷ m) u = ground (arith, lookup-retain p k m u.1, str_eq_iff j k, u.0)

  pub retain-Unique : (p : V → Bool) (m : Dict V) → Unique m → Unique (retain (λ e. p e.1) m)
  retain-Unique p [] u = tt
  retain-Unique p ((j, w) ∷ m) u =
      ground (arith, retain-Unique p m u.1, lookup-retain p j m u.1, u.0)

  pub remove-Unique : (k : String) (m : Dict V) → Unique m → Unique (remove k m)
  unfolding remove
  remove-Unique k [] u = tt
  remove-Unique k ((j, w) ∷ m) u =
      ground (arith, remove-Unique k m u.1, lookup-remove k j m, str_eq_iff j k, u.0)

lookup_found {ℓ} :
    {V : Type ℓ} (k : String) (m : Dict V) {v : V} → lookup k m ≡ some v → contains_key k m ≡ true
lookup_found k m h = rw h

-- In a table with one entry for each key, an entry that a test finds is the one of its key.
pub any-lookup {ℓ} :
    {V : Type ℓ} (k : String) (p : String × V → Bool) (m : Dict V)
    → ((e : String × V) → p e ≡ true → str_eq e.0 k ≡ true)
    → Unique m
    → any p m ≡ true
    → (v : V) × (lookup k m ≡ some v) × (p (k, v) ≡ true)
unfolding lookup
any-lookup k p [] of_k u h = cc
any-lookup k p ((j, v) ∷ m) of_k u h = elim (Bool-cases (p (j, v))) [
  | inl passes ↦
      let same = of_k (j, v) passes in
      (v, rw same, subst (λ i. p (i, v) ≡ true) ((str_eq_iff j k).0 same) passes)
  | inr fails ↦
      let (w, found, good) = any-lookup k p m of_k u.1 (ground (arith, h, fails)) in
      (w, ground (arith, lookup_found k m found, u.0, str_eq_iff j k, found), good)
]
