-- ===== src/Dict.antt =====
-- Go's `map[string]V`, as an association list in which a write removes what the key held before.
-- No property depends on Go's iteration order: where the source sorts the keys, the model does too.
use ogo.Base.{
  ◌≤◌, ◌+◌, String, ◌≡◌, refl, Bool, Option, none, some, List, [], ◌∷◌, arith, ◌==◌, eq_iff,
  if◌then◌else◌, length, All, inl, inr, Bool-cases, subst,
}

abbrev pub Dict {ℓ} : Type ℓ → Type ℓ
Dict V = List (String × V)

module _ {ℓ} {V : Type ℓ} where
  -- v, ok := m[k]
  unfoldable pub lookup : String → Dict V → Option V
  lookup k [] = none
  lookup k ((j, v) ∷ m) = if j == k then some v else lookup k m

  -- delete(m, k)
  unfoldable pub remove : String → Dict V → Dict V
  remove k [] = []
  remove k ((j, v) ∷ m) = let rest = remove k m in if j == k then rest else (j, v) ∷ rest

  -- m[k] = v
  unfoldable pub insert : String → V → Dict V → Dict V
  insert k v m = (k, v) ∷ remove k m

  -- The entries whose value passes a test: a loop that deletes all others.
  unfoldable pub keep : (V → Bool) → Dict V → Dict V
  keep p [] = []
  keep p ((j, v) ∷ m) = let rest = keep p m in if p v then (j, v) ∷ rest else rest

  pub lookup-remove :
      (k j : String) (m : Dict V) → lookup j (remove k m) ≡ (if k == j then none else lookup j m)
  unfolding lookup remove
  lookup-remove k j [] = ground arith
  lookup-remove k j ((i, v) ∷ m) =
      ground (arith, lookup-remove k j m, eq_iff i k, eq_iff i j, eq_iff k j)

  pub lookup-insert :
      (k j : String) (v : V) (m : Dict V)
      → lookup j (insert k v m) ≡ (if k == j then some v else lookup j m)
  unfolding lookup insert
  lookup-insert k j v m = ground (arith, lookup-remove k j m)

  pub length-remove-le : (k : String) (m : Dict V) → length (remove k m) ≤ length m
  unfolding remove
  length-remove-le k [] = omega arith
  length-remove-le k ((j, v) ∷ m) = ground (arith, length-remove-le k m)

  pub length-insert-le : (k : String) (v : V) (m : Dict V) → length (insert k v m) ≤ length m + 1
  unfolding insert
  length-insert-le k v m = omega (arith, length-remove-le k m)

  pub length-remove-insert :
      (k : String) (v : V) (m : Dict V) → length (remove k (insert k v m)) ≤ length m
  unfolding insert remove
  length-remove-insert k v m =
      ground (arith, eq_iff k k, length-remove-le k m, length-remove-le k (remove k m))

  pub length-keep-le : (p : V → Bool) (m : Dict V) → length (keep p m) ≤ length m
  unfolding keep
  length-keep-le p [] = omega arith
  length-keep-le p ((j, v) ∷ m) = ground (arith, length-keep-le p m)

module _ {ℓ κ} {V : Type ℓ} (P : V → Type κ) where
  -- What holds of every value of a map.
  abbrev pub AllValues : Dict V → Type κ
  AllValues m = All (λ e. P e.1) m

  pub AllValues-remove : (k : String) (m : Dict V) → AllValues m → AllValues (remove k m)
  unfolding remove
  AllValues-remove k [] h = tt
  AllValues-remove k ((j, v) ∷ m) (p, h) = ground (arith, AllValues-remove k m h)

  pub AllValues-insert :
      (k : String) (v : V) (m : Dict V) → P v → AllValues m → AllValues (insert k v m)
  unfolding insert
  AllValues-insert k v m p h = (p, AllValues-remove k m h)

  pub AllValues-keep : (q : V → Bool) (m : Dict V) → AllValues m → AllValues (keep q m)
  unfolding keep
  AllValues-keep q [] h = tt
  AllValues-keep q ((j, v) ∷ m) (p, h) = ground (arith, AllValues-keep q m h)

  pub AllValues-lookup : (k : String) (m : Dict V) {v : V} → AllValues m → lookup k m ≡ some v → P v
  unfolding lookup
  AllValues-lookup k [] h e = cc
  AllValues-lookup k ((j, w) ∷ m) {v} (p, h) e = elim (Bool-cases (j == k)) [
    | inl same ↦ let found : w ≡ v = ground arith in subst P found p
    | inr other ↦ AllValues-lookup k m h (ground arith)
  ]

module _ {ℓ} {V : Type ℓ} where
  -- No key stands twice.
  abbrev pub IsMap : Dict V → Type ℓ
  IsMap [] = Unit
  IsMap ((k, _) ∷ m) = (lookup k m ≡ none) × IsMap m

  pub IsMap-remove : (k : String) (m : Dict V) → IsMap m → IsMap (remove k m)
  unfolding remove
  IsMap-remove k [] h = tt
  IsMap-remove k ((j, v) ∷ m) (new, h) =
      ground (arith, IsMap-remove k m h, lookup-remove k j m, eq_iff j k)

  pub IsMap-insert : (k : String) (v : V) (m : Dict V) → IsMap m → IsMap (insert k v m)
  unfolding insert
  IsMap-insert k v m h = ground (arith, IsMap-remove k m h, lookup-remove k k m, eq_iff k k)

  pub lookup-keep-none :
      (p : V → Bool) (k : String) (m : Dict V) → lookup k m ≡ none → lookup k (keep p m) ≡ none
  unfolding lookup keep
  lookup-keep-none p k [] h = refl
  lookup-keep-none p k ((j, v) ∷ m) h = ground (arith, lookup-keep-none p k m)

  pub IsMap-keep : (p : V → Bool) (m : Dict V) → IsMap m → IsMap (keep p m)
  unfolding keep
  IsMap-keep p [] h = tt
  IsMap-keep p ((j, v) ∷ m) (new, h) = ground (arith, IsMap-keep p m h, lookup-keep-none p j m)

  -- The value under a key, if it passes a test.
  abbrev pub only_if : (V → Bool) → Option V → Option V
  only_if p none = none
  only_if p (some v) = if p v then some v else none

  pub lookup-keep :
      (p : V → Bool) (k : String) (m : Dict V)
      → IsMap m
      → lookup k (keep p m) ≡ only_if p (lookup k m)
  unfolding lookup keep
  lookup-keep p k [] h = refl
  lookup-keep p k ((j, v) ∷ m) (new, h) =
      ground (arith, lookup-keep p k m h, lookup-keep-none p k m, eq_iff j k)
