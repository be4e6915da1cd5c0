-- ===== src/Collections/Weight.antt =====
-- The weight of a map: the sum of a number for each entry, and how it changes with the map.
use punchgate.Common.{ℕ, ◌+◌, ◌≡◌, refl, Option, none, some, [], ◌∷◌, arith, Eq}
use punchgate.Collections.HashMap.{HashMap, get, insert, remove, IsMap}

module _ {ℓ} {K V : Type ℓ} (w : K → V → ℕ) where
  unfoldable pub weight : HashMap K V → ℕ
  weight [] = 0
  weight ((k, v) ∷ m) = w k v + weight m

  -- The number of the entry that a lookup finds.
  abbrev pub weight_at : K → Option V → ℕ
  weight_at k none = 0
  weight_at k (some v) = w k v

module _ {ℓ} {K V : Type ℓ} ⦃e : Eq K⦄ (w : K → V → ℕ) where
  pub weight-insert :
      (k : K) (v : V) (m : HashMap K V)
      → weight w (insert k v m) + weight_at w k (get k m) ≡ weight w m + w k v
  unfolding weight insert get
  weight-insert k v [] = omega arith
  weight-insert k v ((j, u) ∷ m) = ground (arith, weight-insert k v m)

  weight-remove_absent :
      (k : K) (m : HashMap K V) → get k m ≡ none → weight w (remove k m) ≡ weight w m
  unfolding weight remove get
  weight-remove_absent k [] h = refl
  weight-remove_absent k ((j, u) ∷ m) h = ground (arith, weight-remove_absent k m)

  pub weight-remove :
      (k : K) (m : HashMap K V)
      → IsMap m
      → weight w (remove k m) + weight_at w k (get k m) ≡ weight w m
  unfolding weight remove get
  weight-remove k [] h = omega arith
  weight-remove k ((j, u) ∷ m) h = ground (arith, weight-remove k m h.1, weight-remove_absent k m)
