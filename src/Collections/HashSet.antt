-- ===== src/Collections/HashSet.antt =====
-- `std::collections::HashSet` as a list without repetitions; its order stands for the iteration
-- order, which the standard library leaves open.
use punchgate.Common.{
  ◌≡◌, refl, ◌==◌, ◌&&◌, ◌||◌, Bool, false, not, List, [], ◌∷◌, ◌++◌, arith, Eq, contains,
  contains-append, if◌then◌else◌,
}

abbrev pub HashSet {ℓ} : Type ℓ → Type ℓ
HashSet A = List A

module _ {ℓ} {A : Type ℓ} where
  unfoldable pub retain : (A → Bool) → HashSet A → HashSet A
  retain p [] = []
  retain p (x ∷ s) = let rest = retain p s in if p x then x ∷ rest else rest

module _ {ℓ} {A : Type ℓ} ⦃e : Eq A⦄ where
  unfoldable pub insert : A → HashSet A → HashSet A
  insert a s = if contains a s then s else s ++ a ∷ []

  -- What the call of `insert` returns: whether the value was new.
  abbrev pub inserted : A → HashSet A → Bool
  inserted a s = not (contains a s)

  unfoldable pub remove : A → HashSet A → HashSet A
  remove a [] = []
  remove a (x ∷ s) = let rest = remove a s in if a == x then rest else x ∷ rest

  pub contains-insert :
      (a b : A) (s : HashSet A) → contains b (insert a s) ≡ (b == a || contains b s)
  unfolding insert
  contains-insert a b s = ground (arith, contains-append b s (a ∷ []))

  pub contains-remove :
      (a b : A) (s : HashSet A) → contains b (remove a s) ≡ (not (b == a) && contains b s)
  unfolding remove
  contains-remove a b [] = ground arith
  contains-remove a b (x ∷ s) = ground (arith, contains-remove a b s)

  contains-retain :
      (p : A → Bool) (b : A) (s : HashSet A)
      → contains b s ≡ false
      → contains b (retain p s) ≡ false
  unfolding retain
  contains-retain p b [] h = refl
  contains-retain p b (x ∷ s) h = ground (arith, contains-retain p b s)

  -- What a sweep keeps is what passes the test.
  pub contains-retain_iff :
      (p : A → Bool) (b : A) (s : HashSet A)
      → contains b (retain p s) ≡ (if p b then contains b s else false)
  unfolding retain
  contains-retain_iff p b [] = ground arith
  contains-retain_iff p b (x ∷ s) = ground (arith, contains-retain_iff p b s)

  -- No value stands twice: what a `HashSet` guarantees.
  abbrev pub IsDistinct : HashSet A → Type 0
  IsDistinct [] = Unit {0}
  IsDistinct (x ∷ s) = (contains x s ≡ false) × IsDistinct s

  append-IsDistinct :
      (a : A) (s : HashSet A) → contains a s ≡ false → IsDistinct s → IsDistinct (s ++ a ∷ [])
  append-IsDistinct a [] h d = (refl, tt)
  append-IsDistinct a (x ∷ s) h d =
      ground (arith, append-IsDistinct a s, contains-append x s (a ∷ []))

  pub insert-IsDistinct : (a : A) (s : HashSet A) → IsDistinct s → IsDistinct (insert a s)
  unfolding insert
  insert-IsDistinct a s d = ground (arith, append-IsDistinct a s)

  pub remove-IsDistinct : (a : A) (s : HashSet A) → IsDistinct s → IsDistinct (remove a s)
  unfolding remove
  remove-IsDistinct a [] d = tt
  remove-IsDistinct a (x ∷ s) d = ground (arith, remove-IsDistinct a s d.1, contains-remove a x s)

  pub retain-IsDistinct : (p : A → Bool) (s : HashSet A) → IsDistinct s → IsDistinct (retain p s)
  unfolding retain
  retain-IsDistinct p [] d = tt
  retain-IsDistinct p (x ∷ s) d = ground (arith, retain-IsDistinct p s d.1, contains-retain p x s)
