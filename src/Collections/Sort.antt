-- ===== src/Collections/Sort.antt =====
-- `slice::sort_by`: the stable sort. Every stable sort returns the same list, so this one, by
-- insertion, stands for the standard library's.
use punchgate.Common.{
  ◌≡◌, refl, Bool, List, [], ◌∷◌, arith, Eq, contains, if◌then◌else◌, if_rule, All,
}

module _ {ℓ} {A : Type ℓ} (le : A → A → Bool) where
  unfoldable pub insert_sorted : A → List A → List A
  insert_sorted a [] = a ∷ []
  insert_sorted a (x ∷ xs) = if le a x then a ∷ x ∷ xs else x ∷ insert_sorted a xs

  unfoldable pub sort_by : List A → List A
  unfolding insert_sorted
  sort_by [] = []
  sort_by (x ∷ xs) = insert_sorted x (sort_by xs)

module _ {ℓ} {A : Type ℓ} (le : A → A → Bool) ⦃e : Eq A⦄ where
  contains-insert_sorted :
      (a b : A) (xs : List A) → contains b (insert_sorted le a xs) ≡ contains b (a ∷ xs)
  unfolding insert_sorted
  contains-insert_sorted a b [] = refl
  contains-insert_sorted a b (x ∷ xs) = ground (arith, contains-insert_sorted a b xs)

  pub contains-sort_by : (b : A) (xs : List A) → contains b (sort_by le xs) ≡ contains b xs
  unfolding sort_by
  contains-sort_by b [] = refl
  contains-sort_by b (x ∷ xs) =
      ground (arith, contains-insert_sorted x b (sort_by le xs), contains-sort_by b xs)

module _ {ℓ} {A : Type ℓ} (P : A → Type ℓ) where
  All-insert_sorted :
      (le : A → A → Bool) (a : A) (xs : List A) → P a → All P xs → All P (insert_sorted le a xs)
  unfolding insert_sorted
  All-insert_sorted le a [] p h = (p, tt)
  All-insert_sorted le a (x ∷ xs) p h =
      if_rule (All P) (le a x) {x = a ∷ x ∷ xs} {y = x ∷ insert_sorted le a xs} (p, (h.0, h.1))
        (h.0, All-insert_sorted le a xs p h.1)

  pub All-sort_by : (le : A → A → Bool) (xs : List A) → All P xs → All P (sort_by le xs)
  unfolding sort_by
  All-sort_by le [] h = tt
  All-sort_by le (x ∷ xs) h = All-insert_sorted le x (sort_by le xs) h.0 (All-sort_by le xs h.1)
