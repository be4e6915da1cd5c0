-- ===== src/Collections/HashMap.antt =====
-- `std::collections::HashMap` as an association list with one entry for a key. The order of the
-- entries stands for the map's iteration order, which the standard library leaves open: a
-- theorem over every map is a theorem over every order.
use punchgate.Common.{
  ◌≡◌, refl, ite, Bool, true, false, Option, none, some, List, [], ◌∷◌, arith, Eq, if◌then◌else◌,
}

abbrev pub HashMap {ℓ} : Type ℓ → Type ℓ → Type ℓ
HashMap K V = List (K × V)

module _ {ℓ} {K V : Type ℓ} where
  abbrev pub keys : HashMap K V → List K
  keys [] = []
  keys ((k, v) ∷ m) = k ∷ keys m

  abbrev pub values : HashMap K V → List V
  values [] = []
  values ((k, v) ∷ m) = v ∷ values m

  unfoldable pub retain : (K → V → Bool) → HashMap K V → HashMap K V
  retain p [] = []
  retain p ((k, v) ∷ m) = let rest = retain p m in if p k v then (k, v) ∷ rest else rest

abbrev pub get_or {ℓ} : {A : Type ℓ} → Option A → A → A
get_or none d = d
get_or (some a) d = a

abbrev pub map_some {ℓ} : {A B : Type ℓ} → (A → B) → Option A → Option B
map_some f none = none
map_some f (some a) = some (f a)

abbrev pub is_some {ℓ} : {A : Type ℓ} → Option A → Bool
is_some none = false
is_some (some a) = true

module _ {ℓ} {K V : Type ℓ} ⦃e : Eq K⦄ where
  unfoldable pub get : K → HashMap K V → Option V
  get q [] = none
  get q ((k, v) ∷ m) = ite (e.dec k q) (some v) (get q m)

  abbrev pub contains_key : K → HashMap K V → Bool
  contains_key q m = is_some (get q m)

  unfoldable pub insert : K → V → HashMap K V → HashMap K V
  insert q w [] = (q, w) ∷ []
  insert q w ((k, v) ∷ m) = ite (e.dec k q) ((q, w) ∷ m) ((k, v) ∷ insert q w m)

  unfoldable pub remove : K → HashMap K V → HashMap K V
  remove q [] = []
  remove q ((k, v) ∷ m) = ite (e.dec k q) (remove q m) ((k, v) ∷ remove q m)

  -- `entry(k).or_insert(d)`, then a change through the reference.
  abbrev pub upsert : K → V → (V → V) → HashMap K V → HashMap K V
  upsert q d f m = insert q (f (get_or (get q m) d)) m

  -- `if let Some(v) = get_mut(k)`, then a change through the reference.
  unfoldable pub modify : K → (V → V) → HashMap K V → HashMap K V
  modify q f [] = []
  modify q f ((k, v) ∷ m) = ite (e.dec k q) ((k, f v) ∷ m) ((k, v) ∷ modify q f m)

  pub get-insert :
      (q p : K) (w : V) (m : HashMap K V)
      → get p (insert q w m) ≡ ite (e.dec q p) (some w) (get p m)
  unfolding get insert
  get-insert q p w [] = refl
  get-insert q p w ((k, v) ∷ m) = ground (arith, get-insert q p w m)

  pub get-remove : (q p : K) (m : HashMap K V) → get p (remove q m) ≡ ite (e.dec q p) none (get p m)
  unfolding get remove
  get-remove q p [] = ground arith
  get-remove q p ((k, v) ∷ m) = ground (arith, get-remove q p m)

  pub get-modify :
      (q p : K) (f : V → V) (m : HashMap K V)
      → get p (modify q f m) ≡ ite (e.dec q p) (map_some f (get p m)) (get p m)
  unfolding get modify
  get-modify q p f [] = ground arith
  get-modify q p f ((k, v) ∷ m) = ground (arith, get-modify q p f m)

  -- No key has two entries: what a `HashMap` guarantees.
  abbrev pub IsMap : HashMap K V → Type 0
  IsMap [] = Unit {0}
  IsMap ((k, v) ∷ m) = (contains_key k m ≡ false) × IsMap m

  pub insert-IsMap : (q : K) (w : V) (m : HashMap K V) → IsMap m → IsMap (insert q w m)
  unfolding insert get
  insert-IsMap q w [] h = (refl, tt)
  insert-IsMap q w ((k, v) ∷ m) h = ground (arith, get-insert q k w m, insert-IsMap q w m h.1)

  pub remove-IsMap : (q : K) (m : HashMap K V) → IsMap m → IsMap (remove q m)
  unfolding remove
  remove-IsMap q [] h = tt
  remove-IsMap q ((k, v) ∷ m) h = ground (arith, get-remove q k m, remove-IsMap q m h.1)

  pub modify-IsMap : (q : K) (f : V → V) (m : HashMap K V) → IsMap m → IsMap (modify q f m)
  unfolding modify
  modify-IsMap q f [] h = tt
  modify-IsMap q f ((k, v) ∷ m) h = ground (arith, get-modify q k f m, modify-IsMap q f m h.1)

  get-retain-none :
      (q : K) (p : K → V → Bool) (m : HashMap K V) → get q m ≡ none → get q (retain p m) ≡ none
  unfolding get retain
  get-retain-none q p [] h = refl
  get-retain-none q p ((k, v) ∷ m) h = ground (arith, get-retain-none q p m)

  pub retain-IsMap : (p : K → V → Bool) (m : HashMap K V) → IsMap m → IsMap (retain p m)
  unfolding retain
  retain-IsMap p [] h = tt
  retain-IsMap p ((k, v) ∷ m) h = ground (arith, get-retain-none k p m, retain-IsMap p m h.1)

  -- What a sweep keeps is what passes the test.
  pub get-retain :
      (q : K) (p : K → V → Bool) (m : HashMap K V)
      → IsMap m
      → get q (retain p m)
        ≡ elim (get q m) [ none ↦ none | some v ↦ if p q v then some v else none ]
  unfolding get retain
  get-retain q p [] h = refl
  get-retain q p ((k, v) ∷ m) h = ground (arith, get-retain q p m h.1, get-retain-none q p m)
