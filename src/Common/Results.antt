-- ===== src/Common/Results.antt =====
-- `Result` of Rust, with `?` as a bind.
use mathlib.Core.Path.{◌≡◌, refl}
use mathlib.Core.Logic.{◌⊎◌, inl, inr}
use mathlib.Core.Option.{Option, none, some}

pub data Result {ℓ} (E A : Type ℓ) : Type ℓ where
  ok : A → Result E A
  err : E → Result E A

module _ {ℓ} {E A B : Type ℓ} where
  infixl 5 ◌>>=◌
  abbrev pub ◌>>=◌ : Result E A → (A → Result E B) → Result E B
  ok a >>= f = f a
  err e >>= f = err e

  -- `Result::map_err`.
  abbrev pub map_err : (E → B) → Result E A → Result B A
  map_err f (ok a) = ok a
  map_err f (err e) = err (f e)

  -- What holds of every error, and of what the rest returns on a value of the first step.
  pub bind_rule {κ} :
      (P : Result E B → Type κ) (m : Result E A) {f : A → Result E B}
      → ((e : E) → P (err e))
      → ((a : A) → m ≡ ok a → P (f a))
      → P (m >>= f)
  bind_rule P (ok a) h k = k a refl
  bind_rule P (err e) h k = h e

  pub map_err_ok : (f : E → B) (m : Result E A) {a : A} → map_err f m ≡ ok a → m ≡ ok a
  map_err_ok f (ok a) h = cc
  map_err_ok f (err e) h = absurd cc

-- `Option::ok_or`.
abbrev pub ok_or {ℓ} : {E A : Type ℓ} → E → Option A → Result E A
ok_or e none = err e
ok_or e (some a) = ok a

pub ok_or_ok {ℓ} : {E A : Type ℓ} (e : E) (o : Option A) {a : A} → ok_or e o ≡ ok a → o ≡ some a
ok_or_ok e none h = absurd cc
ok_or_ok e (some a) h = cc

pub Result-cases {ℓ} :
    {E A : Type ℓ} (r : Result E A) → ((a : A) × (r ≡ ok a)) ⊎ ((e : E) × (r ≡ err e))
Result-cases (ok a) = inl (a, refl)
Result-cases (err e) = inr (e, refl)
