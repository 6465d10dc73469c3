-- ===== src/Common/Outcome.antt =====
-- The outcome of a Go call: a value, an error (its text), or a run-time panic.
use mathlib.Core.Path.{◌≡◌, refl}
use mathlib.Core.Logic.{◌⊎◌, inl, inr}
use Prim.Native.String.{String, ◌++◌ as ◌<>◌}

pub data Result {ℓ} (A : Type ℓ) : Type ℓ where
  ok : A → Result A
  err : String → Result A
  panic : Result A

infixl 10 ◌>>=◌
abbrev pub ◌>>=◌ {ℓ κ} : {A : Type ℓ} {B : Type κ} → Result A → (A → Result B) → Result B
ok a >>= f = f a
err e >>= f = err e
panic >>= f = panic

-- `fmt.Errorf("…: %w", err)`
abbrev pub wrap {ℓ} : {A : Type ℓ} → String → Result A → Result A
wrap prefix (ok a) = ok a
wrap prefix (err e) = err (prefix <> e)
wrap prefix panic = panic

pub ok-injective {ℓ} : {A : Type ℓ} {a b : A} → ok a ≡ ok b → a ≡ b
ok-injective h = cc

pub Result-cases {ℓ} :
    {A : Type ℓ} (r : Result A)
    → (r ≡ panic) ⊎ (((m : String) × (r ≡ err m)) ⊎ ((a : A) × (r ≡ ok a)))
Result-cases panic = inl refl
Result-cases (err m) = inr (inl (m, refl))
Result-cases (ok a) = inr (inr (a, refl))
