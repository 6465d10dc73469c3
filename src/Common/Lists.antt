-- ===== src/Common/Lists.antt =====
-- Lists measured by native numbers, and searched.
pub mod Counting
use Prim.Native.Nat.{ℕ, zero, suc, ◌+◌, ◌≤◌, ◌<◌}
use Prim.Native.String.{String}
use mathlib.Core.Path.{◌≡◌, refl}
use mathlib.Core.Logic.{◌⊎◌, inl, inr, ◌≢◌}
use mathlib.Core.Bool.{Bool, true, false, ◌||◌}
use mathlib.Core.Option.{Option, none, some}
use mathlib.Core.List.{List, [], ◌∷◌, ◌++◌}
use native.Mathlib.Omega.{arith}
use event_correlator_tool.Common.Text.{◌==◌, if◌then◌else◌}

module _ {ℓ} {A : Type ℓ} where
  abbrev pub length : List A → ℕ
  length [] = 0
  length (x ∷ xs) = suc (length xs)

  pub length-append : (xs ys : List A) → length (xs ++ ys) ≡ length xs + length ys
  length-append [] ys = omega arith
  length-append (x ∷ xs) ys = omega (arith, length-append xs ys)

  abbrev pub take : ℕ → List A → List A
  take zero xs = []
  take (suc n) [] = []
  take (suc n) (x ∷ xs) = x ∷ take n xs

  pub length-take : (n : ℕ) (l : List A) → length (take n l) ≤ n
  length-take zero l = omega arith
  length-take (suc n) [] = omega arith
  length-take (suc n) (x ∷ l) = omega (arith, length-take n l)

  pub take-ne-nil : (n : ℕ) (l : List A) → 0 < n → l ≢ [] → take n l ≢ []
  take-ne-nil zero l h k = absurd (omega arith)
  take-ne-nil (suc n) [] h k = k
  take-ne-nil (suc n) (x ∷ l) h k = λ e. cc

  -- The elements that pass a test, in their order.
  abbrev pub keep : (A → Bool) → List A → List A
  keep p [] = []
  keep p (x ∷ xs) = let rest = keep p xs in if p x then x ∷ rest else rest

  -- A predicate holds of each element.
  abbrev pub Every {κ} : (A → Type κ) → List A → Type κ
  Every P [] = Unit
  Every P (x ∷ xs) = P x × Every P xs

  pub Every-take {κ} : (P : A → Type κ) (n : ℕ) (l : List A) → Every P l → Every P (take n l)
  Every-take P zero l h = tt
  Every-take P (suc n) [] h = tt
  Every-take P (suc n) (x ∷ l) h = (h.0, Every-take P n l h.1)

  pub Option-cases : (o : Option A) → (o ≡ none) ⊎ ((a : A) × (o ≡ some a))
  Option-cases none = inl refl
  Option-cases (some a) = inr (a, refl)

  pub List-cases : (l : List A) → (l ≡ []) ⊎ ((x : A) × (xs : List A) × (l ≡ x ∷ xs))
  List-cases [] = inl refl
  List-cases (x ∷ xs) = inr (x, xs, refl)

-- `slices.Contains`
unfoldable pub contains : List String → String → Bool
contains [] a = false
contains (x ∷ xs) a = (x == a) || contains xs a

pub contains-append :
    (xs ys : List String) (a : String) → contains (xs ++ ys) a ≡ (contains xs a || contains ys a)
unfolding contains
contains-append [] ys a = refl
contains-append (x ∷ xs) ys a = ground (arith, contains-append xs ys a)

-- No text occurs twice.
abbrev pub Distinct : List String → Type 0
Distinct [] = Unit
Distinct (x ∷ xs) = (contains xs x ≡ false) × Distinct xs

abbrev pub Subset : List String → List String → Type 0
Subset xs ys = (a : String) → contains xs a ≡ true → contains ys a ≡ true

pub Every-keep {ℓ κ} :
    {A : Type ℓ} (P : A → Type κ) (p : A → Bool) (rows : List A)
    → Every P rows
    → Every P (keep p rows)
Every-keep P p [] h = tt
Every-keep P p (row ∷ rows) (x, h) = Every-if (p row) (x, Every-keep P p rows h)
  where
    Every-if :
        (b : Bool)
        → Every P (row ∷ keep p rows)
        → Every P (if b then row ∷ keep p rows else keep p rows)
    Every-if true k = k
    Every-if false (x, k) = k

pub Every-snoc {ℓ κ} :
    {A : Type ℓ} (P : A → Type κ) (rows : List A) (row : A)
    → Every P rows
    → P row
    → Every P (rows ++ row ∷ [])
Every-snoc P [] row h x = (x, tt)
Every-snoc P (r ∷ rows) row (y, h) x = (y, Every-snoc P rows row h x)
