-- ===== src/Common/Sorting.antt =====
-- `slices.SortFunc`, `slices.Sort` and `sort.Strings`, as an insertion sort. Go's algorithm is
-- another, and not stable, which can differ only where keys are equal.
pub mod Laws
pub mod Unique
use Prim.Native.String.{String}
use mathlib.Core.Bool.{Bool, true, false}
use mathlib.Core.Path.{◌≡◌}
use mathlib.Core.List.{List, [], ◌∷◌}
use event_correlator_tool.Common.Int.{ℤ, pos, negsuc}
use event_correlator_tool.Common.Text.{str_lt, if◌then◌else◌}

module _ {ℓ} {A : Type ℓ} (lt : A → A → Bool) where
  unfoldable pub insert : A → List A → List A
  insert x [] = x ∷ []
  insert x (y ∷ ys) = if lt y x then y ∷ insert x ys else x ∷ y ∷ ys

  unfoldable pub sort : List A → List A
  unfolding insert
  sort [] = []
  sort (x ∷ xs) = insert x (sort xs)

abbrev pub is_negative : ℤ → Bool
is_negative (pos n) = false
is_negative (negsuc n) = true

-- `slices.SortFunc(l, cmp)`
unfoldable pub sort_func {ℓ} : {A : Type ℓ} → (A → A → ℤ) → List A → List A
unfolding sort
sort_func cmp = sort (λ a b. is_negative (cmp a b))

-- `slices.Sort` and `sort.Strings`
unfoldable pub sort_strings : List String → List String
unfolding sort
sort_strings = sort str_lt

-- The neighbours of a list are in order.
abbrev pub IsAscending {ℓ} : {A : Type ℓ} → (A → String) → List A → Type 0
IsAscending key [] = Unit
IsAscending key (x ∷ []) = Unit
IsAscending key (x ∷ y ∷ l) = (str_lt (key y) (key x) ≡ false) × IsAscending key (y ∷ l)
