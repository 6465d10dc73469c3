-- ===== src/Common/Lists/Counting.antt =====
-- Counting distinct texts.
use Prim.Native.Nat.{suc, ◌≤◌}
use Prim.Native.String.{String}
use mathlib.Core.Path.{◌≡◌}
use mathlib.Core.Logic.{◌≢◌}
use mathlib.Core.Bool.{true}
use mathlib.Core.List.{List, [], ◌∷◌}
use native.Mathlib.Omega.{arith}
use event_correlator_tool.Common.Text.{◌==◌, if◌then◌else◌}
use event_correlator_tool.Common.Lists.{length, contains, Distinct, Subset}

without : String → List String → List String
without a [] = []
without a (x ∷ xs) = if x == a then xs else x ∷ without a xs

length-without :
    (a : String) (xs : List String) → contains xs a ≡ true → suc (length (without a xs)) ≡ length xs
unfolding without contains
length-without a [] h = cc
length-without a (x ∷ xs) h = ground (arith, length-without a xs)

contains-without :
    (a b : String) (xs : List String)
    → a ≢ b
    → contains xs b ≡ true
    → contains (without a xs) b ≡ true
unfolding without contains
contains-without a b [] n h = h
contains-without a b (x ∷ xs) n h = ground (arith, contains-without a b xs n)

pub length-le_of_Subset : (xs ys : List String) → Distinct xs → Subset xs ys → length xs ≤ length ys
unfolding contains
length-le_of_Subset [] ys d h = omega arith
length-le_of_Subset (x ∷ xs) ys (new, d) h =
    let found : contains ys x ≡ true = h x (ground arith) in
    omega (
      arith,
      length-without x ys found,
      length-le_of_Subset xs (without x ys) d
          (λ a m. contains-without x a ys (λ e. ground arith) (h a (ground arith))),
    )
