-- ===== src/Common/Sorting/Laws.antt =====
-- What sorting does to a list.
use Prim.Native.String.{String}
use Prim.Native.Nat.{suc}
use mathlib.Core.Path.{◌≡◌, refl, ap, ◌∙◌}
use mathlib.Core.Bool.{Bool, true, false, ◌||◌}
use mathlib.Core.List.{List, [], ◌∷◌, map, Perm}
use mathlib.Core.List.Perm
use native.Mathlib.Omega.{arith}
use event_correlator_tool.Common.Text.{str_lt, str_lt_irrefl, str_lt_trans, Bool-cases, ◌==◌}
use event_correlator_tool.Common.Lists.{contains, length, Distinct, Every}
use mathlib.Core.Logic.{inl, inr}
use event_correlator_tool.Common.Sorting.{insert, sort, sort_strings, IsAscending}

module _ {ℓ} {A : Type ℓ} (lt : A → A → Bool) where
  insert-perm : (x : A) (l : List A) → Perm (insert lt x l) (x ∷ l)
  unfolding insert
  insert-perm x [] = Perm.rfl
  insert-perm x (y ∷ ys) = elim (Bool-cases (lt y x)) [
    | inl e ↦ rw e (Perm.trans (Perm.cons y (insert-perm x ys)) (Perm.swap x y ys))
    | inr e ↦ rw e Perm.rfl
  ]

  pub sort-perm : (l : List A) → Perm (sort lt l) l
  unfolding sort
  sort-perm [] = Perm.rfl
  sort-perm (x ∷ l) = Perm.trans (insert-perm x (sort lt l)) (Perm.cons x (sort-perm l))

module _ {ℓ} {A : Type ℓ} (key : A → String) where
  abbrev by_key : A → A → Bool
  by_key a b = str_lt (key a) (key b)

  str_lt_asymm : (s t : String) → str_lt s t ≡ true → str_lt t s ≡ false
  str_lt_asymm s t h = ground (arith, str_lt_trans s t s, str_lt_irrefl s)

  insert-IsAscending :
      (x : A) (l : List A) → IsAscending key l → IsAscending key (insert by_key x l)
  unfolding insert
  insert-IsAscending x [] h = tt
  insert-IsAscending x (y ∷ []) h = ground (arith, str_lt_asymm (key y) (key x))
  insert-IsAscending x (y ∷ z ∷ l) h =
      ground (arith, str_lt_asymm (key y) (key x), insert-IsAscending x (z ∷ l))

  pub sort-IsAscending : (l : List A) → IsAscending key (sort by_key l)
  unfolding sort
  sort-IsAscending [] = tt
  sort-IsAscending (x ∷ l) = insert-IsAscending x (sort by_key l) (sort-IsAscending l)

module _ {ℓ} {A : Type ℓ} (lt : A → A → Bool) (key : A → String) where
  contains-insert :
      (x : A) (l : List A) (a : String)
      → contains (map key (insert lt x l)) a ≡ ((key x == a) || contains (map key l) a)
  unfolding insert contains
  contains-insert x [] a = refl
  contains-insert x (y ∷ l) a = ground (arith, contains-insert x l a)

  -- Sorting keeps the keys.
  pub contains-sort :
      (l : List A) (a : String) → contains (map key (sort lt l)) a ≡ contains (map key l) a
  unfolding sort contains
  contains-sort [] a = refl
  contains-sort (x ∷ l) a = ground (arith, contains-insert x (sort lt l) a, contains-sort l a)

  Distinct-insert :
      (x : A) (l : List A)
      → contains (map key l) (key x) ≡ false
      → Distinct (map key l)
      → Distinct (map key (insert lt x l))
  unfolding insert contains
  Distinct-insert x [] n h = (refl, tt)
  Distinct-insert x (y ∷ l) n h = ground (arith, Distinct-insert x l, contains-insert x l (key y))

  -- Keys that differ still differ.
  pub Distinct-sort : (l : List A) → Distinct (map key l) → Distinct (map key (sort lt l))
  unfolding sort contains
  Distinct-sort [] h = h
  Distinct-sort (x ∷ l) h =
      Distinct-insert x (sort lt l) (contains-sort l (key x) ∙ h.0) (Distinct-sort l h.1)

module _ {ℓ κ} {A : Type ℓ} (lt : A → A → Bool) (P : A → Type κ) where
  Every-insert : (x : A) (l : List A) → P x → Every P l → Every P (insert lt x l)
  unfolding insert
  Every-insert x [] p h = (p, tt)
  Every-insert x (y ∷ l) p (q, h) = elim (Bool-cases (lt y x)) [
    | inl e ↦ rw e (q, Every-insert x l p h)
    | inr e ↦ rw e (p, (q, h))
  ]

  pub Every-sort : (l : List A) → Every P l → Every P (sort lt l)
  unfolding sort
  Every-sort [] h = h
  Every-sort (x ∷ l) (p, h) = Every-insert x (sort lt l) p (Every-sort l h)

module _ {ℓ} {A : Type ℓ} (lt : A → A → Bool) where
  length-insert : (x : A) (l : List A) → length (insert lt x l) ≡ suc (length l)
  unfolding insert
  length-insert x [] = refl
  length-insert x (y ∷ l) = ground (arith, length-insert x l)

  pub length-sort : (l : List A) → length (sort lt l) ≡ length l
  unfolding sort
  length-sort [] = refl
  length-sort (x ∷ l) = omega (arith, length-insert x (sort lt l), length-sort l)

map_self : (l : List String) → map (λ (x : String). x) l ≡ l
map_self [] = refl
map_self (x ∷ l) = ap (◌∷◌ x) (map_self l)

pub contains-sort_strings :
    (l : List String) (a : String) → contains (sort_strings l) a ≡ contains l a
unfolding sort_strings
contains-sort_strings l a = simp map_self at (contains-sort str_lt (λ (x : String). x) l a)

pub sort_strings-IsAscending : (l : List String) → IsAscending (λ (x : String). x) (sort_strings l)
unfolding sort_strings
sort_strings-IsAscending l = sort-IsAscending (λ (x : String). x) l

pub IsAscending-map {ℓ} :
    {A : Type ℓ} (key : A → String) (l : List A)
    → IsAscending key l
    → IsAscending (λ (x : String). x) (map key l)
IsAscending-map key [] h = tt
IsAscending-map key (x ∷ []) h = tt
IsAscending-map key (x ∷ y ∷ l) h = (h.0, IsAscending-map key (y ∷ l) h.1)
