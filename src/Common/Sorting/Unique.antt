-- ===== src/Common/Sorting/Unique.antt =====
-- Sorting permutations of one list.
use Prim.Native.String.{String}
use mathlib.Core.Path.{◌≡◌, refl, ◌∙◌, ap, ap₂, subst}
use mathlib.Core.Logic.{◌≢◌, ∥∥₁_elim}
use mathlib.Core.Bool.{Bool, true, false}
use mathlib.Core.List.{List, [], ◌∷◌, map, Perm, Permᴰ}
use native.Mathlib.Omega.{arith}
use event_correlator_tool.Common.Text.{str_lt, str_lt_irrefl, str_lt_trans, str_lt_total}
use event_correlator_tool.Common.Lists.{contains, Distinct, Every}
use event_correlator_tool.Common.Sorting.{insert, sort, IsAscending}

list_set {ℓ} : {A : Type ℓ} → IsSet A → IsSet (List A)
list_set s = hlevel s

pub Every-perm {ℓ κ} :
    {A : Type ℓ} (P : A → Type κ) {l r : List A} → Permᴰ l r → Every P l → Every P r
Every-perm P Permᴰ.nil h = h
Every-perm P (Permᴰ.cons e p) (x, h) = (subst P e x, Every-perm P p h)
Every-perm P (Permᴰ.swap e f) (x, (y, h)) = (subst P f y, (subst P e x, h))
Every-perm P (Permᴰ.trans p q) h = Every-perm P q (Every-perm P p h)

pub nil_of_perm {ℓ} : {A : Type ℓ} {l r : List A} → Permᴰ l r → r ≡ [] → l ≡ []
nil_of_perm Permᴰ.nil h = refl
nil_of_perm (Permᴰ.cons e p) h = cc
nil_of_perm (Permᴰ.swap e f) h = cc
nil_of_perm (Permᴰ.trans p q) h = nil_of_perm p (nil_of_perm q h)

pub contains_of_perm : {l r : List String} (a : String) → Permᴰ l r → contains l a ≡ contains r a
unfolding contains
contains_of_perm a Permᴰ.nil = refl
contains_of_perm a (Permᴰ.cons e p) = ground (arith, contains_of_perm a p)
contains_of_perm a (Permᴰ.swap e f) = ground arith
contains_of_perm a (Permᴰ.trans p q) = contains_of_perm a p ∙ contains_of_perm a q

module _ {ℓ} {A : Type ℓ} (key : A → String) where
  abbrev by_key : A → A → Bool
  by_key a b = str_lt (key a) (key b)

  insert_comm :
      (x y : A) (l : List A)
      → key x ≢ key y
      → insert by_key x (insert by_key y l) ≡ insert by_key y (insert by_key x l)
  unfolding insert
  insert_comm x y [] h = ground (
    arith,
    str_lt_total (key x) (key y),
    str_lt_trans (key x) (key y) (key x),
    str_lt_irrefl (key x),
  )
  insert_comm x y (z ∷ l) h = ground (
    arith,
    str_lt_total (key x) (key y),
    str_lt_trans (key x) (key y) (key x),
    str_lt_irrefl (key x),
    str_lt_trans (key z) (key x) (key y),
    str_lt_trans (key z) (key y) (key x),
    insert_comm x y l h,
  )

  pub contains-perm :
      {l r : List A} (a : String) → Permᴰ l r → contains (map key l) a ≡ contains (map key r) a
  unfolding contains
  contains-perm a Permᴰ.nil = refl
  contains-perm a (Permᴰ.cons e p) = ground (arith, contains-perm a p, ap key e)
  contains-perm a (Permᴰ.swap e f) = ground (arith, ap key e, ap key f)
  contains-perm a (Permᴰ.trans p q) = contains-perm a p ∙ contains-perm a q

  pub Distinct-perm : {l r : List A} → Permᴰ l r → Distinct (map key l) → Distinct (map key r)
  unfolding contains
  Distinct-perm Permᴰ.nil h = h
  Distinct-perm (Permᴰ.cons {b} {l₂} e p) h =
      ground (arith, contains-perm (key b) p, ap key e, Distinct-perm p h.1)
  Distinct-perm (Permᴰ.swap e f) h = ground (arith, ap key e, ap key f)
  Distinct-perm (Permᴰ.trans p q) h = Distinct-perm q (Distinct-perm p h)

  heads_ne : (a b : A) (l : List A) → Distinct (map key (a ∷ b ∷ l)) → key a ≢ key b
  unfolding contains
  heads_ne a b l h e = ground arith

  sort-eq_of_permᴰ :
      {l r : List A} → Permᴰ l r → Distinct (map key l) → sort by_key l ≡ sort by_key r
  unfolding sort
  sort-eq_of_permᴰ Permᴰ.nil h = refl
  sort-eq_of_permᴰ (Permᴰ.cons e p) h = ap₂ (insert by_key) e (sort-eq_of_permᴰ p h.1)
  sort-eq_of_permᴰ (Permᴰ.swap {a} {b} {l} e f) h =
      cc (insert_comm a b (sort by_key l) (heads_ne a b l h))
  sort-eq_of_permᴰ (Permᴰ.trans p q) h =
      sort-eq_of_permᴰ p h ∙ sort-eq_of_permᴰ q (Distinct-perm p h)

  -- The order of the input does not matter.
  pub sort-eq_of_perm :
      {l r : List A} → IsSet A → Perm l r → Distinct (map key l) → sort by_key l ≡ sort by_key r
  sort-eq_of_perm {l} {r} s p h =
      ∥∥₁_elim p (list_set s (sort by_key l) (sort by_key r)) (λ q. sort-eq_of_permᴰ q h)

abbrev IsSorted : List String → Type 0
IsSorted = IsAscending (λ (x : String). x)

least_head :
    (x : String) (l : List String) (a : String)
    → IsSorted (x ∷ l)
    → contains l a ≡ true
    → str_lt a x ≡ false
unfolding contains
least_head x [] a h m = cc
least_head x (y ∷ l) a h m = ground (
  arith,
  least_head y l a,
  str_lt_trans a x y,
  str_lt_total a x,
  str_lt_total x y,
  str_lt_irrefl x,
  str_lt_irrefl a,
)

IsSorted-tail : (x : String) (l : List String) → IsSorted (x ∷ l) → IsSorted l
IsSorted-tail x [] h = tt
IsSorted-tail x (y ∷ l) h = h.1

heads_eq :
    (x y : String) (l r : List String)
    → IsSorted (x ∷ l)
    → IsSorted (y ∷ r)
    → ((a : String) → contains (x ∷ l) a ≡ contains (y ∷ r) a)
    → x ≡ y
unfolding contains
heads_eq x y l r h k e =
    ground (arith, e x, e y, least_head x l y h, least_head y r x k, str_lt_total x y)

-- Lists in ascending order with the same elements, each once, are equal.
pub IsAscending-unique :
    (l r : List String)
    → IsAscending (λ (x : String). x) l
    → IsAscending (λ (x : String). x) r
    → Distinct l
    → Distinct r
    → ((a : String) → contains l a ≡ contains r a)
    → l ≡ r
unfolding contains
IsAscending-unique [] [] h k d c e = refl
IsAscending-unique [] (y ∷ r) h k d c e = ground (arith, e y)
IsAscending-unique (x ∷ l) [] h k d c e = ground (arith, e x)
IsAscending-unique (x ∷ l) (y ∷ r) h k d c e =
    let same = heads_eq x y l r h k (λ a. unfold contains in e a) in
    ap₂ (◌∷◌) same (
      IsAscending-unique l r (IsSorted-tail x l h) (IsSorted-tail y r k) d.1 c.1
        (λ a. ground (arith, e a, d.0, c.0, same)))
