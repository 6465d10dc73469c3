-- ===== src/Common/Dict.antt =====
-- Go's maps with string keys, as the entries in the order in which they were first set. A loop
-- over a Go map visits its entries in an order that Go leaves open; here it is this order.
use Prim.Native.String.{String}
use mathlib.Core.Path.{◌≡◌, refl}
use mathlib.Core.Logic.{◌⊎◌}
use mathlib.Core.Bool.{Bool, true, false, ◌||◌}
use mathlib.Core.Option.{Option, none, some}
use mathlib.Core.List.{List, [], ◌∷◌}
use native.Mathlib.Omega.{arith}
use event_correlator_tool.Common.Text.{◌==◌, if◌then◌else◌}
use event_correlator_tool.Common.Lists.{contains, Distinct}

abbrev pub Dict {ℓ} : Type ℓ → Type ℓ
Dict V = List (String × V)

module _ {ℓ} {V : Type ℓ} where
  -- `v, ok := d[k]`
  unfoldable pub get : Dict V → String → Option V
  get [] k = none
  get ((j, v) ∷ d) k = if j == k then some v else get d k

  -- `d[k] = v`
  unfoldable pub set : Dict V → String → V → Dict V
  set [] k v = (k, v) ∷ []
  set ((j, w) ∷ d) k v = if j == k then (k, v) ∷ d else (j, w) ∷ set d k v

  -- `delete(d, k)`
  unfoldable pub delete : Dict V → String → Dict V
  delete [] k = []
  delete ((j, w) ∷ d) k = let rest = delete d k in if j == k then rest else (j, w) ∷ rest

  unfoldable pub keys : Dict V → List String
  keys [] = []
  keys ((j, w) ∷ d) = j ∷ keys d

  -- `_, ok := d[k]`
  unfoldable pub has : Dict V → String → Bool
  has [] k = false
  has ((j, v) ∷ d) k = (j == k) || has d k

  pub get-set :
      (d : Dict V) (k j : String) (v : V) → get (set d k v) j ≡ (if k == j then some v else get d j)
  unfolding get set
  get-set [] k j v = refl
  get-set ((i, w) ∷ d) k j v = ground (arith, get-set d k j v)

  pub get-delete :
      (d : Dict V) (k j : String) → get (delete d k) j ≡ (if k == j then none else get d j)
  unfolding get delete
  get-delete [] k j = ground arith
  get-delete ((i, w) ∷ d) k j = ground (arith, get-delete d k j)

  pub has-set : (d : Dict V) (k j : String) (v : V) → has (set d k v) j ≡ ((k == j) || has d j)
  unfolding has set
  has-set [] k j v = refl
  has-set ((i, w) ∷ d) k j v = ground (arith, has-set d k j v)

  pub contains-keys : (d : Dict V) (k : String) → contains (keys d) k ≡ has d k
  unfolding contains keys has
  contains-keys [] k = refl
  contains-keys ((i, w) ∷ d) k = ground (arith, contains-keys d k)

  pub has-get :
      (d : Dict V) (k : String) → has d k ≡ elim (get d k) [ none ↦ false | some v ↦ true ]
  unfolding has get
  has-get [] k = refl
  has-get ((i, w) ∷ d) k = ground (arith, has-get d k)

  pub has-delete :
      (d : Dict V) (k j : String) → has (delete d k) j ≡ (if k == j then false else has d j)
  unfolding has delete
  has-delete [] k j = ground arith
  has-delete ((i, w) ∷ d) k j = ground (arith, has-delete d k j)

  pub keys-Distinct-set :
      (d : Dict V) (k : String) (v : V) → Distinct (keys d) → Distinct (keys (set d k v))
  unfolding keys set contains
  keys-Distinct-set [] k v h = (refl, tt)
  keys-Distinct-set ((i, w) ∷ d) k v (new, h) = ground (
    arith,
    keys-Distinct-set d k v h,
    contains-keys d i,
    contains-keys (set d k v) i,
    has-set d k i v,
  )

  pub keys-Distinct-delete :
      (d : Dict V) (k : String) → Distinct (keys d) → Distinct (keys (delete d k))
  unfolding keys delete contains
  keys-Distinct-delete [] k h = h
  keys-Distinct-delete ((i, w) ∷ d) k (new, h) = ground (
    arith,
    keys-Distinct-delete d k h,
    contains-keys d i,
    contains-keys (delete d k) i,
    has-delete d k i,
  )

  pub get-set_cases :
      (d : Dict V) (k j : String) (v : V) {w : V}
      → get (set d k v) j ≡ some w
      → ((k ≡ j) × (v ≡ w)) ⊎ (get d j ≡ some w)
  get-set_cases d k j v h = ground (arith, get-set d k j v)

-- `map[string]struct{}`
abbrev pub StringSet : Type 0
StringSet = Dict {0} Unit

-- A loop that adds the texts to the set.
unfoldable pub set_of : List String → StringSet → StringSet
unfolding set
set_of [] members = members
set_of (source ∷ sources) members = set_of sources (set members source tt)

pub has-set_of :
    (sources : List String) (members : StringSet) (k : String)
    → has (set_of sources members) k ≡ (contains sources k || has members k)
unfolding set_of contains
has-set_of [] members k = refl
has-set_of (source ∷ sources) members k =
    ground (arith, has-set_of sources (set members source tt) k, has-set members source k tt)

-- Adding texts that are new and differ from one another adds them at the end.
pub keys-set_of :
    (sources : List String) (members : StringSet)
    → Distinct (keys members)
    → Distinct (keys (set_of sources members))
unfolding set_of
keys-set_of [] members h = h
keys-set_of (source ∷ sources) members h =
    keys-set_of sources (set members source tt) (keys-Distinct-set members source tt h)
