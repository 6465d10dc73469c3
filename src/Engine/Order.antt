-- ===== src/Engine/Order.antt =====
-- `buildReconciled` and `buildBreak` of engine.go, and the order in which a store returns a trade's
-- events.
use event_correlator_tool.Common.{String, List, ◌≡◌, Distinct, Perm}
use event_correlator_tool.Common.Sorting.Unique.{sort-eq_of_perm}
use event_correlator_tool.Clock.{Time}
use event_correlator_tool.Store.{PendingTrade, sources_of}
use event_correlator_tool.Engine.{Codec, Engine, sort_events, build_reconciled, build_break}
use event_correlator_tool.Engine.Break.{sort_events-eq-sort}
use native.Mathlib.Decide.{ℕ_discrete}
use event_correlator_tool.Common.{string_discrete}
use mathlib.Core.HLevel.{hedberg}

PendingTrade-set : IsSet PendingTrade
PendingTrade-set = hedberg PendingTrade-discrete
  where
    PendingTrade-discrete : Discrete PendingTrade
    PendingTrade-discrete = hlevel (ℕ_discrete, string_discrete)

sort_events-eq_of_perm :
    (l r : List PendingTrade) → Perm l r → Distinct (sources_of l) → sort_events l ≡ sort_events r
sort_events-eq_of_perm l r p d = rw sort_events-eq-sort (
    rw sort_events-eq-sort
      (sort-eq_of_perm (λ (event : PendingTrade). event.source) PendingTrade-set p d))

module _ (codec : Codec) (l r : List PendingTrade) (p : Perm l r) (d : Distinct (sources_of l))
    (now : Time) where
  -- Events of distinct sources give the same sorted slice and reconciled event in every order.
  pub build_reconciled-eq_of_perm : build_reconciled codec l now ≡ build_reconciled codec r now
  unfolding build_reconciled
  build_reconciled-eq_of_perm = rw (sort_events-eq_of_perm l r p d, build_reconciled)

  -- Events of distinct sources give the same break, and panic alike, in every order.
  pub build_break-eq_of_perm :
      (e : Engine) (id : String) → build_break codec e id l now ≡ build_break codec e id r now
  unfolding build_break
  build_break-eq_of_perm e id = rw (sort_events-eq_of_perm l r p d, build_break)
