-- ===== src/Memory/Selection.antt =====
-- What the loops of memory.go over a trade's events compute: `hasEverySource`, `expectedEvents`,
-- `earliestDeadline`, and the duplicate and deadline loops of `Ingest`.
use event_correlator_tool.Common.{
  String, true, false, ◌||◌, List, [], ◌∷◌, ◌≡◌, refl, ◌↔◌, ◌⊎◌, inl, inr, sym, subst, arith,
  contains, keep, Subset, Bool-cases,
}
use event_correlator_tool.Common.Int.{◌≤ℤ◌}
use event_correlator_tool.Common.Dict
use event_correlator_tool.Common.Dict.{StringSet}
use event_correlator_tool.Clock.{Time, before}
use event_correlator_tool.Store.{PendingTrade, sources_of}
use event_correlator_tool.Memory.{
  seen_sources, all_seen, has_every_source, filter_known, expected_events, earliest_deadline,
  has_source, lower_deadline,
}

-- Every event's deadline is at least `t`.
abbrev pub DeadlinesFrom : Time → List PendingTrade → Type 0
DeadlinesFrom t [] = Unit
DeadlinesFrom t (event ∷ events) = (t ≤ℤ event.deadline) × DeadlinesFrom t events

-- Some event's deadline is `t`.
abbrev pub DeadlineOf : Time → List PendingTrade → Type 0
DeadlineOf t [] = ⊥
DeadlineOf t (event ∷ events) = (t ≡ event.deadline) ⊎ DeadlineOf t events

pub has_source-contains :
    (events : List PendingTrade) (source : String)
    → has_source events source ≡ contains (sources_of events) source
unfolding has_source contains
has_source-contains [] source = refl
has_source-contains (event ∷ events) source = ground (arith, has_source-contains events source)

has-seen_sources :
    (events : List PendingTrade) (seen : StringSet) (k : String)
    → Dict.has (seen_sources events seen) k ≡ (contains (sources_of events) k || Dict.has seen k)
unfolding seen_sources contains
has-seen_sources [] seen k = refl
has-seen_sources (event ∷ events) seen k = ground (
  arith,
  has-seen_sources events (Dict.set seen event.source tt) k,
  Dict.has-set seen event.source k tt,
)

seen-sources_of :
    (events : List PendingTrade) (k : String)
    → Dict.has (seen_sources events []) k ≡ contains (sources_of events) k
unfolding Dict.has
seen-sources_of events k = ground (arith, has-seen_sources events [] k)

all_seen-has :
    (seen : StringSet) (sources : List String) (k : String)
    → all_seen seen sources ≡ true
    → contains sources k ≡ true
    → Dict.has seen k ≡ true
unfolding all_seen contains
all_seen-has seen [] k h m = cc
all_seen-has seen (source ∷ sources) k h m = ground (arith, all_seen-has seen sources k)

contains-tail :
    (source : String) (sources : List String) (k : String)
    → contains sources k ≡ true
    → contains (source ∷ sources) k ≡ true
unfolding contains
contains-tail source sources k h = ground arith

contains-head :
    (source : String) (sources : List String) → contains (source ∷ sources) source ≡ true
unfolding contains
contains-head source sources = ground arith

all_seen_of :
    (seen : StringSet) (sources : List String)
    → ((k : String) → contains sources k ≡ true → Dict.has seen k ≡ true)
    → all_seen seen sources ≡ true
unfolding all_seen
all_seen_of seen [] h = refl
all_seen_of seen (source ∷ sources) h =
    rw (h source (contains-head source sources), all_seen)
      (all_seen_of seen sources (λ k m. h k (contains-tail source sources k m)))

-- `hasEverySource` holds exactly when every expected source is the source of some event.
pub has_every_source_iff :
    (events : List PendingTrade) (expected : List String)
    → (has_every_source events expected ≡ true) ↔ Subset expected (sources_of events)
unfolding has_every_source
has_every_source_iff events expected = (
  λ h k m. rw seen-sources_of at (all_seen-has (seen_sources events []) expected k h m),
  λ h. all_seen_of _ expected (λ k m. rw seen-sources_of (h k m)),
)

-- `expectedEvents` keeps, in their order, the events whose source is expected.
pub expected_events-keep :
    (events : List PendingTrade) (expected : List String)
    → expected_events events expected ≡ keep (λ event. contains expected event.source) events
unfolding expected_events filter_known
expected_events-keep [] expected = refl
expected_events-keep (event ∷ events) expected =
    ground (arith, expected_events-keep events expected, Dict.has-set_of expected [] event.source)

module _ (t : Time) (event : PendingTrade) (events : List PendingTrade) where
  earliest_deadline-earlier :
      before event.deadline t ≡ true
      → earliest_deadline t (event ∷ events) ≡ earliest_deadline event.deadline events
  unfolding earliest_deadline
  earliest_deadline-earlier e = rw e

  earliest_deadline-later :
      before event.deadline t ≡ false
      → earliest_deadline t (event ∷ events) ≡ earliest_deadline t events
  unfolding earliest_deadline
  earliest_deadline-later e = rw e

earliest_deadline-nil : (t : Time) → earliest_deadline t [] ≡ t
unfolding earliest_deadline
earliest_deadline-nil t = refl

-- `m` is the least of `t` and the events' deadlines, and one of them.
abbrev pub IsLeast : Time → List PendingTrade → Time → Type 0
IsLeast t events m = (m ≤ℤ t) × DeadlinesFrom m events × ((m ≡ t) ⊎ DeadlineOf m events)

-- `earliestDeadline`, from a first deadline and the other events, is at most each of their
-- deadlines and equal to one of them.
pub earliest_deadline-IsLeast :
    (t : Time) (events : List PendingTrade) → IsLeast t events (earliest_deadline t events)
earliest_deadline-IsLeast t [] =
    subst (IsLeast t []) (sym (earliest_deadline-nil t)) (omega arith, tt, inl refl)
earliest_deadline-IsLeast t (event ∷ events) = elim (Bool-cases (before event.deadline t)) [
  | inl e ↦
      let (low, all, this) = earliest_deadline-IsLeast event.deadline events in
      subst (IsLeast t (event ∷ events)) (sym (earliest_deadline-earlier t event events e))
        (ground arith, (low, all), inr this)
  | inr e ↦
      let (low, all, this) = earliest_deadline-IsLeast t events in
      subst (IsLeast t (event ∷ events)) (sym (earliest_deadline-later t event events e))
        (low, (ground arith, all), elim this [ inl p ↦ inl p | inr p ↦ inr (inr p) ])
]

pub lower_deadline-eq :
    (events : List PendingTrade) (t : Time) → lower_deadline events t ≡ earliest_deadline t events
unfolding earliest_deadline lower_deadline
lower_deadline-eq [] t = refl
lower_deadline-eq (event ∷ events) t = lower_deadline-eq events _
