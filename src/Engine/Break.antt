-- ===== src/Engine/Break.antt =====
-- `buildBreak` of engine.go: when it panics, and what the break says.
use event_correlator_tool.Common.{
  ◌≤◌, ◌<◌, String, not, ◌&&◌, none, some, List, [], ◌∷◌, ◌≡◌, ◌↔◌, refl, arith, length, ap, str_lt,
  contains,
}
use event_correlator_tool.Common.Dict
use event_correlator_tool.Common.Sorting.{sort, sort_func, is_negative, IsAscending}
use event_correlator_tool.Common.Sorting.Laws.{
  contains-sort, contains-sort_strings, length-sort, sort-IsAscending, sort_strings-IsAscending,
  IsAscending-map,
}
use event_correlator_tool.Clock.{Time}
use event_correlator_tool.Model.{BreakEvent}
use event_correlator_tool.Store.{PendingTrade, sources_of}
use event_correlator_tool.Engine.{
  Codec, Engine, not_received, sort_events, build_break, break_of, compare_strings,
}

contains-not_received :
    (received sources : List String) (a : String)
    → contains (not_received received sources) a ≡ (contains sources a && not (contains received a))
unfolding not_received contains
contains-not_received received [] a = refl
contains-not_received received (source ∷ sources) a =
    ground (arith, contains-not_received received sources a)

-- `compareStrings` is negative exactly where its first text comes first.
pub is_negative-compare_strings : (a b : String) → is_negative (compare_strings a b) ≡ str_lt a b
unfolding compare_strings
is_negative-compare_strings a b = ground arith

-- Sorting events with `compareStrings` is sorting them by source.
pub sort_events-eq-sort :
    (events : List PendingTrade)
    → sort_events events ≡ sort (λ a b. str_lt a.source b.source) events
unfolding sort_events sort_func
sort_events-eq-sort events =
    ap (λ lt. sort lt events) (λ i a b. is_negative-compare_strings a.source b.source i)

pub contains-sort_events :
    (events : List PendingTrade) (a : String)
    → contains (sources_of (sort_events events)) a ≡ contains (sources_of events) a
contains-sort_events events a =
    rw sort_events-eq-sort (contains-sort _ (λ (event : PendingTrade). event.source) events a)

pub length-sort_events : (events : List PendingTrade) → length (sort_events events) ≡ length events
length-sort_events events = rw sort_events-eq-sort (length-sort _ events)

pub sort_events-IsAscending :
    (events : List PendingTrade) → IsAscending (λ (x : String). x) (sources_of (sort_events events))
sort_events-IsAscending events =
    rw sort_events-eq-sort
      (IsAscending-map _ _ (sort-IsAscending (λ (event : PendingTrade). event.source) events))

-- What a break reports of its trade: the sources that are expected and have not reported, and
-- those that have, each in ascending order.
pub record Reports (e : Engine) (id : String) (events : List PendingTrade) (now : Time)
    (b : BreakEvent) : Type 0 where
  pub trade : b.trade_id ≡ id
  pub detected : b.detected_at ≡ now
  pub missing :
      (a : String)
      → contains b.missing_sources a
        ≡ (Dict.has e.expected_sources a && not (contains (sources_of events) a))
  pub received : (a : String) → contains b.received_sources a ≡ contains (sources_of events) a
  pub missing_sorted : IsAscending (λ (x : String). x) b.missing_sources
  pub received_sorted : IsAscending (λ (x : String). x) b.received_sources

module _ (codec : Codec) (e : Engine) (id : String) (events : List PendingTrade) (now : Time) where
  -- `buildBreak` panics exactly when the trade has more events than sources are expected.
  pub build_break-none_iff :
      (build_break codec e id events now ≡ none) ↔ (length e.expected_sources < length events)
  unfolding build_break
  build_break-none_iff = ground (arith, length-sort_events events)

  break_of-Reports : Reports e id events now (break_of codec e id (sort_events events) now)
  unfolding break_of
  break_of-Reports = record {
    trade = refl;
    detected = refl;
    missing = λ a.
        rw (contains-sort_strings, contains-not_received, Dict.contains-keys)
          (rw (contains-sort_events events a));
    received = contains-sort_events events;
    missing_sorted = sort_strings-IsAscending _;
    received_sorted = sort_events-IsAscending events;
  }

  -- With at most as many events as expected sources, `buildBreak` returns the slice sorted by
  -- source and a break that names the trade and the time of the sweep, lists as missing exactly the
  -- expected sources that have no event and as received exactly those of the events, each in
  -- ascending order.
  pub build_break-Reports :
      length events ≤ length e.expected_sources
      → (b : BreakEvent) × (build_break codec e id events now ≡ some (sort_events events, b))
        × Reports e id events now b
  unfolding build_break
  build_break-Reports h = (
    break_of codec e id (sort_events events) now,
    ground (arith, length-sort_events events),
    break_of-Reports,
  )
