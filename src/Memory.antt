-- ===== src/Memory.antt =====
-- The in-memory store (go/toolsets/event-correlator/src/internal/store/memory/memory.go). Its
-- mutex makes every method one step; a method takes the state and returns the next one.
pub mod Sweep
pub mod Selection
pub mod Invariant
pub mod Outcomes
pub mod Refines
use event_correlator_tool.Common.{
  ℕ, zero, suc, String, Bool, true, false, not, ◌&&◌, ◌||◌, Option, none, some, List, [], ◌∷◌, ◌++◌,
  ◌==◌, if◌then◌else◌, Result, ok, panic,
}
use event_correlator_tool.Common.Int.{ℤ, pos, negsuc, pos_part, neg_part, leb_ℤ}
use event_correlator_tool.Common.Dict
use event_correlator_tool.Common.Dict.{Dict, StringSet}
use event_correlator_tool.Common.Sorting.{sort_strings}
use event_correlator_tool.Clock.{Time, before}
use event_correlator_tool.Model.{AuditEntry}
use event_correlator_tool.Store.{
  PendingTrade, IngestResult, no_result, AuditFilter, Built, BuildAudit, BuildBreak, Call, Store,
}
use mathlib.Core.List.{reverse}
use mathlib.Core.Option

-- memory.Store, without its mutex
pub record Memory : Type 0 where
  pub events : Dict (List PendingTrade)
  pub audit : List AuditEntry

-- `New`
unfoldable pub new : Memory
new = record { events = []; audit = [] }

-- `s.events[tradeID]`: a missing key gives the nil slice.
unfoldable pub pending_events : Memory → String → List PendingTrade
pending_events s trade_id = Option.get_or (Dict.get s.events trade_id) []

-- The loop of `hasEverySource` that fills `seen`.
unfoldable pub seen_sources : List PendingTrade → StringSet → StringSet
unfolding Dict.set
seen_sources [] seen = seen
seen_sources (event ∷ events) seen = seen_sources events (Dict.set seen event.source tt)

-- The loop that returns false at the first source that `seen` lacks.
unfoldable pub all_seen : StringSet → List String → Bool
unfolding Dict.has
all_seen seen [] = true
all_seen seen (source ∷ sources) = if Dict.has seen source then all_seen seen sources else false

unfoldable pub has_every_source : List PendingTrade → List String → Bool
unfolding seen_sources all_seen
has_every_source events expected = all_seen (seen_sources events []) expected

-- The events whose source the set has, in their order.
unfoldable pub filter_known : StringSet → List PendingTrade → List PendingTrade
unfolding Dict.has
filter_known known [] = []
filter_known known (event ∷ events) =
    let rest = filter_known known events in
    if Dict.has known event.source then event ∷ rest else rest

unfoldable pub expected_events : List PendingTrade → List String → List PendingTrade
unfolding Dict.set_of filter_known
expected_events events expected = filter_known (Dict.set_of expected []) events

-- `earliestDeadline(events)`: the arguments are `events[0].Deadline` and `events[1:]`.
unfoldable pub earliest_deadline : Time → List PendingTrade → Time
earliest_deadline earliest [] = earliest
earliest_deadline earliest (event ∷ events) =
    earliest_deadline (if before event.deadline earliest then event.deadline else earliest) events

-- Whether the sweep goes on with a trade: `len(events) == 0 || now.Before(earliestDeadline(events))`
-- is false.
unfoldable pub is_due : Time → List PendingTrade → Bool
unfolding earliest_deadline
is_due now [] = false
is_due now (event ∷ events) = not (before now (earliest_deadline event.deadline events))

unfoldable pub is_finalized : List AuditEntry → String → Bool
is_finalized [] trade_id = false
is_finalized (entry ∷ audit) trade_id = (entry.trade_id == trade_id) || is_finalized audit trade_id

unfoldable pub has_source : List PendingTrade → String → Bool
has_source [] source = false
has_source (event ∷ events) source = (event.source == source) || has_source events source

-- The two early returns of `Ingest`: the trade is finalized, or the source has reported.
unfoldable pub is_duplicate : Memory → PendingTrade → Bool
is_duplicate s trade =
    is_finalized s.audit trade.trade_id || has_source (pending_events s trade.trade_id) trade.source

-- The loop of `Ingest` that lowers the deadline of the new event to its trade's.
unfoldable pub lower_deadline : List PendingTrade → Time → Time
lower_deadline [] deadline = deadline
lower_deadline (event ∷ events) deadline =
    lower_deadline events (if before event.deadline deadline then event.deadline else deadline)

-- The last part of `Ingest`: every expected source has reported. `result.Events` is the slice
-- that `buildAudit` was handed.
unfoldable pub finish :
    {C : Type 0}
    → Memory
    → String
    → List PendingTrade
    → BuildAudit C
    → C
    → Call Memory C IngestResult
finish s trade_id selected build c =
    let s' = record s { events = Dict.delete s.events trade_id } in
    elim (build c selected) [
      | none ↦ record { result = panic; state = s'; captured = c }
      | some b ↦ record {
        result = ok (record { inserted = true; events = b.events });
        state = record s' { audit = s.audit ++ b.entry ∷ [] };
        captured = b.captured;
      }
    ]

-- `append(s.events[trade.TradeID], trade)`, after that loop
unfoldable pub appended : Memory → PendingTrade → List PendingTrade
appended s trade =
    let pending = pending_events s trade.trade_id in
    pending ++ record trade { deadline = lower_deadline pending trade.deadline } ∷ []

-- `Ingest` after its two early returns.
unfoldable pub admit :
    {C : Type 0}
    → Memory
    → PendingTrade
    → List String
    → BuildAudit C
    → C
    → Call Memory C IngestResult
admit s trade expected build c =
    let events = appended s trade in
    let s' = record s { events = Dict.set s.events trade.trade_id events } in
    if has_every_source events expected
    then finish s' trade.trade_id (expected_events events expected) build c
    else record { result = ok (record { inserted = true; events = [] }); state = s'; captured = c }

unfoldable pub ingest :
    {C : Type 0}
    → Memory
    → PendingTrade
    → List String
    → BuildAudit C
    → C
    → Call Memory C IngestResult
ingest s trade expected build c =
    if is_duplicate s trade
    then record { result = ok no_result; state = s; captured = c }
    else admit s trade expected build c
