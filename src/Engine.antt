-- ===== src/Engine.antt =====
-- The correlation engine (go/toolsets/event-correlator/src/internal/correlator/engine.go), over
-- any store. `Ingest` and `Sweep` take the store's state and return the next one.
pub mod Actions
pub mod Break
pub mod Reconciled
pub mod Cases
pub mod Times
pub mod Order
use event_correlator_tool.Common.{
  ℕ, String, Bool, true, false, Option, none, some, List, [], ◌∷◌, ◌||◌, ◌==◌, if◌then◌else◌, map,
  ◌⊎◌, length, ltb, contains, str_lt, Result, ok, err, panic, wrap,
}
use event_correlator_tool.Common.Int.{ℤ, pos, negsuc, pos_part, neg_part}
use event_correlator_tool.Common.Dict
use event_correlator_tool.Common.Dict.{Dict, StringSet}
use event_correlator_tool.Common.Sorting.{sort_func, sort_strings}
use event_correlator_tool.Clock.{
  Time, Duration, zero_time, is_zero, before, after, add, sub, milliseconds,
}
use event_correlator_tool.Model.{Bytes, TradeEvent, ReconciledEvent, BreakEvent, AuditEntry}
use event_correlator_tool.Store.{
  PendingTrade, IngestResult, AuditFilter, Built, BuildAudit, BuildBreak, Call, Store,
}
use mathlib.Core.Option

-- What the engine uses of encoding/json. `marshal_event` gives an error's text or the bytes;
-- `unmarshal_event` is what `Unmarshal` leaves in a zero
-- event (its error is dropped); `marshal_reconciled` and `marshal_break` are empty on an error.
pub record Codec : Type 0 where
  pub marshal_event : TradeEvent → String ⊎ Bytes
  pub unmarshal_event : Bytes → TradeEvent
  pub marshal_reconciled : ReconciledEvent → Bytes
  pub marshal_break : BreakEvent → Bytes

pub record IngestOutcome : Type 0 where
  pub status : String
  pub reconciled : Option ReconciledEvent

pub record Engine : Type 0 where
  pub expected_sources : StringSet
  pub expected_source_list : List String
  pub window : Duration

-- `NewEngine`, without the store
unfoldable pub new_engine : List String → Duration → Engine
unfolding Dict.set_of
new_engine sources window = record {
  expected_sources = Dict.set_of sources [];
  expected_source_list = sources;
  window = window;
}

unfoldable pub compare_strings : String → String → ℤ
unfolding str_lt
compare_strings a b = if str_lt a b then negsuc 0 else if str_lt b a then pos 1 else pos 0

-- `slices.SortFunc(events, …)` of `buildReconciled` and `buildBreak`
unfoldable pub sort_events : List PendingTrade → List PendingTrade
unfolding sort_func compare_strings
sort_events = sort_func (λ a b. compare_strings a.source b.source)

-- The loop of `buildReconciled` over `firstSeen`.
unfoldable pub first_seen_of : Time → List PendingTrade → Time
first_seen_of first [] = first
first_seen_of first (event ∷ events) =
    first_seen_of
      (if is_zero first || before event.first_seen first then event.first_seen else first) events

-- The loop of `buildBreak` over `deadline`.
unfoldable pub last_deadline_of : Time → List PendingTrade → Time
last_deadline_of last [] = last
last_deadline_of last (event ∷ events) =
    last_deadline_of (if is_zero last || after event.deadline last then event.deadline else last)
      events

-- The loop of `buildBreak` over the expected sources.
unfoldable pub not_received : List String → List String → List String
unfolding contains
not_received received [] = []
not_received received (source ∷ sources) =
    let rest = not_received received sources in
    if contains received source then rest else source ∷ rest

module _ (codec : Codec) where
  open codec use {unmarshal_event, marshal_event, marshal_reconciled, marshal_break}

  abbrev payloads : List PendingTrade → List TradeEvent
  payloads = map (λ event. unmarshal_event event.payload)

  -- The event that `buildReconciled` returns, from the sorted slice and its first event.
  unfoldable pub reconciled_of : PendingTrade → List PendingTrade → Time → ReconciledEvent
  reconciled_of first sorted now = record {
    trade_id = first.trade_id;
    sources = map (λ event. event.source) sorted;
    reconciled_at = now;
    match_duration = milliseconds (sub now (first_seen_of zero_time sorted));
    events = payloads sorted;
  }

  -- The sorted slice and the event; `events[0]` panics where there is none.
  unfoldable pub build_reconciled :
      List PendingTrade → Time → Option (List PendingTrade × ReconciledEvent)
  build_reconciled events now = elim (sort_events events) [
    | [] ↦ none
    | first ∷ rest ↦ some (first ∷ rest, reconciled_of first (first ∷ rest) now)
  ]

  -- The event that `buildBreak` returns, from the sorted slice.
  unfoldable pub break_of : Engine → String → List PendingTrade → Time → BreakEvent
  break_of e trade_id sorted now =
      let received = map (λ event. event.source) sorted in
      record {
        trade_id = trade_id;
        missing_sources = sort_strings (not_received received (Dict.keys e.expected_sources));
        received_sources = received;
        detected_at = now;
        window_expiry = last_deadline_of zero_time sorted;
        events = payloads sorted;
      }

  -- The sorted slice and the event. `make` panics at a negative capacity, which
  -- `len(e.expectedSources)-len(events)` is where more events came than sources are expected.
  unfoldable pub build_break :
      Engine → String → List PendingTrade → Time → Option (List PendingTrade × BreakEvent)
  build_break e trade_id events now =
      let sorted = sort_events events in
      if ltb (length e.expected_sources) (length sorted)
      then none
      else some (sorted, break_of e trade_id sorted now)

  -- The audit entries that the closures of `Ingest` and `Sweep` return.
  abbrev pub reconciled_entry : TradeEvent → Time → ReconciledEvent → AuditEntry
  reconciled_entry event now reconciled = record {
    id = "";
    trade_id = event.trade_id;
    outcome = "reconciled";
    sources = reconciled.sources;
    detail = marshal_reconciled reconciled;
    occurred_at = now;
    recorded_at = now;
  }

  abbrev pub break_entry : String → Time → BreakEvent → AuditEntry
  break_entry trade_id now brk = record {
    id = "";
    trade_id = trade_id;
    outcome = "break";
    sources = brk.received_sources;
    detail = marshal_break brk;
    occurred_at = now;
    recorded_at = now;
  }

  -- The closure of `Ingest`; it captures `reconciled`.
  unfoldable pub audit_reconciled : TradeEvent → Time → BuildAudit (Option ReconciledEvent)
  audit_reconciled event now _ events = elim (build_reconciled events now) [
    | none ↦ none
    | some (sorted, reconciled) ↦ some (record {
      captured = some reconciled;
      events = sorted;
      entry = reconciled_entry event now reconciled;
    })
  ]

  -- The closure of `Sweep`; it captures `built`.
  unfoldable pub audit_break : Engine → Time → BuildBreak (Dict BreakEvent)
  audit_break e now trade_id built events = elim (build_break e trade_id events now) [
    | none ↦ none
    | some (sorted, brk) ↦ some (record {
      captured = Dict.set built trade_id brk;
      events = sorted;
      entry = break_entry trade_id now brk;
    })
  ]
