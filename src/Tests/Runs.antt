-- ===== src/Tests/Runs.antt =====
-- Runs of the engine over the memory store, as in
-- go/toolsets/event-correlator/src/internal/correlator/engine_test.go.
use event_correlator_tool.Common.{
  String, List, [], ◌∷◌, map, ◌≡◌, refl, Result, ok, err, panic, contains, str_lt, string_discrete,
}
use event_correlator_tool.Common.Int.{pos, ◌+ℤ◌, ◌-ℤ◌, saturate_int64, quot_ℕ}
use event_correlator_tool.Common.Dict
use event_correlator_tool.Common.Dict.{Dict}
use event_correlator_tool.Common.Sorting.{insert, sort, sort_func, sort_strings}
use event_correlator_tool.Clock.{Time, add, sub, milliseconds}
use event_correlator_tool.Model.{TradeEvent, BreakEvent}
use event_correlator_tool.Memory.{
  Memory, new, pending_events, seen_sources, all_seen, has_every_source, filter_known,
  expected_events, earliest_deadline, is_due, is_finalized, has_source, is_duplicate,
  lower_deadline, finish, appended, admit,
}
use event_correlator_tool.Memory
use event_correlator_tool.Memory.Sweep.{memory_store, sweep_one, sweep_all, sweep_expired}
use event_correlator_tool.Engine.{
  new_engine, compare_strings, sort_events, first_seen_of, last_deadline_of, not_received,
  reconciled_of, build_reconciled, break_of, build_break, audit_reconciled, audit_break,
  IngestOutcome,
}
use event_correlator_tool.Engine.Actions.{ingest, submit, sweep, sort_breaks}
use event_correlator_tool.Tests.{sources, window, codec, solar, murex, event_at}

-- The status of an answer.
abbrev status_of : Result IngestOutcome → String
status_of (ok outcome) = outcome.status
status_of (err e) = e
status_of panic = "panic"

abbrev step : Memory → TradeEvent → Time → Result IngestOutcome × Memory
step s event now = ingest codec memory_store (new_engine sources window) s event now

abbrev statuses : Memory → List TradeEvent → List String
statuses s [] = []
statuses s (event ∷ events) =
    status_of (step s event (pos 3)).0 ∷ statuses (step s event (pos 3)).1 events

-- The first event waits, a second one of its source is a duplicate, the other source completes the
-- trade, and what comes later is a duplicate.
correlates_a_trade :
    statuses new
      (solar ∷ solar ∷ murex ∷ solar ∷ event_at 1 "t1" "other" ∷ event_at 1 "" "solar" ∷ [])
    ≡ "pending" ∷ "duplicate" ∷ "reconciled" ∷ "duplicate" ∷ "ignored_unknown_source"
      ∷ "trade_id is required" ∷ []
unfolding ingest submit new_engine new Memory.ingest is_duplicate is_finalized has_source
    pending_events admit appended lower_deadline has_every_source seen_sources all_seen
    expected_events filter_known finish audit_reconciled build_reconciled sort_events sort_func
    insert sort compare_strings reconciled_of first_seen_of Dict.get Dict.set Dict.delete Dict.has
    Dict.set_of add ◌+ℤ◌ sub ◌-ℤ◌ saturate_int64 milliseconds quot_ℕ str_lt string_discrete
correlates_a_trade = refl

abbrev missing : Result (List BreakEvent) → List (List String)
missing (ok breaks) = map (λ (b : BreakEvent). b.missing_sources) breaks
missing (err e) = []
missing panic = []

-- A sweep at the deadline reports the source that has not come; one before it reports nothing.
sweeps_at_the_deadline :
    (missing
        (sweep codec memory_store (new_engine sources window) (step new solar (pos 3)).1 (pos 13)).0
      ≡ ("murex" ∷ []) ∷ [])
    × (missing
          (sweep codec memory_store
            (new_engine sources window)
            (step new solar (pos 3)).1
            (pos 12)).0
        ≡ [])
unfolding ingest submit new_engine new Memory.ingest is_duplicate is_finalized has_source
    pending_events admit appended lower_deadline has_every_source seen_sources all_seen
    expected_events filter_known finish audit_break build_break break_of sort_events sort_func
    insert sort compare_strings not_received last_deadline_of Dict.get Dict.set Dict.delete Dict.has
    Dict.set_of Dict.keys add ◌+ℤ◌ sweep sort_breaks sweep_expired sweep_all sweep_one is_due
    earliest_deadline sort_strings contains str_lt string_discrete
sweeps_at_the_deadline = (refl, refl)
