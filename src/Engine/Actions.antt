-- ===== src/Engine/Actions.antt =====
-- `Ingest`, `Sweep` and `AuditHistory` of engine.go, over any store.
use event_correlator_tool.Common.{
  String, ◌<>◌, not, Option, none, some, List, [], map, inl, inr, ◌==◌, if◌then◌else◌, Result, ok,
  err, panic,
}
use event_correlator_tool.Common.Dict
use event_correlator_tool.Common.Dict.{Dict}
use event_correlator_tool.Common.Sorting.{sort_func}
use event_correlator_tool.Clock.{Time, zero_time, add}
use event_correlator_tool.Model.{Bytes, TradeEvent, ReconciledEvent, BreakEvent, AuditEntry}
use event_correlator_tool.Store.{PendingTrade, IngestResult, AuditFilter, Store}
use event_correlator_tool.Engine.{
  Codec, Engine, IngestOutcome, compare_strings, audit_reconciled, audit_break,
}
use mathlib.Core.Option

abbrev pub status : String → IngestOutcome
status s = record { status = s; reconciled = none }

-- `model.BreakEvent{}`
abbrev pub no_break : BreakEvent
no_break = record {
  trade_id = "";
  missing_sources = [];
  received_sources = [];
  detected_at = zero_time;
  window_expiry = zero_time;
  events = [];
}

-- The end of `Ingest`, from the store's result and the captured event.
abbrev pub ingest_outcome : Result IngestResult → Option ReconciledEvent → Result IngestOutcome
ingest_outcome (err e) reconciled = err ("ingest event: " <> e)
ingest_outcome panic reconciled = panic
ingest_outcome (ok result) none = ok (status (if result.inserted then "pending" else "duplicate"))
ingest_outcome (ok result) (some event) = ok (
    if result.inserted
    then record { status = "reconciled"; reconciled = some event }
    else status "duplicate")

-- The row that `Ingest` hands to the store.
abbrev pub pending_of : Engine → TradeEvent → Bytes → Time → PendingTrade
pending_of e event payload now = record {
  trade_id = event.trade_id;
  source = event.source;
  payload = payload;
  first_seen = now;
  deadline = add now e.window;
}

-- `slices.SortFunc(breaks, …)`
unfoldable pub sort_breaks : List BreakEvent → List BreakEvent
unfolding sort_func compare_strings
sort_breaks = sort_func (λ a b. compare_strings a.trade_id b.trade_id)

-- The end of `Sweep`: `built[tradeID]` for every trade of the map that the store returned.
abbrev pub sweep_outcome :
    Result (Dict (List PendingTrade)) → Dict BreakEvent → Result (List BreakEvent)
sweep_outcome (err e) built = err ("sweep expired trades: " <> e)
sweep_outcome panic built = panic
sweep_outcome (ok expired) built =
    ok (sort_breaks (map (λ id. Option.get_or (Dict.get built id) no_break) (Dict.keys expired)))

module _ (codec : Codec) (store : Store) where
  unfoldable pub submit :
      Engine → store.State → TradeEvent → Bytes → Time → Result IngestOutcome × store.State
  submit e s event payload now =
      let call =
        store.ingest s (pending_of e event payload now) e.expected_source_list
          (audit_reconciled codec event now) none in
      (ingest_outcome call.result call.captured, call.state)

  unfoldable pub ingest :
      Engine → store.State → TradeEvent → Time → Result IngestOutcome × store.State
  ingest e s event now =
      if event.trade_id == ""
      then (err "trade_id is required", s)
      else if not (Dict.has e.expected_sources event.source)
      then (ok (status "ignored_unknown_source"), s)
      else elim (codec.marshal_event event) [
        | inl m ↦ (err ("marshal event: " <> m), s)
        | inr payload ↦ submit e s event payload now
      ]

  unfoldable pub sweep : Engine → store.State → Time → Result (List BreakEvent) × store.State
  sweep e s now =
      let call = store.sweep_expired s now (audit_break codec e now) [] in
      (sweep_outcome call.result call.captured, call.state)

  unfoldable pub audit_history : store.State → AuditFilter → Result (List AuditEntry)
  audit_history s filter = store.get_audit s filter
