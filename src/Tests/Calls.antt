-- ===== src/Tests/Calls.antt =====
-- The theorems on the tools' replies at concrete data: one expected source, over the memory store.
use event_correlator_tool.Common.{
  String, none, some, List, [], ◌∷◌, ◌≡◌, refl, ok, str_lt, string_discrete,
}
use event_correlator_tool.Common.Int.{pos, ◌+ℤ◌, ◌-ℤ◌, ◌*ℤ◌, wrap_int64, saturate_int64, quot_ℕ}
use event_correlator_tool.Common.Dict
use event_correlator_tool.Common.Sorting.{insert, sort, sort_func}
use event_correlator_tool.Common.Strings.{trim_space, split}
use event_correlator_tool.Clock.{Duration, add, sub, milliseconds}
use event_correlator_tool.Store.{AuditFilter}
use event_correlator_tool.Memory.{
  Memory, new, pending_events, seen_sources, all_seen, has_every_source, filter_known,
  expected_events, is_finalized, has_source, is_duplicate, lower_deadline, finish, appended, admit,
}
use event_correlator_tool.Memory
use event_correlator_tool.Memory.Invariant.{new-IsValid}
use event_correlator_tool.Memory.Sweep.{memory_store}
use event_correlator_tool.Memory.Refines.Sweep.{memory_contract}
use event_correlator_tool.Engine.{
  new_engine, compare_strings, sort_events, first_seen_of, reconciled_of, build_reconciled,
  audit_reconciled,
}
use event_correlator_tool.Engine.Actions.{ingest, submit}
use event_correlator_tool.Config.{
  split_sources, new_sources, window_of, configure_from, config_int, configure, open_engine,
}
use event_correlator_tool.Config.Opened.{IsFor}
use event_correlator_tool.Sdk.Context.{ToolContext, text, get_config, get_config_string}
use event_correlator_tool.Sdk.Outcome.{ToolResult, succeed, with_data}
use event_correlator_tool.Handlers.{
  GetAuditHistoryParams, Datum, Reply, audit_reply, value_or_zero, event_of, filter_of,
  ingest_trade_event, sweep_expired_trades, get_audit_history,
}
use event_correlator_tool.Handlers
use event_correlator_tool.Handlers.Replies.{Tells, HandlesSweep, HandlesAudit}
use event_correlator_tool.Handlers.Replies.Reads.{
  sweep_expired_trades-Reports, get_audit_history-Reports,
}
use event_correlator_tool.Handlers.Sessions.{
  ToolCall, ingests, sweeps, audits, serve, serve_all, AllServed, serve_all-Serves, FindsTrade,
  MissesTrade, reconciled-IsFound, untrimmed-unfound,
}
use event_correlator_tool.Handlers.Expected.{Fails, Asks, IsInRange}
use event_correlator_tool.Handlers.Ingestion.{Handles, ingest_trade_event-Handles}
use event_correlator_tool.Handlers.{IngestTradeEventParams}
use event_correlator_tool.Common.{true, inl, arith, ◌≢◌}
use event_correlator_tool.Sdk.Outcome.{fail, with_error_code}
use event_correlator_tool.Tests.Database.{holding}
use event_correlator_tool.Postgres.Session.{
  ◌>>=◌, begin, query, execute, commit, scan, deferred_rollback,
}
use event_correlator_tool.Postgres.Queries.{get_events}
use event_correlator_tool.Postgres.Ingest.{
  ingest as database_ingest, ingest_open, inserted, insert_pending, conflicts,
}
use event_correlator_tool.Tests.{codec}
use event_correlator_tool.Tests.Builds.{settings}
use event_correlator_tool.Tests.Tools.{arguments, outside}
use event_correlator_tool.Memory.Refines.{exact}
use event_correlator_tool.Postgres.Client.{postgres_store}
use event_correlator_tool.Postgres.Refines.Sessions.{connected}
use event_correlator_tool.Handlers.Faults.{IsServed, serve-IsServed}
use event_correlator_tool.Tests.{sources}
use event_correlator_tool.Tests.Database.{failing}
use event_correlator_tool.Tests.Stores.{stores}
use event_correlator_tool.Tests.Sessions.{after_claim, interleaved, first_report-IsTidy}

abbrev alone : List String
alone = "solar" ∷ []

abbrev single : ToolContext
single = record settings {
  config = ("database_url", text "postgres://db") ∷ ("expected_sources", text "solar") ∷ [];
}

single-IsFor : IsFor alone single
unfolding split_sources new_sources get_config_string trim_space split Dict.get Dict.has
    string_discrete
single-IsFor = refl

abbrev five_minutes : Duration
five_minutes = pos 300_000_000_000

single-opens :
    open_engine outside.int_of_float outside.connect outside.migrate single
    ≡ ok (new_engine alone five_minutes)
unfolding open_engine configure configure_from config_int get_config get_config_string window_of
    split_sources new_sources trim_space split Dict.get Dict.has ◌*ℤ◌ wrap_int64 string_discrete
single-opens = refl

abbrev both : ToolContext
both = record settings {
  config = ("database_url", text "postgres://db") ∷ ("expected_sources", text "solar,murex") ∷ [];
}

both-IsFor : IsFor sources both
unfolding split_sources new_sources get_config_string trim_space split Dict.get Dict.has Dict.set
    string_discrete
both-IsFor = refl

abbrev calls : List ToolCall
calls = ingests arguments single (pos 5) ∷ sweeps single (pos 20) ∷ []

abbrev question : GetAuditHistoryParams
question = record { trade_id = some " t1 "; outcome = none; limit = none }

abbrev asked : AuditFilter
asked = record { trade_id = "t1"; outcome = ""; limit = pos 100 }

abbrev first : Reply Memory
first = serve codec memory_store outside new (ingests arguments single (pos 5))

first-Tells : (result : ToolResult Datum) × (first.result ≡ ok result) × Tells result "reconciled"
unfolding ingest_trade_event event_of value_or_zero Handlers.configured open_engine configure
    configure_from config_int get_config get_config_string window_of split_sources new_sources
    trim_space split ◌*ℤ◌ wrap_int64 ingest submit new_engine new Memory.ingest is_duplicate
    is_finalized has_source pending_events admit appended lower_deadline has_every_source
    seen_sources all_seen expected_events filter_known finish audit_reconciled build_reconciled
    sort_events sort_func insert sort compare_strings reconciled_of first_seen_of Dict.get Dict.set
    Dict.delete Dict.has Dict.set_of add ◌+ℤ◌ sub ◌-ℤ◌ saturate_int64 milliseconds quot_ℕ str_lt
    string_discrete succeed with_data
first-Tells = (_, refl, refl)

all_served :
    AllServed codec memory_store outside alone
      (memory_contract alone)
      ((memory_contract alone).view new)
      (serve_all codec memory_store outside new calls)
all_served =
    serve_all-Serves codec memory_store outside alone (memory_contract alone) new calls
      (new-IsValid alone) (single-IsFor, (single-IsFor, tt))

question-Asks : Asks question asked
unfolding trim_space
question-Asks = record { trade = refl; outcome = refl; limit = refl }

asked-IsInRange : IsInRange asked.limit
asked-IsInRange = omega arith

first-kept : (memory_contract alone).IsOk first.state
first-kept =
    (serve_all-Serves codec memory_store outside alone (memory_contract alone) new
      (ingests arguments single (pos 5) ∷ []) (new-IsValid alone) (single-IsFor, tt)).kept

found_again : FindsTrade codec memory_store outside alone (memory_contract alone) "t1" (
    serve codec memory_store outside
      (serve_all codec memory_store outside first.state calls).1
      (audits question single))
found_again =
    reconciled-IsFound codec memory_store outside alone (memory_contract alone) new arguments single
      (pos 5) first-Tells.0 calls (new-IsValid alone) single-IsFor first-Tells.1 first-Tells.2
      (single-IsFor, (single-IsFor, tt)) question single five_minutes asked single-IsFor
      single-opens question-Asks (inl refl) asked-IsInRange refl refl

-- The same event with a space before the trade's id
abbrev spaced : IngestTradeEventParams
spaced = record arguments { trade_id = " t1" }

abbrev spaced_reply : Reply Memory
spaced_reply = serve codec memory_store outside new (ingests spaced single (pos 5))

spaced_reply-Tells :
    (result : ToolResult Datum) × (spaced_reply.result ≡ ok result) × Tells result "reconciled"
unfolding ingest_trade_event event_of value_or_zero Handlers.configured open_engine configure
    configure_from config_int get_config get_config_string window_of split_sources new_sources
    trim_space split ◌*ℤ◌ wrap_int64 ingest submit new_engine new Memory.ingest is_duplicate
    is_finalized has_source pending_events admit appended lower_deadline has_every_source
    seen_sources all_seen expected_events filter_known finish audit_reconciled build_reconciled
    sort_events sort_func insert sort compare_strings reconciled_of first_seen_of Dict.get Dict.set
    Dict.delete Dict.has Dict.set_of add ◌+ℤ◌ sub ◌-ℤ◌ saturate_int64 milliseconds quot_ℕ str_lt
    string_discrete succeed with_data
spaced_reply-Tells = (_, refl, refl)

spaced-ne-trimmed : trim_space " t1" ≢ " t1"
unfolding trim_space string_discrete
spaced-ne-trimmed e = cc

lost :
    ((memory_contract alone).view
          (serve_all codec memory_store outside spaced_reply.state calls).1).closed
        " t1"
      ≡ true
    × MissesTrade codec memory_store outside alone (memory_contract alone) " t1" (
        serve codec memory_store outside
          (serve_all codec memory_store outside spaced_reply.state calls).1
          (audits question single))
lost =
    untrimmed-unfound codec memory_store outside alone (memory_contract alone) new spaced single
      (pos 5) spaced_reply-Tells.0 calls (new-IsValid alone) single-IsFor spaced_reply-Tells.1
      spaced_reply-Tells.2 (single-IsFor, (single-IsFor, tt)) question single five_minutes asked
      single-IsFor single-opens question-Asks (inl refl) asked-IsInRange spaced-ne-trimmed (λ e. cc)

handled :
    Handles codec memory_store outside sources arguments both
      (pos 5)
      new
      (ingest_trade_event codec memory_store outside arguments both (pos 5) new)
handled =
    ingest_trade_event-Handles codec memory_store outside sources arguments both (pos 5) new
      both-IsFor

-- An event of one source of two, so that a sweep finds a break
abbrev waiting : Memory
waiting = (serve codec memory_store outside new (ingests arguments both (pos 5))).state

waiting-IsOk : (memory_contract sources).IsOk waiting
waiting-IsOk =
    (serve_all-Serves codec memory_store outside sources (memory_contract sources) new
      (ingests arguments both (pos 5) ∷ []) (new-IsValid sources) (both-IsFor, tt)).kept

swept_reply :
    HandlesSweep memory_store sources
      (memory_contract sources)
      waiting
      outside
      both
      codec
      (pos 400_000_000_000)
      (sweep_expired_trades codec memory_store outside both (pos 400_000_000_000) waiting)
swept_reply =
    sweep_expired_trades-Reports codec memory_store sources (memory_contract sources) outside
      waiting waiting-IsOk both both-IsFor (pos 400_000_000_000)

audit_replied :
    HandlesAudit memory_store alone
      (memory_contract alone)
      first.state
      outside
      single
      question
      (get_audit_history codec memory_store outside question single first.state)
audit_replied =
    get_audit_history-Reports codec memory_store alone (memory_contract alone) outside first.state
      first-kept single single-IsFor question

-- An event of another trade
abbrev another : IngestTradeEventParams
another = record arguments { trade_id = "t2" }

-- The connection is lost at the sixth request of the call, which is to record the event.
loses_the_connection :
    Fails "ingest event: record event: connection lost" "INGEST_FAILED"
      (serve codec
        (postgres_store (failing 9))
        outside
        (connected 4 holding)
        (ingests another both (pos 30))).result
unfolding ingest_trade_event event_of value_or_zero Handlers.configured open_engine configure
    configure_from config_int get_config get_config_string window_of split_sources new_sources
    trim_space split ◌*ℤ◌ wrap_int64 ingest submit new_engine database_ingest ingest_open inserted
    insert_pending conflicts get_events ◌>>=◌ begin query scan execute commit deferred_rollback
    is_finalized lower_deadline Dict.get Dict.set Dict.has Dict.set_of add ◌+ℤ◌ string_discrete fail
    with_error_code
loses_the_connection = refl

tool_under_faults :
    IsServed (failing 9) exact (stores _) codec outside sources first_report-IsTidy interleaved 4 (
      serve codec
        (postgres_store (failing 9))
        outside
        (connected 4 after_claim)
        (ingests another both (pos 30)))
tool_under_faults =
    serve-IsServed (failing 9) exact (stores _) codec outside sources first_report-IsTidy
      interleaved 4 (ingests another both (pos 30)) both-IsFor
