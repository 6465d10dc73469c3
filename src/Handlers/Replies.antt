-- ===== src/Handlers/Replies.antt =====
-- What the three tools of main.go reply: records of what they serve, over any store that keeps the
-- contract.
pub mod Ingest
pub mod Reads
use event_correlator_tool.Common.{
  ℕ, String, ◌<>◌, true, false, Option, none, some, List, [], ◌∷◌, ◌≡◌, ◌≢◌, refl, sym, ◌∙◌, ap,
  subst, arith, inl, inr, length, Every, Result, Result-cases, ok, err, panic, ◌==◌, if◌then◌else◌,
  Option-cases, string_discrete,
}
use event_correlator_tool.Common.Dict
use event_correlator_tool.Common.Strings.{decimal}
use event_correlator_tool.Clock.{Time, Duration}
use event_correlator_tool.Model.{Bytes, TradeEvent, BreakEvent}
use event_correlator_tool.Store.{AuditFilter, Store}
use event_correlator_tool.Engine.{Codec, Engine, IngestOutcome, new_engine}
use event_correlator_tool.Engine.Actions.{status, ingest, sweep, audit_history}
use event_correlator_tool.Engine.Cases.{ingest_cases}
use event_correlator_tool.Lifecycle.Safety.{has-expected_sources}
use event_correlator_tool.Config.{open_engine}
use event_correlator_tool.Config.Opened.{IsFor, open_engine-cases}
use event_correlator_tool.Sdk.Context.{ToolContext}
use event_correlator_tool.Sdk.Outcome.{ToolResult, succeed, fail, with_data, with_error_code}
use event_correlator_tool.Ledger
use event_correlator_tool.Ledger.{Ledger, Answer, duplicate, pending, reconciled, Report}
use event_correlator_tool.Contract.{Audits, Contract}
use event_correlator_tool.Contract.Histories.{Steps, report, Steps-sweep}
use event_correlator_tool.Service.{IsAccepted, ingest-submit, ingest-Answers, status_of}
use event_correlator_tool.Service.Sweeping.{AreBreaks, sweep-Sweeps}
use event_correlator_tool.Handlers.{
  IngestTradeEventParams, GetAuditHistoryParams, Datum, text, count, breaks, entries, Outside,
  Reply, fail_with, event_of, ingest_reply, sweep_reply, audit_reply, filter_of, filter_message,
  ingest_trade_event, sweep_expired_trades, get_audit_history,
}
use event_correlator_tool.Handlers
use event_correlator_tool.Handlers.Queries.{filter_of-range}
use event_correlator_tool.Handlers.Expected.{Succeeds, Fails, Asks, IsOutcome, IsInRange}

-- The status that a tool tells in its data
abbrev pub Tells : ToolResult Datum → String → Type 0
Tells result status = Dict.get result.fields "status" ≡ some (text status)

pub failed-Tells : (message code status : String) → Tells (fail_with message code) status → ⊥
unfolding Dict.get fail with_error_code
failed-Tells message code status h = cc

pub ingest-Tells :
    (id : String) (outcome : IngestOutcome) (result : ToolResult Datum) (status : String)
    → ingest_reply id (ok outcome) ≡ ok result
    → Tells result status
    → outcome.status ≡ status
unfolding Dict.get succeed with_data
ingest-Tells id outcome result status h k = ground arith

pub status_of-reconciled : (a : Answer) → status_of a ≡ "reconciled" → a ≡ reconciled
status_of-reconciled duplicate h = cc
status_of-reconciled pending h = cc
status_of-reconciled reconciled h = refl

-- A report that is answered with "reconciled" closes its trade.
pub reconciled-closes :
    (expected : List String) (l : Ledger) (r : Report)
    → (Ledger.ingest expected l r).0 ≡ reconciled
    → (Ledger.ingest expected l r).1.closed r.trade_id ≡ true
unfolding Ledger.ingest
reconciled-closes expected l r h = ground arith

pub filter_of-ne-panic : (p : GetAuditHistoryParams) → filter_of p ≢ panic
unfolding filter_of
filter_of-ne-panic p h = ground arith

module _ (store : Store) (sources : List String) (k : Contract store sources)
    (s : store.State) where
  -- A result, no panic and no Go error; a good state; and the ledger has taken a step or none.
  pub record Serves (reply : Reply store.State) : Type 0 where
    pub result : ToolResult Datum
    pub returned : reply.result ≡ ok result
    pub kept : k.IsOk reply.state
    pub steps : {l : Ledger} → Steps sources l (k.view s) → Steps sources l (k.view reply.state)

  -- What `ingestTradeEvent` serves: where it tells "reconciled", the trade is closed.
  pub record ServesIngest (id : String) (reply : Reply store.State) : Type 0 where
    pub serves : Serves reply
    pub closes :
        Tells serves.result "reconciled" → (id ≢ "") × ((k.view reply.state).closed id ≡ true)

  module _ (outside : Outside) (tc : ToolContext) where
    open outside use {int_of_float, connect, migrate}

    -- What a call of `sweepExpiredTrades` replies and leaves: the configuration's error, or the number
    -- of the trades that are due and a break for each
    pub data HandlesSweep (codec : Codec) (now : Time) (reply : Reply store.State) : Type 0 where
      unopened :
          (m : String)
          → open_engine int_of_float connect migrate tc ≡ err m
          → Fails m "CONFIGURATION_OR_DATABASE_ERROR" reply.result
          → reply.state ≡ s
          → HandlesSweep codec now reply
      swept :
          (window : Duration) (found : List BreakEvent)
          → open_engine int_of_float connect migrate tc ≡ ok (new_engine sources window)
          → AreBreaks sources window codec now (k.view s) found
          → Succeeds
              ("Detected " <> decimal (length found) <> " expired trade correlation(s)")
              (("count", count (length found)) ∷ ("breaks", breaks found) ∷ [])
              reply.result
          → k.IsOk reply.state
          → k.view reply.state ≡ Ledger.sweep (k.view s) now
          → HandlesSweep codec now reply

    -- The reply with the entries of a query: they pass its filter and are of closed trades, as many as
    -- the limit allows at most, and there are some where the filter asks for a closed trade and for any
    -- outcome.
    pub record Finds (f : AuditFilter) (reply : Reply store.State) : Type 0 where
      pub asked : Audits (k.view s) f (store.get_audit s f)
      pub replied :
          Succeeds
            ("Found " <> decimal (length asked.entries) <> " audit entrie(s)")
            (("count", count (length asked.entries)) ∷ ("entries", entries asked.entries) ∷ [])
            reply.result

    -- What a call of `getAuditHistory` replies: the configuration's error, the error of an argument, or
    -- the entries that the arguments ask for
    pub data HandlesAudit (q : GetAuditHistoryParams) (reply : Reply store.State) : Type 0 where
      unopened :
          (m : String)
          → open_engine int_of_float connect migrate tc ≡ err m
          → Fails m "CONFIGURATION_OR_DATABASE_ERROR" reply.result
          → HandlesAudit q reply
      other_outcome :
          (f : AuditFilter)
          → Asks q f
          → ¬ IsOutcome f.outcome
          → Fails "outcome must be reconciled or break" "INVALID_OUTCOME" reply.result
          → HandlesAudit q reply
      other_limit :
          (f : AuditFilter)
          → Asks q f
          → IsOutcome f.outcome
          → ¬ IsInRange f.limit
          → Fails "limit must be between 1 and 500" "INVALID_LIMIT" reply.result
          → HandlesAudit q reply
      asked :
          (f : AuditFilter)
          → Asks q f
          → IsOutcome f.outcome
          → IsInRange f.limit
          → Finds f reply
          → HandlesAudit q reply
