-- ===== src/Handlers/Faults.antt =====
-- The three tools of main.go over the PostgreSQL store, where any request may fail.
use event_correlator_tool.Common.{
  ℕ, String, true, none, some, List, [], ◌≡◌, ◌≢◌, refl, sym, ◌∙◌, inl, inr, contains, Result,
  Result-cases, ok, err, panic, Option, Option-cases,
}
use event_correlator_tool.Common.Dict.{Dict}
use event_correlator_tool.Clock.{Time, Duration}
use event_correlator_tool.Model.{Bytes, TradeEvent, ReconciledEvent, BreakEvent, AuditEntry}
use event_correlator_tool.Store.{PendingTrade, IngestResult}
use event_correlator_tool.Engine.{Codec, IngestOutcome, new_engine, audit_reconciled, audit_break}
use event_correlator_tool.Engine.Actions.{
  ingest, sweep, submit, pending_of, audit_history, ingest_outcome, sweep_outcome,
}
use event_correlator_tool.Engine.Cases.{ingest_cases}
use event_correlator_tool.Lifecycle.Safety.{has-expected_sources}
use event_correlator_tool.Service.{audit_reconciled-Serves, audit_break-Serves}
use event_correlator_tool.Config.Opened.{IsFor, open_engine-cases}
use event_correlator_tool.Sdk.Context.{ToolContext}
use event_correlator_tool.Sdk.Outcome.{ToolResult}
use event_correlator_tool.Postgres.{Tables, Server}
use event_correlator_tool.Postgres.Client.{Database, postgres_store, opened}
use event_correlator_tool.Postgres.Refines.{Stores, IsTidy}
use event_correlator_tool.Postgres.Refines.Calm.{
  ingest-ne-panic, sweep_expired-ne-panic, get_audit-ne-panic,
}
use event_correlator_tool.Postgres.Refines.Sessions.{
  Sessions, ingested, swept, connected, Sessions-IsTraced,
}
use event_correlator_tool.Handlers.{
  IngestTradeEventParams, GetAuditHistoryParams, Datum, Outside, Reply, event_of, ingest_reply,
  sweep_reply, audit_reply, filter_of, ingest_trade_event, sweep_expired_trades, get_audit_history,
}
use event_correlator_tool.Handlers
use event_correlator_tool.Handlers.Replies.{filter_of-ne-panic}
use event_correlator_tool.Handlers.Sessions.{ToolCall, ingests, sweeps, audits, IsCallFor, serve}

ingest_outcome-ne-panic :
    (x : Result IngestResult) (r : Option ReconciledEvent) → x ≢ panic → ingest_outcome x r ≢ panic
ingest_outcome-ne-panic (ok x) none h e = cc
ingest_outcome-ne-panic (ok x) (some r) h e = cc
ingest_outcome-ne-panic (err m) r h e = cc
ingest_outcome-ne-panic panic r h e = h refl

sweep_outcome-ne-panic :
    (x : Result (Dict (List PendingTrade))) (built : Dict BreakEvent)
    → x ≢ panic
    → sweep_outcome x built ≢ panic
sweep_outcome-ne-panic (ok x) built h e = cc
sweep_outcome-ne-panic (err m) built h e = cc
sweep_outcome-ne-panic panic built h e = h refl

-- The tool returns a result: no panic and no Go error.
abbrev pub Returns : Result (ToolResult Datum) → Type 0
Returns reply = (result : ToolResult Datum) × (reply ≡ ok result)

ingest_reply-Returns :
    (id : String) (x : Result IngestOutcome) → x ≢ panic → Returns (ingest_reply id x)
ingest_reply-Returns id (ok x) h = (_, refl)
ingest_reply-Returns id (err m) h = (_, refl)
ingest_reply-Returns id panic h = absurd (h refl)

sweep_reply-Returns : (x : Result (List BreakEvent)) → x ≢ panic → Returns (sweep_reply x)
sweep_reply-Returns (ok x) h = (_, refl)
sweep_reply-Returns (err m) h = (_, refl)
sweep_reply-Returns panic h = absurd (h refl)

audit_reply-Returns : (x : Result (List AuditEntry)) → x ≢ panic → Returns (audit_reply x)
audit_reply-Returns (ok x) h = (_, refl)
audit_reply-Returns (err m) h = (_, refl)
audit_reply-Returns panic h = absurd (h refl)

module _ (server : Server) (kept : Time → Time) (stores : Stores server kept) (codec : Codec)
    (outside : Outside) (sources : List String) {t u : Tables} (tidy : IsTidy kept sources t)
    (r : Sessions kept codec sources t u) (n : ℕ) where
  open outside use {parse_time, int_of_float, connect, migrate}

  tidy_now : IsTidy kept sources u
  tidy_now = (Sessions-IsTraced kept codec sources tidy r).tidy

  -- What a call of a tool returns and leaves
  pub record IsServed (reply : Reply Database) : Type 0 where
    pub returned : Returns reply.result
    pub sessions : Sessions kept codec sources t reply.state.committed

  module _ (window : Duration) where
    submit-ne-panic :
        (event : TradeEvent) (payload : Bytes) (now : Time)
        → contains sources event.source ≡ true
        → (submit codec
            (postgres_store server)
            (new_engine sources window)
            (connected n u)
            event
            payload
            now).0
          ≢ panic
    unfolding submit new_engine
    submit-ne-panic event payload now known = ingest_outcome-ne-panic _ _ (
        ingest-ne-panic server kept stores sources
          (pending_of (new_engine sources window) event payload now) u tidy_now known
          (audit_reconciled codec event now) (audit_reconciled-Serves codec sources now event)
          (opened (connected n u) none) (λ i. u))

    engine_ingest-ne-panic :
        (event : TradeEvent) (now : Time)
        → (ingest codec
            (postgres_store server)
            (new_engine sources window)
            (connected n u)
            event
            now).0
          ≢ panic
    engine_ingest-ne-panic event now =
        ingest_cases codec (postgres_store server) (new_engine sources window) (connected n u) event
          now (λ x. x.0 ≢ panic) (λ e. cc) (λ e. cc) (λ m _ e. cc)
          (λ payload _ known _.
            submit-ne-panic event payload now
              (sym (has-expected_sources sources window event.source) ∙ known))

    engine_sweep-ne-panic :
        (now : Time)
        → (sweep codec (postgres_store server) (new_engine sources window) (connected n u) now).0
          ≢ panic
    unfolding sweep
    engine_sweep-ne-panic now = sweep_outcome-ne-panic _ _ (
        sweep_expired-ne-panic server kept stores sources now
          (audit_break codec (new_engine sources window) now)
          (audit_break-Serves codec sources now window) (opened (connected n u) []) tidy_now)

  module _ (tc : ToolContext) (configured : IsFor sources tc) where
    ingest_trade_event-IsServed :
        (p : IngestTradeEventParams) (now : Time)
        → IsServed
            (ingest_trade_event codec (postgres_store server) outside p tc now (connected n u))
    unfolding ingest_trade_event Handlers.configured
    ingest_trade_event-IsServed p now = elim (Option-cases (parse_time p.timestamp)) [
      | inl e ↦ rw (e, ingest_trade_event) (record { returned = (_, refl); sessions = r })
      | inr (timestamp, e) ↦
          elim (open_engine-cases int_of_float connect migrate sources tc configured) [
            | inl (m, f) ↦
                rw (e, f, ingest_trade_event) (record { returned = (_, refl); sessions = r })
            | inr (window, f) ↦
                rw (e, f, ingest_trade_event)
                  (record {
                    returned =
                        ingest_reply-Returns p.trade_id _
                          (engine_ingest-ne-panic window (event_of p timestamp) now);
                    sessions = ingested server stores window n (event_of p timestamp) now r;
                  })
          ]
    ]

    sweep_expired_trades-IsServed :
        (now : Time)
        → IsServed
            (sweep_expired_trades codec (postgres_store server) outside tc now (connected n u))
    unfolding sweep_expired_trades Handlers.configured
    sweep_expired_trades-IsServed now =
        elim (open_engine-cases int_of_float connect migrate sources tc configured) [
          | inl (m, f) ↦
              rw (f, sweep_expired_trades) (record { returned = (_, refl); sessions = r })
          | inr (window, f) ↦
              rw (f, sweep_expired_trades)
                (record {
                  returned = sweep_reply-Returns _ (engine_sweep-ne-panic window now);
                  sessions = swept server stores window n now r;
                })
        ]

    get_audit_history-IsServed :
        (p : GetAuditHistoryParams)
        → IsServed (get_audit_history codec (postgres_store server) outside p tc (connected n u))
    unfolding get_audit_history Handlers.configured audit_history
    get_audit_history-IsServed p =
        elim (open_engine-cases int_of_float connect migrate sources tc configured) [
          | inl (m, f) ↦ rw (f, get_audit_history) (record { returned = (_, refl); sessions = r })
          | inr (window, f) ↦ elim (Result-cases (filter_of p)) [
            | inl e ↦ absurd (filter_of-ne-panic p e)
            | inr (inl (code, e)) ↦
                rw (f, e, get_audit_history) (record { returned = (_, refl); sessions = r })
            | inr (inr (filter, e)) ↦
                rw (f, e, get_audit_history)
                  (record {
                    returned = audit_reply-Returns _ (
                        get_audit-ne-panic server kept stores sources filter
                          (opened (connected n u) tt));
                    sessions = r;
                  })
          ]
        ]

  -- Whatever sessions have done to tidy tables, interleaved and whatever their requests report: a call
  -- of any of the three tools over the PostgreSQL store, with any arguments, with a configuration for
  -- the same expected sources, valid or not, and with a server on which any request may fail and any
  -- lock may be missing, returns a result, and neither panics nor returns a Go error; and the tables
  -- that it leaves are again tables that sessions leave; if the servers keep what they store.
  pub serve-IsServed :
      (call : ToolCall)
      → IsCallFor sources call
      → IsServed (serve codec (postgres_store server) outside (connected n u) call)
  serve-IsServed (ingests p tc now) h = ingest_trade_event-IsServed tc h p now
  serve-IsServed (sweeps tc now) h = sweep_expired_trades-IsServed tc h now
  serve-IsServed (audits p tc) h = get_audit_history-IsServed tc h p
