-- ===== src/Handlers/Ingestion.antt =====
-- The ways through `ingestTradeEvent` of main.go, over any store.
use event_correlator_tool.Common.{
  String, ◌<>◌, Bool, true, false, Option, none, some, List, [], ◌∷◌, ◌≡◌, ◌≢◌, refl, inl, inr,
  Option-cases, Result, ok, err, panic, contains, sym, ◌∙◌,
}
use event_correlator_tool.Common.Dict
use event_correlator_tool.Clock.{Time, Duration, add}
use event_correlator_tool.Model.{Bytes, TradeEvent, ReconciledEvent}
use event_correlator_tool.Store.{PendingTrade, IngestResult, Call, Store}
use event_correlator_tool.Engine.{Codec, IngestOutcome, new_engine, audit_reconciled}
use event_correlator_tool.Engine.Actions.{ingest, submit, ingest_outcome}
use event_correlator_tool.Engine.Cases.{ingest_branches}
use event_correlator_tool.Lifecycle.Safety.{has-expected_sources}
use event_correlator_tool.Config.{open_engine}
use event_correlator_tool.Config.Opened.{IsFor, open_engine-cases}
use event_correlator_tool.Sdk.Context.{ToolContext}
use event_correlator_tool.Sdk.Outcome.{ToolResult, succeed, fail, with_data, with_error_code}
use event_correlator_tool.Handlers.{
  IngestTradeEventParams, Datum, text, reconciled, Outside, Reply, event_of, ingest_reply,
  ingest_trade_event,
}
use event_correlator_tool.Handlers
use event_correlator_tool.Handlers.Expected.{Succeeds, Fails, Describes, event_of-Describes}

-- A reply that tells a status, and a reconciled event where there is one
abbrev pub Answers : String → String → List (String × Datum) → Result (ToolResult Datum) → Type 0
Answers id status more result =
    Succeeds ("Trade event processed: " <> status)
      (("status", text status) ∷ ("trade_id", text id) ∷ more) result

-- The reply to an event that a store was asked to ingest, from the store's answer and from the
-- reconciled event that the closure has built
abbrev pub Reports :
    String → Result IngestResult → Option ReconciledEvent → Result (ToolResult Datum) → Type 0
Reports id panic built result = result ≡ panic
Reports id (err e) built result = Fails ("ingest event: " <> e) "INGEST_FAILED" result
Reports id (ok answer) none result =
    Answers id (elim answer.inserted [ true ↦ "pending" | false ↦ "duplicate" ]) [] result
Reports id (ok answer) (some event) result = elim answer.inserted [
  | true ↦ Answers id "reconciled" (("reconciled", reconciled event) ∷ []) result
  | false ↦ Answers id "duplicate" [] result
]

module _ (codec : Codec) (store : Store) (outside : Outside) (sources : List String)
    (p : IngestTradeEventParams) (tc : ToolContext) (now : Time) (s : store.State) where
  open outside use {parse_time, int_of_float, connect, migrate}

  -- The call of the store for an event
  abbrev pub stores :
      Duration → TradeEvent → Bytes → Call store.State (Option ReconciledEvent) IngestResult
  stores window event payload =
      store.ingest s
        (record {
          trade_id = p.trade_id;
          source = p.source;
          payload = payload;
          first_seen = now;
          deadline = add now window;
        })
        sources (audit_reconciled codec event now) none

  -- A reply that leaves the store as it was
  abbrev Leaves : (Result (ToolResult Datum) → Type 0) → Reply store.State → Type 0
  Leaves R reply = R reply.result × (reply.state ≡ s)

  -- What becomes of an event, once its timestamp is parsed and the configuration is open
  pub data Ingests (event : TradeEvent) (window : Duration) (reply : Reply store.State)
      : Type 0 where
    unnamed :
        p.trade_id ≡ ""
        → Leaves (Fails "trade_id is required" "INGEST_FAILED") reply
        → Ingests event window reply
    unknown :
        p.trade_id ≢ ""
        → contains sources p.source ≡ false
        → Leaves (Answers p.trade_id "ignored_unknown_source" []) reply
        → Ingests event window reply
    unencoded :
        (m : String)
        → p.trade_id ≢ ""
        → contains sources p.source ≡ true
        → codec.marshal_event event ≡ inl m
        → Leaves (Fails ("marshal event: " <> m) "INGEST_FAILED") reply
        → Ingests event window reply
    submitted :
        (payload : Bytes)
        → p.trade_id ≢ ""
        → contains sources p.source ≡ true
        → codec.marshal_event event ≡ inr payload
        → Reports p.trade_id
            (stores window event payload).result
            (stores window event payload).captured
            reply.result
        → reply.state ≡ (stores window event payload).state
        → Ingests event window reply

  -- What a call of `ingestTradeEvent` replies and leaves, by how far it comes
  pub data Handles (reply : Reply store.State) : Type 0 where
    unparsed :
        parse_time p.timestamp ≡ none
        → Leaves (Fails "timestamp must be RFC 3339" "INVALID_TIMESTAMP") reply
        → Handles reply
    unopened :
        (timestamp : Time) (m : String)
        → parse_time p.timestamp ≡ some timestamp
        → open_engine int_of_float connect migrate tc ≡ err m
        → Leaves (Fails m "CONFIGURATION_OR_DATABASE_ERROR") reply
        → Handles reply
    opened :
        (timestamp : Time) (window : Duration) (event : TradeEvent)
        → parse_time p.timestamp ≡ some timestamp
        → open_engine int_of_float connect migrate tc ≡ ok (new_engine sources window)
        → Describes p timestamp event
        → Ingests event window reply
        → Handles reply

  answered :
      (inserted : Bool) (events : List PendingTrade) (built : Option ReconciledEvent)
      → let result : Result IngestResult = ok (record { inserted = inserted; events = events }) in
        Reports p.trade_id result built (ingest_reply p.trade_id (ingest_outcome result built))
  unfolding succeed with_data
  answered true events none = refl
  answered false events none = refl
  answered true events (some event) = refl
  answered false events (some event) = refl

  reported :
      (result : Result IngestResult) (built : Option ReconciledEvent)
      → Reports p.trade_id result built (ingest_reply p.trade_id (ingest_outcome result built))
  unfolding succeed fail with_data with_error_code
  reported panic built = refl
  reported (err e) built = refl
  reported (ok answer) built = answered answer.inserted answer.events built

  module _ (timestamp : Time) (window : Duration) where
    abbrev reply_of : Result IngestOutcome × store.State → Reply store.State
    reply_of (outcome, next) = record {
      result = ingest_reply p.trade_id outcome;
      statuses = ("Correlating trade " <> p.trade_id) ∷ [];
      state = next;
    }

    abbrev known_eq :
        Dict.has (new_engine sources window).expected_sources p.source ≡ contains sources p.source
    known_eq = has-expected_sources sources window p.source

    reply_of-Ingests :
        Ingests
          (event_of p timestamp)
          window
          (reply_of (ingest codec store (new_engine sources window) s (event_of p timestamp) now))
    unfolding event_of submit new_engine succeed fail with_data with_error_code
    reply_of-Ingests =
        ingest_branches codec store (new_engine sources window) s (event_of p timestamp) now
          (λ r. Ingests (event_of p timestamp) window (reply_of r))
          (λ unnamed_id. unnamed unnamed_id (refl, refl))
          (λ named other. unknown named (sym known_eq ∙ other) (refl, refl))
          (λ m named known bad. unencoded m named (sym known_eq ∙ known) bad (refl, refl))
          (λ payload named known encoded.
            submitted payload named (sym known_eq ∙ known) encoded
              (reported (stores window (event_of p timestamp) payload).result
                (stores window (event_of p timestamp) payload).captured)
              refl)

  -- `ingestTradeEvent`, over any store and with a configuration for the expected sources, replies in one
  -- of six ways, each under its own conditions. A timestamp that does not parse and a configuration
  -- that does not open, an event without a trade's id and one that does not encode are turned down, each
  -- with its message and its code, and an event from another source with the status
  -- "ignored_unknown_source"; the store then stays as it was. Any other event, with the values of the
  -- arguments, empty or zero where one is missing, is handed to the store with the window's deadline, and
  -- the reply tells what the store answers: the store's error, or the status and the trade's id, with
  -- the reconciled event exactly where the status is "reconciled"; where the store panics, so does the
  -- call.
  pub ingest_trade_event-Handles :
      IsFor sources tc → Handles (ingest_trade_event codec store outside p tc now s)
  unfolding ingest_trade_event Handlers.configured fail with_error_code
  ingest_trade_event-Handles configured = elim (Option-cases (parse_time p.timestamp)) [
    | inl e ↦ rw (e, ingest_trade_event) (unparsed e (refl, refl))
    | inr (timestamp, e) ↦
        elim (open_engine-cases int_of_float connect migrate sources tc configured) [
          | inl (m, f) ↦ rw (e, f, ingest_trade_event) (unopened timestamp m e f (refl, refl))
          | inr (window, f) ↦
              rw (e, f, ingest_trade_event)
                (opened timestamp window (event_of p timestamp) e f (event_of-Describes p timestamp)
                  (reply_of-Ingests timestamp window))
        ]
  ]
