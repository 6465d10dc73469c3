-- ===== src/Handlers.antt =====
-- The three tools (`ingestTradeEvent`, `sweepExpiredTrades` and `getAuditHistory` of
-- go/toolsets/event-correlator/src/main.go), over any store. A call of a tool gives its result, the
-- statuses that it sends and the store's next state; a panic passes on to the SDK.
pub mod Queries
pub mod Expected
pub mod Faults
pub mod Replies
pub mod Sessions
pub mod Ingestion
use event_correlator_tool.Common.{
  ℕ, String, ◌<>◌, Bool, true, false, not, ◌&&◌, ◌||◌, Option, none, some, List, [], ◌∷◌,
  if◌then◌else◌, ◌==◌, length, ltb, Result, ok, err, panic,
}
use event_correlator_tool.Common.Int.{ℤ, pos, ltb_ℤ, pos_part, neg_part}
use event_correlator_tool.Common.Strings.{trim_space, decimal}
use event_correlator_tool.Clock.{Time}
use event_correlator_tool.Model.{Float64, TradeEvent, ReconciledEvent, BreakEvent, AuditEntry}
use event_correlator_tool.Store.{AuditFilter, Store}
use event_correlator_tool.Engine.{Codec, Engine, IngestOutcome}
use event_correlator_tool.Engine.Actions.{ingest, sweep, audit_history}
use event_correlator_tool.Config.{open_engine}
use event_correlator_tool.Sdk.Context.{ToolContext}
use event_correlator_tool.Sdk.Outcome.{ToolResult, succeed, fail, with_data, with_error_code}
use mathlib.Core.Option

pub record IngestTradeEventParams : Type 0 where
  pub trade_id : String
  pub source : String
  pub timestamp : String
  pub instrument : Option String
  pub quantity : Option Float64
  pub price : Option Float64
  pub currency : Option String
  pub counterparty : Option String

pub record GetAuditHistoryParams : Type 0 where
  pub trade_id : Option String
  pub outcome : Option String
  pub limit : Option ℤ

-- The values of the data maps that the tools return.
pub data Datum : Type 0 where
  text : String → Datum
  count : ℕ → Datum
  reconciled : ReconciledEvent → Datum
  breaks : List BreakEvent → Datum
  entries : List AuditEntry → Datum

-- What the tools take from outside: `time.Parse(time.RFC3339Nano, …)`, the conversion of a float64
-- to an int, and the two steps of opening the database.
pub record Outside : Type 0 where
  pub parse_time : String → Option Time
  pub int_of_float : Float64 → ℤ
  pub connect : String → Option String
  pub migrate : Option String

pub record Reply (S : Type 0) : Type 0 where
  pub result : Result (ToolResult Datum)
  pub statuses : List String
  pub state : S

-- `valueOrZero`
unfoldable pub value_or_zero {ℓ} : {T : Type ℓ} → T → Option T → T
value_or_zero zero none = zero
value_or_zero zero (some v) = v

-- `sdk.Error(message, sdk.WithErrorCode(code))`
abbrev pub fail_with : String → String → ToolResult Datum
fail_with message code = fail message (with_error_code code ∷ [])

-- The arguments as an event; the floats' zero is the bit pattern 0.
unfoldable pub event_of : IngestTradeEventParams → Time → TradeEvent
unfolding value_or_zero
event_of p timestamp = record {
  trade_id = p.trade_id;
  source = p.source;
  timestamp = timestamp;
  instrument = value_or_zero "" p.instrument;
  quantity = value_or_zero 0 p.quantity;
  price = value_or_zero 0 p.price;
  currency = value_or_zero "" p.currency;
  counterparty = value_or_zero "" p.counterparty;
}

-- The data map of a correlated event.
abbrev pub ingest_data : String → IngestOutcome → List (String × Datum)
ingest_data trade_id outcome =
    ("status", text outcome.status)
    ∷ ("trade_id", text trade_id)
    ∷ elim outcome.reconciled [ none ↦ [] | some r ↦ ("reconciled", reconciled r) ∷ [] ]

abbrev pub ingest_reply : String → Result IngestOutcome → Result (ToolResult Datum)
ingest_reply trade_id panic = panic
ingest_reply trade_id (err e) = ok (fail_with e "INGEST_FAILED")
ingest_reply trade_id (ok outcome) = ok (
    succeed ("Trade event processed: " <> outcome.status)
      (with_data (ingest_data trade_id outcome) ∷ []))

abbrev pub sweep_reply : Result (List BreakEvent) → Result (ToolResult Datum)
sweep_reply panic = panic
sweep_reply (err e) = ok (fail_with e "SWEEP_FAILED")
sweep_reply (ok found) = ok (
    succeed ("Detected " <> decimal (length found) <> " expired trade correlation(s)")
      (with_data (("count", count (length found)) ∷ ("breaks", breaks found) ∷ []) ∷ []))

abbrev pub audit_reply : Result (List AuditEntry) → Result (ToolResult Datum)
audit_reply panic = panic
audit_reply (err e) = ok (fail_with e "AUDIT_QUERY_FAILED")
audit_reply (ok found) = ok (
    succeed ("Found " <> decimal (length found) <> " audit entrie(s)")
      (with_data (("count", count (length found)) ∷ ("entries", entries found) ∷ []) ∷ []))

-- The filter of `getAuditHistory`, or the message and code of its error.
unfoldable pub filter_of : GetAuditHistoryParams → Result AuditFilter
unfolding value_or_zero
filter_of p =
    let trade_id = trim_space (value_or_zero "" p.trade_id) in
    let outcome = trim_space (value_or_zero "" p.outcome) in
    let limit = value_or_zero (pos 100) p.limit in
    if not (outcome == "") && not (outcome == "reconciled") && not (outcome == "break")
    then err "INVALID_OUTCOME"
    else if ltb_ℤ limit (pos 1) || ltb_ℤ (pos 500) limit
    then err "INVALID_LIMIT"
    else ok (record { trade_id = trade_id; outcome = outcome; limit = limit })

abbrev pub filter_message : String → String
filter_message code =
    if code == "INVALID_OUTCOME"
    then "outcome must be reconciled or break"
    else "limit must be between 1 and 500"

module _ (codec : Codec) (store : Store) (outside : Outside) where
  open outside use {parse_time, int_of_float, connect, migrate}

  unfoldable pub configured : ToolContext → Result Engine
  configured = open_engine int_of_float connect migrate

  abbrev answer : Result (ToolResult Datum) → store.State → Reply store.State
  answer result s = record { result = result; statuses = []; state = s }

  -- `now` is what `time.Now().UTC()` gives.
  unfoldable pub ingest_trade_event :
      IngestTradeEventParams → ToolContext → Time → store.State → Reply store.State
  unfolding configured
  ingest_trade_event p tc now s = elim (parse_time p.timestamp) [
    | none ↦ answer (ok (fail_with "timestamp must be RFC 3339" "INVALID_TIMESTAMP")) s
    | some timestamp ↦ elim (configured tc) [
      | panic ↦ answer panic s
      | err e ↦ answer (ok (fail_with e "CONFIGURATION_OR_DATABASE_ERROR")) s
      | ok engine ↦
          let (outcome, next) = ingest codec store engine s (event_of p timestamp) now in
          record {
            result = ingest_reply p.trade_id outcome;
            statuses = ("Correlating trade " <> p.trade_id) ∷ [];
            state = next;
          }
    ]
  ]

  unfoldable pub sweep_expired_trades : ToolContext → Time → store.State → Reply store.State
  unfolding configured
  sweep_expired_trades tc now s = elim (configured tc) [
    | panic ↦ answer panic s
    | err e ↦ answer (ok (fail_with e "CONFIGURATION_OR_DATABASE_ERROR")) s
    | ok engine ↦
        let (outcome, next) = sweep codec store engine s now in
        record {
          result = sweep_reply outcome;
          statuses = "Checking for expired trade correlations" ∷ [];
          state = next;
        }
  ]

  unfoldable pub get_audit_history :
      GetAuditHistoryParams → ToolContext → store.State → Reply store.State
  unfolding configured
  get_audit_history p tc s = elim (configured tc) [
    | panic ↦ answer panic s
    | err e ↦ answer (ok (fail_with e "CONFIGURATION_OR_DATABASE_ERROR")) s
    | ok engine ↦ elim (filter_of p) [
      | panic ↦ answer panic s
      | err code ↦ answer (ok (fail_with (filter_message code) code)) s
      | ok filter ↦ answer (audit_reply (audit_history codec store s filter)) s
    ]
  ]
