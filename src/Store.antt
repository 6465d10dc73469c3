-- ===== src/Store.antt =====
-- The store's data and its interface (go/toolsets/event-correlator/src/internal/store/store.go).
use event_correlator_tool.Common.{String, Bool, false, Option, List, [], map}
use event_correlator_tool.Common.{Result}
use event_correlator_tool.Common.Int.{ℤ}
use event_correlator_tool.Common.Dict.{Dict}
use event_correlator_tool.Clock.{Time}
use event_correlator_tool.Model.{Bytes, AuditEntry}

pub record PendingTrade : Type 0 where
  pub trade_id : String
  pub source : String
  pub payload : Bytes
  pub first_seen : Time
  pub deadline : Time

abbrev pub sources_of : List PendingTrade → List String
sources_of = map (λ (event : PendingTrade). event.source)

pub record IngestResult : Type 0 where
  pub inserted : Bool
  pub events : List PendingTrade

-- `IngestResult{}`
abbrev pub no_result : IngestResult
no_result = record { inserted = false; events = [] }

pub record AuditFilter : Type 0 where
  pub trade_id : String
  pub outcome : String
  pub limit : ℤ

-- What a call of `buildAudit` leaves: the variables `C` that the closure captures, the slice that
-- it was handed (which it may reorder in place), and the entry that it returns.
pub record Built (C : Type 0) : Type 0 where
  pub captured : C
  pub events : List PendingTrade
  pub entry : AuditEntry

-- `func([]PendingTrade) model.AuditEntry`; `none` is a run-time panic.
abbrev pub BuildAudit : Type 0 → Type 0
BuildAudit C = C → List PendingTrade → Option (Built C)

-- `func(string, []PendingTrade) model.AuditEntry`
abbrev pub BuildBreak : Type 0 → Type 0
BuildBreak C = String → BuildAudit C

-- What a call of the store leaves: its result, the store's state, the closure's variables.
pub record Call (S C A : Type 0) : Type 0 where
  pub result : Result A
  pub state : S
  pub captured : C

-- `store.Store`. `Migrate` and `Close` do not touch the events.
pub record Store : Type 1 where
  pub State : Type 0
  pub ingest :
      {C : Type 0}
      → State
      → PendingTrade
      → List String
      → BuildAudit C
      → C
      → Call State C IngestResult
  pub sweep_expired :
      {C : Type 0} → State → Time → BuildBreak C → C → Call State C (Dict (List PendingTrade))
  pub get_audit : State → AuditFilter → Result (List AuditEntry)
