-- ===== src/Model.antt =====
-- The data of the correlator (go/toolsets/event-correlator/src/internal/model/event.go).
use event_correlator_tool.Common.{ℕ, String, List}
use event_correlator_tool.Common.Int.{ℤ}
use event_correlator_tool.Clock.{Time}

-- A `float64` as its 64 bits: the correlator stores and returns it and computes nothing with it.
abbrev pub Float64 : Type 0
Float64 = ℕ

-- A byte slice.
abbrev pub Bytes : Type 0
Bytes = List ℕ

pub record TradeEvent : Type 0 where
  pub trade_id : String
  pub source : String
  pub timestamp : Time
  pub instrument : String
  pub quantity : Float64
  pub price : Float64
  pub currency : String
  pub counterparty : String

pub record ReconciledEvent : Type 0 where
  pub trade_id : String
  pub sources : List String
  pub reconciled_at : Time
  pub match_duration : ℤ
  pub events : List TradeEvent

pub record BreakEvent : Type 0 where
  pub trade_id : String
  pub missing_sources : List String
  pub received_sources : List String
  pub detected_at : Time
  pub window_expiry : Time
  pub events : List TradeEvent

pub record AuditEntry : Type 0 where
  pub id : String
  pub trade_id : String
  pub outcome : String
  pub sources : List String
  pub detail : Bytes
  pub occurred_at : Time
  pub recorded_at : Time
