-- ===== src/Tests.antt =====
-- The data of the runs and of the theorems' uses at concrete inputs: two expected sources, a
-- window of ten nanoseconds and a codec that keeps an event's quantity.
mod Runs
mod Memory
mod Lifecycle
mod Builds
mod Database
mod Stores
mod Sessions
mod Service
mod Events
mod Tools
mod Calls
use event_correlator_tool.Common.{
  ℕ, zero, String, Bool, List, [], ◌∷◌, inl, inr, Option, none, some,
}
use event_correlator_tool.Common.Int.{ℤ, pos}
use event_correlator_tool.Clock.{Time, Duration, zero_time}
use event_correlator_tool.Model.{Bytes, Float64, TradeEvent, AuditEntry}
use event_correlator_tool.Store.{PendingTrade, Built, BuildAudit, BuildBreak}
use event_correlator_tool.Engine.{Codec}

abbrev pub sources : List String
sources = "solar" ∷ "murex" ∷ []

abbrev pub window : Duration
window = pos 10

abbrev pub event_at : Float64 → String → String → TradeEvent
event_at quantity trade_id source = record {
  trade_id = trade_id;
  source = source;
  timestamp = zero_time;
  instrument = "";
  quantity = quantity;
  price = 0;
  currency = "";
  counterparty = "";
}

abbrev quantity_of : Bytes → Float64
quantity_of [] = 0
quantity_of (n ∷ bytes) = n

abbrev pub codec : Codec
codec = record {
  marshal_event = λ event. inr (event.quantity ∷ []);
  unmarshal_event = λ bytes. event_at (quantity_of bytes) "" "";
  marshal_reconciled = λ r. [];
  marshal_break = λ b. [];
}

abbrev pub solar : TradeEvent
solar = event_at 7 "t1" "solar"

abbrev pub murex : TradeEvent
murex = event_at 8 "t1" "murex"

-- A pending event, seen at time 3.
abbrev pub row_of : String → String → Time → PendingTrade
row_of trade_id source deadline = record {
  trade_id = trade_id;
  source = source;
  payload = 7 ∷ [];
  first_seen = pos 3;
  deadline = deadline;
}

abbrev pub entry_of : String → String → AuditEntry
entry_of trade_id outcome = record {
  id = "";
  trade_id = trade_id;
  outcome = outcome;
  sources = [];
  detail = [];
  occurred_at = pos 5;
  recorded_at = pos 5;
}

-- A closure that captures nothing.
abbrev pub build_entry : BuildBreak Unit
build_entry trade_id c events =
    some (record { captured = tt; events = events; entry = entry_of trade_id "break" })
