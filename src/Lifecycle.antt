-- ===== src/Lifecycle.antt =====
-- Histories of calls of `Ingest` and `Sweep` of engine.go on one engine over the memory store, as
-- engine_test.go runs it.
pub mod Safety
pub mod Outcomes
pub mod Calm
pub mod Returns
pub mod History
pub mod Events
use event_correlator_tool.Common.{String, Result, ok, List}
use event_correlator_tool.Common.Int.{ℤ}
use event_correlator_tool.Clock.{Time, Duration}
use event_correlator_tool.Model.{TradeEvent}
use event_correlator_tool.Memory.{Memory, new}
use event_correlator_tool.Memory.Sweep.{memory_store}
use event_correlator_tool.Engine.{Codec, Engine, new_engine}
use event_correlator_tool.Engine.Actions.{ingest, sweep}

-- The states that an engine with these sources and this window leaves a new store in.
pub data Reach (codec : Codec) (e : Engine) : Memory → Type 0 where
  start : Reach codec e new
  ingested :
      {s : Memory} (event : TradeEvent) (now : Time)
      → Reach codec e s
      → Reach codec e (ingest codec memory_store e s event now).1
  swept :
      {s : Memory} (now : Time)
      → Reach codec e s
      → Reach codec e (sweep codec memory_store e s now).1
