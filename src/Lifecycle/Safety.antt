-- ===== src/Lifecycle/Safety.antt =====
-- The states of the memory store that a history of calls of engine.go reaches.
use event_correlator_tool.Common.{String, true, none, List, [], ◌≡◌, arith, contains}
use event_correlator_tool.Common.Dict
use event_correlator_tool.Common.Dict.{Dict}
use event_correlator_tool.Clock.{Time, Duration}
use event_correlator_tool.Model.{Bytes, TradeEvent}
use event_correlator_tool.Memory.{Memory}
use event_correlator_tool.Memory.Invariant.{IsValid, IsAbout, new-IsValid}
use event_correlator_tool.Memory.Invariant.Ingest.{ingest-IsValid}
use event_correlator_tool.Memory.Sweep.{memory_store}
use event_correlator_tool.Memory.Sweep.Claims.{sweep_expired-IsValid}
use event_correlator_tool.Engine.{Codec, Engine, new_engine, audit_reconciled, audit_break}
use event_correlator_tool.Engine.Actions.{ingest, sweep, submit, pending_of}
use event_correlator_tool.Engine.Cases.{ingest_cases}
use event_correlator_tool.Lifecycle.{Reach, start, ingested}
use event_correlator_tool.Lifecycle

module _ (codec : Codec) where
  pub audit_reconciled-IsAbout :
      (event : TradeEvent) (now : Time) → IsAbout event.trade_id (audit_reconciled codec event now)
  unfolding audit_reconciled
  audit_reconciled-IsAbout event now c events b h = ground arith

  pub audit_break-IsAbout :
      (e : Engine) (now : Time) (id : String) → IsAbout id (audit_break codec e now id)
  unfolding audit_break
  audit_break-IsAbout e now id c events b h = ground arith

module _ (sources : List String) (window : Duration) where
  pub has-expected_sources :
      (k : String) → Dict.has (new_engine sources window).expected_sources k ≡ contains sources k
  unfolding new_engine Dict.has
  has-expected_sources k = ground (arith, Dict.has-set_of sources [] k)

  module _ (codec : Codec) (s : Memory) (v : IsValid sources s) (now : Time) where
    abbrev e : Engine
    e = new_engine sources window

    submit-IsValid :
        (event : TradeEvent) (payload : Bytes)
        → contains sources event.source ≡ true
        → IsValid sources (submit codec memory_store e s event payload now).1
    unfolding submit new_engine
    submit-IsValid event payload k =
        ingest-IsValid sources s (pending_of e event payload now) (audit_reconciled codec event now)
          none v k (audit_reconciled-IsAbout codec event now)

    pub ingest-IsValid_of :
        (event : TradeEvent) → IsValid sources (ingest codec memory_store e s event now).1
    ingest-IsValid_of event =
        ingest_cases codec memory_store e s event now (λ r. IsValid sources r.1) v v (λ m _. v)
          (λ payload _ known _. submit-IsValid event payload (rw has-expected_sources at known))

    pub sweep-IsValid_of : IsValid sources (sweep codec memory_store e s now).1
    unfolding sweep
    sweep-IsValid_of =
        sweep_expired-IsValid sources s now (audit_break codec e now) [] v
          (audit_break-IsAbout codec e now)

-- Every state that `Ingest` and `Sweep` reach from a new store, in any order and at any times, is
-- valid: each trade that waits has events from some but not all of the expected sources, one from
-- each; a finalized trade has no pending events; and no trade is finalized twice.
pub Reach-IsValid :
    (sources : List String) (window : Duration) (codec : Codec) {s : Memory}
    → Reach codec (new_engine sources window) s
    → IsValid sources s
Reach-IsValid sources window codec start = new-IsValid sources
Reach-IsValid sources window codec (ingested {s} event now r) =
    ingest-IsValid_of sources window codec s (Reach-IsValid sources window codec r) now event
Reach-IsValid sources window codec (Lifecycle.swept {s} now r) =
    sweep-IsValid_of sources window codec s (Reach-IsValid sources window codec r) now
