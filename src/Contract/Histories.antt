-- ===== src/Contract/Histories.antt =====
-- Sequences of steps of the ledger, and what they keep.
use event_correlator_tool.Common.{
  String, Bool, true, false, ◌&&◌, ◌||◌, List, ◌≡◌, arith, contains, if◌then◌else◌,
}
use event_correlator_tool.Clock.{Time}
use event_correlator_tool.Ledger
use event_correlator_tool.Ledger.{Ledger, Report}
use event_correlator_tool.Ledger.Delivery.{is_settled, ingest-is_settled}

-- Those of the chosen trades that are due are closed.
abbrev pub close_where : (String → Bool) → Ledger → Time → Ledger
close_where p l now = record {
  reported = λ trade_id source.
      if p trade_id && l.due trade_id now then false else l.reported trade_id source;
  due = λ trade_id t. if p trade_id && l.due trade_id now then false else l.due trade_id t;
  closed = λ trade_id. l.closed trade_id || (p trade_id && l.due trade_id now);
}

-- Steps of the ledger: reports from expected sources, and sweeps of all trades or of some
pub data Steps (expected : List String) (l : Ledger) : Ledger → Type 0 where
  stay : Steps expected l l
  report :
      {m : Ledger} (r : Report)
      → contains expected r.source ≡ true
      → Steps expected l m
      → Steps expected l (Ledger.ingest expected m r).1
  close_some :
      {m : Ledger} (p : String → Bool) (now : Time)
      → Steps expected l m
      → Steps expected l (close_where p m now)

pub Steps-sweep :
    {expected : List String} {l m : Ledger} (now : Time)
    → Steps expected l m
    → Steps expected l (Ledger.sweep m now)
unfolding Ledger.sweep
Steps-sweep now s = close_some (λ _. true) now s

-- A trade that is closed or due at a time stays so.
pub Steps-is_settled :
    (expected : List String) (id : String) (t : Time) {l m : Ledger}
    → Steps expected l m
    → is_settled l id t ≡ true
    → is_settled m id t ≡ true
Steps-is_settled expected id t stay h = h
Steps-is_settled expected id t (report {m} r known s) h =
    ingest-is_settled m id t expected r (Steps-is_settled expected id t s h)
Steps-is_settled expected id t (close_some {m} p now s) h =
    closed_or_due (m.closed id) (m.due id t) (p id && m.due id now)
      (Steps-is_settled expected id t s h)
  where
    closed_or_due : (c d x : Bool) → (c || d) ≡ true → ((c || x) || (if x then false else d)) ≡ true
    closed_or_due c d x k = ground arith

ingest-closed :
    (expected : List String) (m : Ledger) (r : Report) (id : String)
    → m.closed id ≡ true
    → (Ledger.ingest expected m r).1.closed id ≡ true
unfolding Ledger.ingest
ingest-closed expected m r id h = ground arith

-- A closed trade stays closed.
pub Steps-closed :
    (expected : List String) (id : String) {l m : Ledger}
    → Steps expected l m
    → l.closed id ≡ true
    → m.closed id ≡ true
Steps-closed expected id stay h = h
Steps-closed expected id (report {m} r known s) h =
    ingest-closed expected m r id (Steps-closed expected id s h)
Steps-closed expected id (close_some {m} p now s) h =
    still (m.closed id) (p id && m.due id now) (Steps-closed expected id s h)
  where
    still : (c x : Bool) → c ≡ true → (c || x) ≡ true
    still c x k = ground arith
