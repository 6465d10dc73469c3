-- ===== src/Ledger.antt =====
-- What a store promises the engine of go/toolsets/event-correlator/src/internal/store/store.go, without
-- rows, order or time of arrival: which sources have reported for a trade, whether it is due at a
-- time, and whether it is closed.
pub mod Delivery
pub mod Rows
pub mod Steps
use event_correlator_tool.Common.{
  String, Bool, true, false, not, ◌&&◌, ◌||◌, List, [], ◌∷◌, ◌==◌, if◌then◌else◌, ◌≡◌, refl,
}
use event_correlator_tool.Common.Int.{leb_ℤ}
use event_correlator_tool.Clock.{Time}

pub record Ledger : Type 0 where
  pub reported : String → String → Bool
  pub due : String → Time → Bool
  pub closed : String → Bool

abbrev pub empty : Ledger
empty = record {
  reported = λ trade_id source. false;
  due = λ trade_id now. false;
  closed = λ trade_id. false;
}

pub data Answer : Type 0 where
  duplicate pending reconciled : Answer

pub record Report : Type 0 where
  pub trade_id : String
  pub source : String
  pub deadline : Time

-- One more source has reported.
abbrev pub note : Ledger → Report → Ledger
note l r = record {
  reported = λ trade_id source.
      (trade_id == r.trade_id && source == r.source) || l.reported trade_id source;
  due = λ trade_id now. (trade_id == r.trade_id && leb_ℤ r.deadline now) || l.due trade_id now;
  closed = l.closed;
}

-- A trade is closed, and nothing waits for it.
abbrev pub close : Ledger → String → Ledger
close l id = record {
  reported = λ trade_id source. if trade_id == id then false else l.reported trade_id source;
  due = λ trade_id now. if trade_id == id then false else l.due trade_id now;
  closed = λ trade_id. (trade_id == id) || l.closed trade_id;
}

abbrev pub all_of : (String → Bool) → List String → Bool
all_of p [] = true
all_of p (a ∷ l) = p a && all_of p l

-- Whether every expected source has reported
abbrev pub is_complete : List String → Ledger → String → Bool
is_complete expected l id = all_of (l.reported id) expected

abbrev pub is_known : Ledger → Report → Bool
is_known l r = l.closed r.trade_id || l.reported r.trade_id r.source

unfoldable pub ingest : List String → Ledger → Report → Answer × Ledger
ingest expected l r =
    if is_known l r
    then (duplicate, l)
    else if is_complete expected (note l r) r.trade_id
    then (reconciled, close l r.trade_id)
    else (pending, note l r)

-- Every trade that is due is closed.
unfoldable pub sweep : Ledger → Time → Ledger
sweep l now = record {
  reported = λ trade_id source. if l.due trade_id now then false else l.reported trade_id source;
  due = λ trade_id t. if l.due trade_id now then false else l.due trade_id t;
  closed = λ trade_id. l.closed trade_id || l.due trade_id now;
}

module _ (expected : List String) (l : Ledger) (r : Report) where
  pub ingest_known : is_known l r ≡ true → ingest expected l r ≡ (duplicate, l)
  unfolding ingest
  ingest_known h = rw h

  module _ (fresh : is_known l r ≡ false) where
    pub ingest_completing :
        is_complete expected (note l r) r.trade_id ≡ true
        → ingest expected l r ≡ (reconciled, close l r.trade_id)
    unfolding ingest
    ingest_completing h = rw (fresh, h)

    pub ingest_waiting :
        is_complete expected (note l r) r.trade_id ≡ false
        → ingest expected l r ≡ (pending, note l r)
    unfolding ingest
    ingest_waiting h = rw (fresh, h)
