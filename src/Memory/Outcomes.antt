-- ===== src/Memory/Outcomes.antt =====
-- The three ways through `Ingest` of memory.go, and what `expectedEvents` selects.
use event_correlator_tool.Common.{
  Distinct, sym, ap, ◌∙◌, ◌≢◌, String, Bool, true, false, ◌&&◌, some, List, [], ◌∷◌, ◌++◌, ◌≡◌,
  refl, arith, contains, keep, ok,
}
use event_correlator_tool.Common.Dict
use event_correlator_tool.Store.{PendingTrade, sources_of, no_result, Built, BuildAudit}
use event_correlator_tool.Memory.{
  Memory, has_every_source, expected_events, is_duplicate, appended, finish, admit, ingest,
}
use event_correlator_tool.Memory.Selection.{expected_events-keep, has_every_source_iff}
use event_correlator_tool.Memory.Invariant.{AllNamed, IsPart}

module _ {C : Type 0} (s : Memory) (trade : PendingTrade) (expected : List String)
    (build : BuildAudit C) (c : C) where
  pub ingest_duplicate :
      is_duplicate s trade ≡ true
      → ingest s trade expected build c ≡ record { result = ok no_result; state = s; captured = c }
  unfolding ingest
  ingest_duplicate h = rw h

  pub ingest_waiting :
      is_duplicate s trade ≡ false
      → has_every_source (appended s trade) expected ≡ false
      → ingest s trade expected build c ≡ record {
        result = ok (record { inserted = true; events = [] });
        state = record s { events = Dict.set s.events trade.trade_id (appended s trade) };
        captured = c;
      }
  unfolding ingest admit
  ingest_waiting h k = rw (h, k, admit)

  pub ingest_complete :
      is_duplicate s trade ≡ false
      → has_every_source (appended s trade) expected ≡ true
      → ingest s trade expected build c
        ≡ finish
            (record s { events = Dict.set s.events trade.trade_id (appended s trade) })
            trade.trade_id
            (expected_events (appended s trade) expected)
            build
            c
  unfolding ingest admit
  ingest_complete h k = rw (h, k, admit)

pub finish-some :
    {C : Type 0} (s : Memory) (id : String) (selected : List PendingTrade) (build : BuildAudit C)
    (c : C) {b : Built C}
    → build c selected ≡ some b
    → finish s id selected build c ≡ record {
      result = ok (record { inserted = true; events = b.events });
      state = record { events = Dict.delete s.events id; audit = s.audit ++ b.entry ∷ [] };
      captured = b.captured;
    }
unfolding finish
finish-some s id selected build c e = rw (e, finish)

contains-keep :
    (expected : List String) (events : List PendingTrade) (a : String)
    → contains (sources_of (keep (λ event. contains expected event.source) events)) a
      ≡ (contains (sources_of events) a && contains expected a)
unfolding contains
contains-keep expected [] a = refl
contains-keep expected (event ∷ events) a = ground (arith, contains-keep expected events a)

AllNamed-keep :
    (id : String) (p : PendingTrade → Bool) (events : List PendingTrade)
    → AllNamed id events
    → AllNamed id (keep p events)
AllNamed-keep id p [] h = tt
AllNamed-keep id p (event ∷ events) h = ground (arith, AllNamed-keep id p events)

-- The events that are selected for a complete trade have exactly the expected sources.
pub expected_events-sources :
    (events : List PendingTrade) (expected : List String)
    → has_every_source events expected ≡ true
    → (a : String) → contains (sources_of (expected_events events expected)) a ≡ contains expected a
expected_events-sources events expected h a =
    rw expected_events-keep (
      ground (arith, contains-keep expected events a, (has_every_source_iff events expected).0 h a))

pub expected_events-AllNamed :
    (id : String) (events : List PendingTrade) (expected : List String)
    → AllNamed id events
    → AllNamed id (expected_events events expected)
expected_events-AllNamed id events expected h =
    rw expected_events-keep (AllNamed-keep id _ events h)

Distinct-keep :
    (expected : List String) (events : List PendingTrade)
    → Distinct (sources_of events)
    → Distinct (sources_of (keep (λ event. contains expected event.source) events))
Distinct-keep expected [] h = tt
Distinct-keep expected (event ∷ events) h =
    ground (arith, Distinct-keep expected events h.1, contains-keep expected events event.source)

module _ (id : String) (events : List PendingTrade) (expected : List String)
    (complete : has_every_source events expected ≡ true) where
  -- The selected events of a complete trade are a part of it.
  pub expected_events-IsPart :
      IsPart expected id events → IsPart expected id (expected_events events expected)
  expected_events-IsPart p = record {
    named = expected_events-AllNamed id events expected p.named;
    distinct = rw expected_events-keep (Distinct-keep expected events p.distinct);
    known = λ a m. sym (expected_events-sources events expected complete a) ∙ m;
  }

  pub expected_events-ne-nil :
      (source : String) → contains expected source ≡ true → expected_events events expected ≢ []
  unfolding contains
  expected_events-ne-nil source k e = ground (
    arith,
    ap (λ l. contains (sources_of l) source) e,
    expected_events-sources events expected complete source,
  )
