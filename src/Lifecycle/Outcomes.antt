-- ===== src/Lifecycle/Outcomes.antt =====
-- What `Ingest` of the engine answers, over the memory store, and what it leaves there.
use event_correlator_tool.Common.{
  String, true, false, Option, none, some, List, [], ◌∷◌, ◌++◌, ◌≡◌, ◌≢◌, refl, ap, ◌∙◌, inr, arith,
  ◌==◌, if◌then◌else◌, contains, Result, ok,
}
use event_correlator_tool.Common.Dict
use event_correlator_tool.Clock.{Time, Duration}
use event_correlator_tool.Model.{Bytes, TradeEvent, ReconciledEvent, AuditEntry}
use event_correlator_tool.Store.{PendingTrade, IngestResult, sources_of, Call}
use event_correlator_tool.Memory.{
  Memory, pending_events, has_every_source, expected_events, is_duplicate, is_finalized, appended,
  finish,
}
use event_correlator_tool.Memory.Invariant.{IsValid, AllNamed}
use event_correlator_tool.Memory
use event_correlator_tool.Memory.Invariant.Ingest.{not_duplicate, appended-IsPart}
use event_correlator_tool.Memory.Outcomes.{
  ingest_duplicate, ingest_waiting, ingest_complete, finish-some, expected_events-sources,
  expected_events-AllNamed,
}
use event_correlator_tool.Memory.Sweep.{memory_store}
use event_correlator_tool.Engine.{
  Codec, IngestOutcome, new_engine, build_reconciled, sort_events, audit_reconciled,
  reconciled_entry,
}
use event_correlator_tool.Engine.Actions.{status, ingest_outcome, ingest, submit, pending_of}
use event_correlator_tool.Engine.Reconciled.{build_reconciled-Sums, audit_reconciled-some}
use event_correlator_tool.Lifecycle.Safety.{has-expected_sources}

module _ (sources : List String) (window : Duration) (codec : Codec) (s : Memory)
    (event : TradeEvent) (now : Time) (payload : Bytes) where
  -- The row that the engine submits.
  abbrev pub row : PendingTrade
  row = pending_of (new_engine sources window) event payload now

  -- An event that the engine submits: it names its trade, its source is expected, it encodes.
  pub record IsSubmitted : Type 0 where
    pub named : event.trade_id ≢ ""
    pub known : contains sources event.source ≡ true
    pub encoded : codec.marshal_event event ≡ inr payload

  pub ingest-submit :
      IsSubmitted
      → ingest codec memory_store (new_engine sources window) s event now
        ≡ submit codec memory_store (new_engine sources window) s event payload now
  unfolding ingest
  ingest-submit h =
      ground (arith, h.known, h.encoded, has-expected_sources sources window event.source)

  abbrev answer : Call Memory (Option ReconciledEvent) IngestResult → Result IngestOutcome × Memory
  answer call = (ingest_outcome call.result call.captured, call.state)

  ingest-answer :
      (call : Call Memory (Option ReconciledEvent) IngestResult)
      → IsSubmitted
      → Memory.ingest s row sources (audit_reconciled codec event now) none ≡ call
      → ingest codec memory_store (new_engine sources window) s event now ≡ answer call
  unfolding submit new_engine
  ingest-answer call h e = ingest-submit h ∙ ap answer e

  -- An event that names its trade, has an expected source and encodes, and whose trade is finalized
  -- or has an event of its source, is answered with "duplicate", and the store stays as it was.
  pub ingest-answers_duplicate :
      IsSubmitted
      → is_duplicate s row ≡ true
      → ingest codec memory_store (new_engine sources window) s event now
        ≡ (ok (status "duplicate"), s)
  ingest-answers_duplicate h dup =
      ingest-answer _ h (ingest_duplicate s row sources (audit_reconciled codec event now) none dup)

  -- An event that names its trade, has an expected source and encodes, is no duplicate and leaves
  -- its trade incomplete, is answered with "pending": it is added to the trade's events, and the
  -- other trades' events and the audit log stay as they were.
  pub ingest-answers_pending :
      IsSubmitted
      → is_duplicate s row ≡ false
      → has_every_source (appended s row) sources ≡ false
      → (next : Memory) × (ingest codec memory_store (new_engine sources window) s event now
          ≡ (ok (status "pending"), next))
        × (next.audit ≡ s.audit)
        × ((k : String)
            → pending_events next k
              ≡ (if event.trade_id == k then appended s row else pending_events s k))
  unfolding pending_events
  ingest-answers_pending h new incomplete = (
    record s { events = Dict.set s.events event.trade_id (appended s row) },
    ingest-answer _ h
        (ingest_waiting s row sources (audit_reconciled codec event now) none new incomplete),
    refl,
    λ k. ground (arith, Dict.get-set s.events event.trade_id k (appended s row)),
  )

  -- What a new event that completes its trade leaves: the reconciled event has exactly the
  -- expected sources, the trade has no pending events and one more audit entry, and the other
  -- trades stay as they were.
  pub record IsReconciled (r : ReconciledEvent) (next : Memory) : Type 0 where
    pub trade : r.trade_id ≡ event.trade_id
    pub sources_exact : (a : String) → contains r.sources a ≡ contains sources a
    pub entry : AuditEntry
    pub logged : next.audit ≡ s.audit ++ entry ∷ []
    pub about : entry.trade_id ≡ event.trade_id
    pub outcome : entry.outcome ≡ "reconciled"
    pub listed : entry.sources ≡ r.sources
    pub built :
        build_reconciled codec (expected_events (appended s row) sources) now
        ≡ some (sort_events (expected_events (appended s row) sources), r)
    pub detail : entry.detail ≡ codec.marshal_reconciled r
    pub pending :
        (k : String)
        → pending_events next k ≡ (if event.trade_id == k then [] else pending_events s k)

  module _ (v : IsValid sources s) (h : IsSubmitted) (new : is_duplicate s row ≡ false)
      (complete : has_every_source (appended s row) sources ≡ true) where
    abbrev selected : List PendingTrade
    selected = expected_events (appended s row) sources

    selected-named : AllNamed event.trade_id selected
    selected-named =
        let (open_trade, new_source) = not_duplicate s row new in
        expected_events-AllNamed event.trade_id (appended s row) sources
          (appended-IsPart v row open_trade new_source h.known).named

    selected-ne-nil : selected ≢ []
    unfolding contains
    selected-ne-nil e = ground (
      arith,
      ap (λ l. contains (sources_of l) event.source) e,
      expected_events-sources (appended s row) sources complete event.source,
      h.known,
    )

    -- In a valid store, an event that names its trade, has an expected source and encodes, is no
    -- duplicate and completes its trade, is answered with "reconciled" and a reconciled event of
    -- that trade with exactly the expected sources. The trade then has no pending events and one
    -- more audit entry, with outcome "reconciled"; other trades' events are as before.
    pub ingest-answers_reconciled :
        (r : ReconciledEvent) × (next : Memory) × (ingest codec memory_store
            (new_engine sources window)
            s
            event
            now
          ≡ (ok (record { status = "reconciled"; reconciled = some r }), next))
        × IsReconciled r next
    unfolding pending_events
    ingest-answers_reconciled =
        let build = audit_reconciled codec event now in
        let (r, built, sums) =
          build_reconciled-Sums codec selected now event.trade_id selected-ne-nil selected-named in
        let set = Dict.set s.events event.trade_id (appended s row) in
        let ran =
          ingest_complete s row sources build none new complete
          ∙ finish-some (record s { events = set }) event.trade_id selected build none
              (audit_reconciled-some codec event now none selected built) in
        (
          r,
          record {
            events = Dict.delete set event.trade_id;
            audit = s.audit ++ reconciled_entry codec event now r ∷ [];
          },
          ingest-answer _ h ran,
          record {
            trade = sums.trade;
            sources_exact =
                λ a. sums.sources a ∙ expected_events-sources (appended s row) sources complete a;
            entry = reconciled_entry codec event now r;
            logged = refl;
            about = refl;
            outcome = refl;
            listed = refl;
            built = built;
            detail = refl;
            pending = λ k. ground (
              arith,
              Dict.get-delete set event.trade_id k,
              Dict.get-set s.events event.trade_id k (appended s row),
            );
          },
        )
