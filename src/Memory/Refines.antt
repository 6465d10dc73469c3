-- ===== src/Memory/Refines.antt =====
-- The in-memory store (memory.go) against the ledger: `Ingest`.
pub mod Audit
pub mod Sweep
use event_correlator_tool.Common.{
  String, Bool, true, false, not, ◌&&◌, ◌||◌, Option, none, some, List, [], ◌∷◌, ◌++◌, ◌≡◌, ◌≢◌,
  refl, sym, ◌∙◌, ap, subst, subst₂, arith, ◌==◌, if◌then◌else◌, contains, Bool-cases, Option-cases,
  inl, inr, ok,
}
use event_correlator_tool.Common.Int.{leb_ℤ}
use event_correlator_tool.Common.Dict
use event_correlator_tool.Common.Dict.{Dict}
use event_correlator_tool.Clock.{Time}
use event_correlator_tool.Model.{AuditEntry}
use event_correlator_tool.Store.{
  PendingTrade, sources_of, IngestResult, no_result, BuildAudit, Built, Call,
}
use event_correlator_tool.Memory.{
  Memory, pending_events, has_every_source, expected_events, is_due, is_finalized, has_source,
  is_duplicate, lower_deadline, appended, ingest,
}
use event_correlator_tool.Memory.Selection.{has_source-contains, expected_events-keep}
use event_correlator_tool.Memory.Invariant.{IsValid, IsPart, IsAbout, is_finalized-snoc}
use event_correlator_tool.Memory.Invariant.Ingest.{not_duplicate, appended-IsPart, ingest-IsValid}
use event_correlator_tool.Memory.Outcomes.{
  ingest_duplicate, ingest_waiting, ingest_complete, finish-some, expected_events-sources,
  expected_events-IsPart, expected_events-ne-nil,
}
use event_correlator_tool.Ledger
use event_correlator_tool.Ledger.{
  Ledger, Report, Answer, duplicate, pending, reconciled, note, close, is_known, is_complete,
}
use event_correlator_tool.Ledger.Rows.{
  ledger_of, report_of, IsRounding, lower-is_due, is_due-snoc, AreKept,
}
use event_correlator_tool.Ledger.Steps.{ledger_of-note, ledger_of-close, all_of-eq-has_every_source}
use event_correlator_tool.Contract.{Serves, Handed, Captures, is_new, Ingested}

-- The ledger of a memory store
abbrev pub view : Memory → Ledger
view s = ledger_of (pending_events s) s.audit

abbrev pub exact : Time → Time
exact t = t

pub exact-IsRounding : IsRounding exact
exact-IsRounding = record { monotone = λ a b h. h; twice = λ a. refl }

all_kept : (rows : List PendingTrade) → AreKept exact rows
all_kept [] = tt
all_kept (row ∷ rows) = (refl, all_kept rows)

module _ (s : Memory) (trade : PendingTrade) where
  abbrev report : Report
  report = report_of exact trade

  known-eq : is_known (view s) report ≡ is_duplicate s trade
  unfolding is_duplicate
  known-eq = rw has_source-contains refl

  abbrev stored : Memory
  stored = record s { events = Dict.set s.events trade.trade_id (appended s trade) }

  pending-stored :
      (k : String)
      → pending_events stored k
        ≡ (if k == trade.trade_id then appended s trade else pending_events s k)
  unfolding pending_events
  pending-stored k = ground (arith, Dict.get-set s.events trade.trade_id k (appended s trade))

  view-stored : view stored ≡ note (view s) report
  unfolding appended
  view-stored =
      ledger_of-note (pending_events s) (pending_events stored) s.audit trade.trade_id
        (record trade {
          deadline = lower_deadline (pending_events s trade.trade_id) trade.deadline;
        })
        trade.deadline pending-stored
        (λ now.
          is_due-snoc now (pending_events s trade.trade_id) _
          ∙ lower-is_due exact exact-IsRounding now (pending_events s trade.trade_id) trade.deadline
              (all_kept (pending_events s trade.trade_id)))

  complete-eq :
      (expected : List String)
      → is_complete expected (note (view s) report) trade.trade_id
        ≡ has_every_source (appended s trade) expected
  complete-eq expected = all_of-eq-has_every_source _ (appended s trade) expected (λ a.
      sym (ap (λ (l : Ledger). l.reported trade.trade_id a) view-stored)
      ∙ ap (λ l. contains (sources_of l) a) (pending-stored trade.trade_id ∙ ground arith))

  module _ (expected : List String) {C : Type 0} (build : BuildAudit C) (c : C) where
    abbrev selected : List PendingTrade
    selected = expected_events (appended s trade) expected

    -- The state that a completed trade leaves
    abbrev closed_with : Built C → Memory
    closed_with b = record {
      events = Dict.delete stored.events trade.trade_id;
      audit = s.audit ++ b.entry ∷ [];
    }

    view-closed :
        (b : Built C)
        → b.entry.trade_id ≡ trade.trade_id
        → view (closed_with b) ≡ close (view s) trade.trade_id
    view-closed b about =
        ledger_of-close (pending_events s) (pending_events (closed_with b)) s.audit trade.trade_id
          (s.audit ++ b.entry ∷ [])
          (λ k.
            unfold pending_events in
            ground (
              arith,
              Dict.get-delete stored.events trade.trade_id k,
              Dict.get-set s.events trade.trade_id k (appended s trade),
            ))
          (λ k. ground (arith, is_finalized-snoc s.audit b.entry k, about))

    abbrev call : Call Memory C IngestResult
    call = ingest s trade expected build c

    abbrev HasIngested : Answer × Ledger → Call Memory C IngestResult → Type 0
    HasIngested step call =
        Ingested (IsValid expected) view expected step trade.trade_id build c call

    module _ (v : IsValid expected s) (known : contains expected trade.source ≡ true)
        (serves : Serves expected trade.trade_id build) where
      valid : (x : Call Memory C IngestResult) → call ≡ x → IsValid expected x.state
      valid x e =
          subst (λ (y : Call Memory C IngestResult). IsValid expected y.state) e
            (ingest-IsValid expected s trade build c v known serves.about)

      ingested_by :
          (step : Answer × Ledger) (x : Call Memory C IngestResult)
          → Ledger.ingest expected (view s) report ≡ step
          → call ≡ x
          → HasIngested step x
          → HasIngested (Ledger.ingest expected (view s) report) call
      ingested_by step x p q h = subst₂ HasIngested (sym p) (sym q) h

      module _ (fresh : is_duplicate s trade ≡ false) where
        fresh_report : is_known (view s) report ≡ false
        fresh_report = known-eq ∙ fresh

        waits :
            has_every_source (appended s trade) expected ≡ false
            → HasIngested (Ledger.ingest expected (view s) report) call
        waits h =
            let ran = ingest_waiting s trade expected build c fresh h in
            ingested_by (pending, note (view s) report) _
              (Ledger.ingest_waiting expected (view s) report fresh_report
                (complete-eq expected ∙ h))
              ran
              (record {
                result = record { inserted = true; events = [] };
                returned = refl;
                kept = valid _ ran;
                moved = view-stored;
                inserted = refl;
                captured = refl;
              })

        part : IsPart expected trade.trade_id (appended s trade)
        part =
            let (open_trade, new_source) = not_duplicate s trade fresh in
            appended-IsPart v trade open_trade new_source known

        completes :
            has_every_source (appended s trade) expected ≡ true
            → HasIngested (Ledger.ingest expected (view s) report) call
        completes h =
            let nonempty =
              expected_events-ne-nil trade.trade_id (appended s trade) expected h trade.source
                known in
            let selected_part =
              expected_events-IsPart trade.trade_id (appended s trade) expected h part in
            elim (Option-cases (build c selected)) [
              | inl e ↦ absurd (serves.returns c selected nonempty selected_part e)
              | inr (b, e) ↦
                  let ran =
                    ingest_complete s trade expected build c fresh h
                    ∙ finish-some stored trade.trade_id selected build c e in
                  ingested_by (reconciled, close (view s) trade.trade_id) _
                    (Ledger.ingest_completing expected (view s) report fresh_report
                      (complete-eq expected ∙ h))
                    ran
                    (record {
                      result = record { inserted = true; events = b.events };
                      returned = refl;
                      kept = valid _ ran;
                      moved = view-closed b (serves.about c selected b e);
                      inserted = refl;
                      captured = record {
                        events = selected;
                        nonempty = nonempty;
                        part = selected_part;
                        exact = expected_events-sources (appended s trade) expected h;
                        built = b;
                        ran = e;
                        after = refl;
                      };
                    })
            ]

      -- `Ingest` of the memory store takes the ledger's step, in a valid store and for an event from an
      -- expected source, if the closure is about the trade and returns for parts of it: it returns, and
      -- reports an insertion where the ledger does not answer that the event is a duplicate; the
      -- closure is called, once and with one event of each expected source, exactly where the ledger
      -- answers that the trade is reconciled; and the store stays valid.
      pub ingest-Ingested : HasIngested (Ledger.ingest expected (view s) report) call
      ingest-Ingested = elim (Bool-cases (is_duplicate s trade)) [
        | inl dup ↦
            let ran = ingest_duplicate s trade expected build c dup in
            ingested_by (duplicate, view s) _
              (Ledger.ingest_known expected (view s) report (known-eq ∙ dup)) ran
              (record {
                result = no_result;
                returned = refl;
                kept = v;
                moved = refl;
                inserted = refl;
                captured = refl;
              })
        | inr fresh ↦ elim (Bool-cases (has_every_source (appended s trade) expected)) [
          | inl h ↦ completes fresh h
          | inr h ↦ waits fresh h
        ]
      ]
