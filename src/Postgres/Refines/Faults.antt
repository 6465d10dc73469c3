-- ===== src/Postgres/Refines/Faults.antt =====
-- The tables that `Ingest` of postgres.go leaves where any request may fail, against the ledger.
pub mod Requests
use event_correlator_tool.Common.{
  ℕ, String, Bool, true, false, not, List, [], ◌∷◌, ◌++◌, ◌≡◌, sym, ◌∙◌, ap, subst, ◌⊎◌, inl, inr,
  arith, if◌then◌else◌, contains, Result, ok, ◌||◌,
}
use event_correlator_tool.Clock.{Time}
use event_correlator_tool.Model.{AuditEntry}
use event_correlator_tool.Store.{PendingTrade, IngestResult, no_result, BuildAudit}
use event_correlator_tool.Memory.{is_finalized}
use event_correlator_tool.Memory.Invariant.{IsAbout}
use event_correlator_tool.Ledger
use event_correlator_tool.Ledger.{
  Ledger, Report, Answer, pending, reconciled, note, close, is_known,
}
use event_correlator_tool.Contract.{is_new}
use event_correlator_tool.Ledger.Rows.{report_of}
use event_correlator_tool.Ledger.Steps.{close-note}
use event_correlator_tool.Postgres.{Tables, Server, Connection}
use event_correlator_tool.Postgres.Session.{◌>>=◌, query, begin, commit, deferred_rollback}
use event_correlator_tool.Postgres.Queries.{record_audit, delete_rows, insert_entry}
use event_correlator_tool.Postgres.Ingest.{
  conflicts, lowered, insert_row, insert_pending, reconcile, inserted, ingest_open, ingest,
  has_every_source,
}
use event_correlator_tool.Postgres.Quiet.Ingest.{
  existing, events, conflicts-lowered, insert_row-fresh, insert_row-duplicate,
}
use event_correlator_tool.Postgres.Refines.{Stores, view_of, IsTidy}
use event_correlator_tool.Postgres.Refines.Ingest.{
  IsTidy-delete, view_of-close, grown, known-eq, IsTidy-grown, view_of-grown, complete-eq,
}
use event_correlator_tool.Postgres.Once.{
  Runs-then, check-Runs, call_build-Runs, query-Runs, execute-Runs,
}
use event_correlator_tool.Postgres.Once.Reads.{get_events-Reads, insert_pending-Inserts}
use event_correlator_tool.Postgres.Once.Finishes.{
  Done-committed, Done-returned, Finishes, Finishes-then, Finishes-from, Finishes-given,
  if-Finishes, commit-Finishes, transaction-Finishes,
}

-- Tidy tables whose ledger is one of two
pub record IsEither (kept : Time → Time) (expected : List String) (l l' : Ledger) (t : Tables)
    : Type 0 where
  pub tidy : IsTidy kept expected t
  pub moved : (view_of t ≡ l) ⊎ (view_of t ≡ l')

-- Tidy tables that have taken a step of the ledger, which a result tells
pub record IsTaken (kept : Time → Time) (expected : List String) (step : Answer × Ledger)
    (result : IngestResult) (t : Tables) : Type 0 where
  pub tidy : IsTidy kept expected t
  pub moved : view_of t ≡ step.1
  pub inserted : result.inserted ≡ is_new step.0

-- A call has taken a step of the ledger, or nothing; and if it returned, it has taken the step and its
-- result tells the ledger's answer.
pub record IsAtomic {C : Type 0} (kept : Time → Time) (expected : List String) (l : Ledger)
    (step : Answer × Ledger) (call : Result IngestResult × Connection C) : Type 0 where
  pub either : IsEither kept expected l step.1 call.1.committed
  pub answered :
      (result : IngestResult)
      → call.0 ≡ ok result
      → IsTaken kept expected step result call.1.committed

module _ (server : Server) (kept : Time → Time) (stores : Stores server kept)
    (expected : List String) (trade : PendingTrade) (t : Tables) (tidy : IsTidy kept expected t)
    (known : contains expected trade.source ≡ true) where
  abbrev asked : Report
  asked = report_of kept trade

  abbrev pub step : Answer × Ledger
  step = Ledger.ingest expected (view_of t) asked

  abbrev pub Either : Tables → Type 0
  Either = IsEither kept expected (view_of t) step.1

  abbrev pub Same : Tables → Type 0
  Same u = u ≡ t

  abbrev pub Taken : IngestResult → Tables → Type 0
  Taken = IsTaken kept expected step

  pub either_of : (result : IngestResult) (u : Tables) → Taken result u → Either u
  either_of result u h = record { tidy = h.tidy; moved = inr h.moved }

  abbrev pub extended_by : Tables
  extended_by = grown server kept stores expected trade t tidy known

  abbrev pub id : String
  id = trade.trade_id

  pub unchanged : (u : Tables) → u ≡ t → Either u
  unchanged u e = record {
    tidy = subst (IsTidy kept expected) (sym e) tidy;
    moved = inl (ap view_of e);
  }

  -- The trade or its source is known.
  pub refused : is_known (view_of t) asked ≡ true → (u : Tables) → u ≡ t → Taken no_result u
  refused h u e = record {
    tidy = subst (IsTidy kept expected) (sym e) tidy;
    moved = ap view_of e ∙ sym (ap (λ x. x.1) (Ledger.ingest_known expected (view_of t) asked h));
    inserted = sym (ap (λ x. is_new x.0) (Ledger.ingest_known expected (view_of t) asked h));
  }

  module _ {C : Type 0} (build : BuildAudit C) (about : IsAbout id build)
      (open_trade : is_finalized t.audit id ≡ false) where
    module _ (fresh : conflicts trade t.pending ≡ false) where
      fresh_report : is_known (view_of t) asked ≡ false
      fresh_report =
          known-eq server kept stores expected trade t tidy known
          ∙ ground (arith, open_trade, fresh)

      grown-IsTidy : IsTidy kept expected extended_by
      grown-IsTidy = IsTidy-grown server kept stores expected trade t tidy known fresh

      grown_view : view_of extended_by ≡ note (view_of t) asked
      grown_view = view_of-grown server kept stores expected trade t tidy known

      step_waiting :
          has_every_source (events server trade t) expected ≡ false
          → step ≡ (pending, note (view_of t) asked)
      step_waiting h =
          Ledger.ingest_waiting expected (view_of t) asked fresh_report
            (complete-eq server kept stores expected trade t tidy known ∙ h)

      step_completing :
          has_every_source (events server trade t) expected ≡ true
          → step ≡ (reconciled, close (view_of t) id)
      step_completing h =
          Ledger.ingest_completing expected (view_of t) asked fresh_report
            (complete-eq server kept stores expected trade t tidy known ∙ h)

      pub waits-Taken :
          has_every_source (events server trade t) expected ≡ false
          → (u : Tables) → u ≡ extended_by
          → Taken (record { inserted = true; events = [] }) u
      waits-Taken h u e = record {
        tidy = subst (IsTidy kept expected) (sym e) grown-IsTidy;
        moved = ap view_of e ∙ grown_view ∙ sym (ap (λ x. x.1) (step_waiting h));
        inserted = sym (ap (λ x. is_new x.0) (step_waiting h));
      }

      pub completes-Taken :
          has_every_source (events server trade t) expected ≡ true
          → (entry : AuditEntry) (n : ℕ) (u : Tables) (handed : List PendingTrade)
          → entry.trade_id ≡ id
          → u ≡ delete_rows id 0 extended_by
          → Taken (record { inserted = true; events = handed }) (insert_entry server entry n u)
      completes-Taken h entry n u handed same e = record {
        tidy =
            IsTidy-delete server kept stores extended_by (insert_entry server entry n u) id
              (ap (λ (x : Tables). x.pending) e) grown-IsTidy;
        moved =
            view_of-close server kept stores extended_by (insert_entry server entry n u) id n entry
              (ap (λ (x : Tables). x.pending) e)
              (ap (λ (x : Tables). x.audit ++ server.recorded n entry ∷ []) e) same
            ∙ ap (λ l. close l id) grown_view
            ∙ close-note (view_of t) asked
            ∙ sym (ap (λ x. x.1) (step_completing h));
        inserted = sym (ap (λ x. is_new x.0) (step_completing h));
      }
