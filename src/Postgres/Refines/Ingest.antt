-- ===== src/Postgres/Refines/Ingest.antt =====
-- The tables that `Ingest` of postgres.go leaves against the ledger, with a server that
-- keeps what it stores.
use event_correlator_tool.Common.{
  Every-keep, Every-snoc, ℕ, String, true, false, not, ◌||◌, List, [], ◌∷◌, ◌++◌, keep, ◌≡◌, sym,
  ◌∙◌, ap, arith, ◌==◌, contains,
}
use event_correlator_tool.Common.Int.{leb_ℤ}
use event_correlator_tool.Clock.{Time}
use event_correlator_tool.Model.{AuditEntry}
use event_correlator_tool.Store.{PendingTrade}
use event_correlator_tool.Memory.{is_due, is_finalized, lower_deadline}
use event_correlator_tool.Memory.Invariant.{is_finalized-snoc}
use event_correlator_tool.Ledger.{Ledger, Report, note, close, is_known, is_complete}
use event_correlator_tool.Ledger.Rows.{ledger_of, report_of, AreKept, is_due-snoc, lower-is_due}
use event_correlator_tool.Ledger.Steps.{ledger_of-note, ledger_of-close, all_of-eq-has_every_source}
use event_correlator_tool.Postgres.{Tables, Server}
use event_correlator_tool.Postgres.Queries.{rows_of}
use event_correlator_tool.Postgres.Ingest.{conflicts, lowered, has_every_source}
use event_correlator_tool.Postgres.Rows.Keys.{AreKeyed-keep, AreKeyed-snoc, conflicts-stored}
use event_correlator_tool.Postgres.Quiet.Ingest.{existing, extended, events, conflicts-lowered}
use event_correlator_tool.Postgres.Refines.{
  Stores, view_of, IsTidy, conflicts-eq, rows_of-snoc, rows_of-delete, by_source-sources,
  by_source-is_due,
}
use event_correlator_tool.Common.Sorting.Unique.{Every-perm}
use mathlib.Core.List.Permᴰ

view_of-eq :
    (t : Tables) {rows : List PendingTrade} {audit : List AuditEntry}
    → t.pending ≡ rows
    → t.audit ≡ audit
    → view_of t ≡ view_of (record { pending = rows; audit = audit })
view_of-eq t p q = λ i. ledger_of (λ id. rows_of id (p i)) (q i)

module _ (server : Server) (kept : Time → Time) (stores : Stores server kept) where
  pub IsTidy-delete :
      {expected : List String} (t : Tables) (u : Tables) (id : String)
      → u.pending ≡ keep (λ row. not (row.trade_id == id)) t.pending
      → IsTidy kept expected t
      → IsTidy kept expected u
  IsTidy-delete t u id e h = record {
    keyed = rw e (AreKeyed-keep _ t.pending h.keyed);
    known = rw e (Every-keep _ _ t.pending h.known);
    rounded = rw e (Every-keep _ _ t.pending h.rounded);
  }

  -- Without its rows and with an entry, a trade is closed.
  pub view_of-close :
      (t u : Tables) (id : String) (n : ℕ) (entry : AuditEntry)
      → u.pending ≡ keep (λ row. not (row.trade_id == id)) t.pending
      → u.audit ≡ t.audit ++ server.recorded n entry ∷ []
      → entry.trade_id ≡ id
      → view_of u ≡ close (view_of t) id
  view_of-close t u id n entry p q about =
      view_of-eq u p q
      ∙ ledger_of-close (λ k. rows_of k t.pending) _ t.audit id _
          (λ k. rows_of-delete k id t.pending)
          (λ k. ground (
            arith,
            is_finalized-snoc t.audit (server.recorded n entry) k,
            stores.logs n entry,
            about,
          ))

  module _ (expected : List String) (trade : PendingTrade) (t : Tables)
      (tidy : IsTidy kept expected t) (known : contains expected trade.source ≡ true) where
    abbrev pub report : Report
    report = report_of kept trade

    abbrev row : PendingTrade
    row = server.stored (lowered trade (existing server trade t))

    abbrev pub grown : Tables
    grown = record t { pending = extended server trade t }

    row-trade_id : row.trade_id ≡ trade.trade_id
    row-trade_id = (stores.keys (lowered trade (existing server trade t))).0

    row-source : row.source ≡ trade.source
    row-source = (stores.keys (lowered trade (existing server trade t))).1

    pub known-eq :
        is_known (view_of t) report
        ≡ (is_finalized t.audit trade.trade_id || conflicts trade t.pending)
    known-eq =
        ap (λ b. is_finalized t.audit trade.trade_id || b) (sym (conflicts-eq trade t.pending))

    pub IsTidy-grown : conflicts trade t.pending ≡ false → IsTidy kept expected grown
    IsTidy-grown fresh = record {
      keyed = AreKeyed-snoc row t.pending tidy.keyed (
          conflicts-stored server stores.keys (lowered trade (existing server trade t)) t.pending
          ∙ conflicts-lowered trade (existing server trade t) t.pending
          ∙ fresh);
      known = Every-snoc _ t.pending row tidy.known (ap (contains expected) row-source ∙ known);
      rounded = Every-snoc _ t.pending row tidy.rounded (
          ap kept (stores.deadlines (lowered trade (existing server trade t)))
          ∙ stores.rounds.twice _
          ∙ sym (stores.deadlines (lowered trade (existing server trade t))));
    }

    existing-kept : AreKept kept (existing server trade t)
    existing-kept =
        Every-perm _ (Permᴰ.symm (stores.rows_permuted (rows_of trade.trade_id t.pending)))
          (Every-keep _ _ t.pending tidy.rounded)

    due-grown :
        (now : Time)
        → is_due now (rows_of trade.trade_id t.pending ++ row ∷ [])
          ≡ (leb_ℤ (kept trade.deadline) now || is_due now (rows_of trade.trade_id t.pending))
    due-grown now =
        is_due-snoc now (rows_of trade.trade_id t.pending) row
        ∙ ap (λ d. leb_ℤ d now || is_due now (rows_of trade.trade_id t.pending))
            (stores.deadlines (lowered trade (existing server trade t)))
        ∙ ap (λ b. leb_ℤ (kept (lower_deadline (existing server trade t) trade.deadline)) now || b)
            (sym (by_source-is_due server kept stores (rows_of trade.trade_id t.pending) now))
        ∙ lower-is_due kept stores.rounds now (existing server trade t) trade.deadline existing-kept
        ∙ ap (λ b. leb_ℤ (kept trade.deadline) now || b)
            (by_source-is_due server kept stores (rows_of trade.trade_id t.pending) now)

    pub view_of-grown : view_of grown ≡ note (view_of t) report
    view_of-grown =
        ledger_of-note (λ k. rows_of k t.pending) (λ k. rows_of k grown.pending) t.audit
          trade.trade_id row (kept trade.deadline)
          (λ k. rows_of-snoc k t.pending row trade.trade_id row-trade_id ∙ ground arith) due-grown
        ∙ ap
            (λ a.
              note (view_of t)
                (record { trade_id = trade.trade_id; source = a; deadline = kept trade.deadline }))
            row-source

    pub complete-eq :
        is_complete expected (note (view_of t) report) trade.trade_id
        ≡ has_every_source (events server trade t) expected
    complete-eq = all_of-eq-has_every_source _ (events server trade t) expected (λ a.
        sym (ap (λ (l : Ledger). l.reported trade.trade_id a) view_of-grown)
        ∙ sym (by_source-sources server kept stores (rows_of trade.trade_id grown.pending) a))
