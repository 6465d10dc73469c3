-- ===== src/Postgres/Rows/Audit.antt =====
-- The audit log under `Ingest` and `SweepExpired` of postgres.go.
use event_correlator_tool.Common.{ℕ, String, List, [], ◌∷◌, ◌++◌, ◌≡◌, arith, sym, ◌∙◌, ap}
use mathlib.Core.List.{append-nil, append_assoc}
use event_correlator_tool.Clock.{Time}
use event_correlator_tool.Model.{AuditEntry}
use event_correlator_tool.Store.{PendingTrade, BuildAudit, BuildBreak}
use event_correlator_tool.Postgres.{Tables, Server, Connection}
use event_correlator_tool.Postgres.Ingest.{insert_row, ingest}
use event_correlator_tool.Postgres.Sweep.{sweep_expired}
use event_correlator_tool.Postgres.Rows.{Holds}
use event_correlator_tool.Postgres.Rows.Methods.{Kept, ingest-Saves, sweep_expired-Saves}

-- The audit log starts with these entries.
abbrev pub StartsWith : List AuditEntry → Tables → Type 0
StartsWith old t = (new : List AuditEntry) × (t.audit ≡ old ++ new)

insert_row-audit :
    (server : Server) (trade : PendingTrade) (n : ℕ) (t : Tables)
    → (insert_row server trade n t).audit ≡ t.audit
insert_row-audit server trade n t = ground arith

StartsWith-Kept : (server : Server) (old : List AuditEntry) → Kept server (StartsWith old)
StartsWith-Kept server old = record {
  on_delete = λ id n t h. h;
  on_entry = λ entry n t (new, e). (
    new ++ server.recorded n entry ∷ [],
    ap (λ l. l ++ server.recorded n entry ∷ []) e
        ∙ append_assoc old new (server.recorded n entry ∷ []),
  );
  on_row = λ trade n t (new, e). (new, insert_row-audit server trade n t ∙ e);
}

module _ (server : Server) {C : Type 0} (s : Connection C) (rest : s.work ≡ s.committed) where
  start : Holds (StartsWith s.committed.audit) s
  start = record {
    committed = ([], sym (append-nil s.committed.audit));
    work = ([], ap (λ (t : Tables). t.audit) rest ∙ sym (append-nil s.committed.audit));
  }

  -- From a connection without a transaction, `Ingest` leaves every committed audit entry in place
  -- and at most adds entries at the end, also where it fails.
  pub ingest-StartsWith :
      (trade : PendingTrade) (expected : List String) (build : BuildAudit C)
      → StartsWith s.committed.audit (ingest server trade expected build s).1.committed
  ingest-StartsWith trade expected build =
      (ingest-Saves server (StartsWith-Kept server s.committed.audit) trade expected build s
        start).committed

  -- From a connection without a transaction, `SweepExpired` leaves every committed audit entry in
  -- place and at most adds entries at the end, also where it fails between two trades.
  pub sweep_expired-StartsWith :
      (now : Time) (build : BuildBreak C)
      → StartsWith s.committed.audit (sweep_expired server now build s).1.committed
  sweep_expired-StartsWith now build =
      (sweep_expired-Saves server (StartsWith-Kept server s.committed.audit) now build s
        start).committed
