-- ===== src/Postgres/Rows/Methods.antt =====
-- `Ingest` and `SweepExpired` of postgres.go, and properties of the tables that their three
-- statements keep.
use event_correlator_tool.Common.{ℕ, String, none, List, [], ◌∷◌}
use event_correlator_tool.Common.Dict.{Dict}
use event_correlator_tool.Clock.{Time}
use event_correlator_tool.Model.{AuditEntry}
use event_correlator_tool.Store.{PendingTrade, BuildAudit, BuildBreak}
use event_correlator_tool.Postgres.{Tables, Server, Connection}
use event_correlator_tool.Postgres.Session.{◌>>=◌, execute, commit}
use event_correlator_tool.Postgres.Queries.{record_audit, delete_rows, insert_entry}
use event_correlator_tool.Postgres.Ingest.{
  call_build, insert_row, insert_pending, reconcile, inserted, ingest_open, ingest,
}
use event_correlator_tool.Postgres.Sweep.{
  claim, claim_locked, claim_expired, claim_all, sweep_expired,
}
use event_correlator_tool.Postgres.Rows.{
  Holds, Saves, Saves-then, pure-Saves, if-Saves, check-Saves, deferred_rollback-Saves,
  call_build-Saves, query-Saves, read-Saves, execute-Saves, begin-Saves, commit-Saves, scan-Saves,
  get_events-Saves,
}

-- The three statements that change a table keep the property.
pub record Kept (server : Server) (P : Tables → Type 0) : Type 0 where
  pub on_delete : (id : String) (n : ℕ) (t : Tables) → P t → P (delete_rows id n t)
  pub on_entry : (entry : AuditEntry) (n : ℕ) (t : Tables) → P t → P (insert_entry server entry n t)
  pub on_row : (trade : PendingTrade) (n : ℕ) (t : Tables) → P t → P (insert_row server trade n t)

module _ {P : Tables → Type 0} {C : Type 0} (server : Server) (kept : Kept server P) where
  record_audit-Saves : (entry : AuditEntry) → Saves P (record_audit server {C = C} entry)
  unfolding record_audit
  record_audit-Saves entry =
      Saves-then (check-Saves _ _ _) (λ _. execute-Saves server _ _ (kept.on_entry entry))

  insert_pending-Saves : (trade : PendingTrade) → Saves P (insert_pending server {C = C} trade)
  unfolding insert_pending
  insert_pending-Saves trade = record {
    holds = λ s.
        (Saves-then (execute-Saves server "record event: " _ (kept.on_row trade))
            (λ _. query-Saves server "read insert result: " _)).holds
          s;
  }

  finish-Saves :
      {A : Type 0} (label done : String) (id : String) (events : List PendingTrade)
      (build : BuildAudit C) (f : List PendingTrade × AuditEntry → A)
      → Saves P (
          execute server label (delete_rows id) >>= (λ _.
            call_build build events
            >>= (λ built. record_audit server built.1 >>= (λ _. commit server done (f built)))))
  finish-Saves label done id events build f =
      Saves-then (execute-Saves server _ _ (kept.on_delete id)) (λ _.
        Saves-then (call_build-Saves build events)
          (λ built. Saves-then (record_audit-Saves _) (λ _. commit-Saves server _ _)))

  ingest_open-Saves :
      (trade : PendingTrade) (expected : List String) (build : BuildAudit C)
      → Saves P (ingest_open server trade expected build)
  unfolding ingest_open inserted reconcile
  ingest_open-Saves trade expected build = Saves-then (get_events-Saves server _) (λ existing.
      Saves-then (insert_pending-Saves _) (λ fresh.
        if-Saves fresh
          (Saves-then (get_events-Saves server _)
            (λ events. if-Saves _ (finish-Saves _ _ _ _ build _) (commit-Saves server _ _)))
          (commit-Saves server _ _)))

  pub ingest-Saves :
      (trade : PendingTrade) (expected : List String) (build : BuildAudit C) (s : Connection C)
      → Holds P s
      → Holds P (ingest server trade expected build s).1
  unfolding ingest
  ingest-Saves trade expected build =
      (deferred_rollback-Saves (
        Saves-then (begin-Saves server _) (λ _. Saves-then (query-Saves server _ _) (λ _.
          Saves-then (query-Saves server _ _) (λ finalized.
            if-Saves finalized (commit-Saves server _ _)
              (ingest_open-Saves trade expected build)))))).holds

  module _ (now : Time) (build : BuildBreak C) where
    pub claim_expired-Saves : (id : String) → Saves P (claim_expired server now build id)
    unfolding claim_expired claim_locked claim
    claim_expired-Saves id = deferred_rollback-Saves (
        Saves-then (begin-Saves server _) (λ _. Saves-then (query-Saves server _ _) (λ locked.
          if-Saves locked
            (Saves-then (get_events-Saves server _)
              (λ events. if-Saves _ (commit-Saves server _ _) (finish-Saves _ _ _ _ (build id) _)))
            (pure-Saves none))))

    claim_all-Saves :
        (ids : List String) (expired : Dict (List PendingTrade))
        → Saves P (claim_all server now build ids expired)
    unfolding claim_all
    claim_all-Saves [] expired = pure-Saves expired
    claim_all-Saves (id ∷ ids) expired =
        Saves-then (claim_expired-Saves id) (λ claimed. claim_all-Saves ids _)

    pub sweep_expired-Saves :
        (s : Connection C) → Holds P s → Holds P (sweep_expired server now build s).1
    unfolding sweep_expired
    sweep_expired-Saves =
        (Saves-then (read-Saves server _ _) (λ rows. Saves-then (scan-Saves server _ rows) (λ ids.
          Saves-then (query-Saves server _ _)
            (λ _. Saves-then (query-Saves server _ _) (λ _. claim_all-Saves ids []))))).holds
