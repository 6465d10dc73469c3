-- ===== src/Postgres/Ingest.antt =====
-- `Ingest` of postgres.go. Where it fails, the engine does not look at its first result.
use event_correlator_tool.Common.{
  ℕ, String, Bool, true, false, not, ◌&&◌, ◌||◌, none, some, List, [], ◌∷◌, ◌++◌, if◌then◌else◌,
  ◌==◌, ok, panic,
}
use event_correlator_tool.Model.{AuditEntry}
use event_correlator_tool.Store.{PendingTrade, IngestResult, no_result, BuildAudit}
use event_correlator_tool.Memory.{is_finalized, lower_deadline}
use event_correlator_tool.Memory
use event_correlator_tool.Postgres.{Tables, Server, Action}
use event_correlator_tool.Postgres.Session.{◌>>=◌, query, execute, begin, commit, deferred_rollback}
use event_correlator_tool.Postgres.Queries.{get_events, record_audit, delete_rows}

-- The loops of postgres.go are copies of those of memory.go.
abbrev pub has_every_source : List PendingTrade → List String → Bool
has_every_source = Memory.has_every_source

abbrev pub expected_events : List PendingTrade → List String → List PendingTrade
expected_events = Memory.expected_events

-- The row that is inserted: its deadline is lowered to those of the existing events.
abbrev pub lowered : PendingTrade → List PendingTrade → PendingTrade
lowered trade existing = record trade { deadline = lower_deadline existing trade.deadline }

-- Whether `pending_events` has a row with the primary key of `trade`
unfoldable pub conflicts : PendingTrade → List PendingTrade → Bool
conflicts trade [] = false
conflicts trade (row ∷ rows) =
    (row.trade_id == trade.trade_id && row.source == trade.source) || conflicts trade rows

-- The call of a closure
unfoldable pub call_build :
    {C : Type 0} → BuildAudit C → List PendingTrade → Action C (List PendingTrade × AuditEntry)
call_build build events s = elim (build s.captured events) [
  | none ↦ (panic, s)
  | some b ↦ (ok (b.events, b.entry), record s { captured = b.captured })
]

-- `INSERT INTO pending_events … ON CONFLICT (trade_id, source) DO NOTHING`
abbrev pub insert_row : Server → PendingTrade → ℕ → Tables → Tables
insert_row server trade n t =
    if conflicts trade t.pending
    then t
    else record t { pending = t.pending ++ server.stored trade ∷ [] }

module _ (server : Server) {C : Type 0} where
  -- The statement: whether it inserted a row
  unfoldable pub insert_pending : PendingTrade → Action C Bool
  insert_pending trade s =
      let fresh = not (conflicts trade s.work.pending) in
      (execute server "record event: " (insert_row server trade)
          >>= (λ _. query server "read insert result: " (λ n t. fresh)))
        s

  -- `Ingest` from the point where every expected source has reported
  unfoldable pub reconcile : PendingTrade → List PendingTrade → BuildAudit C → Action C IngestResult
  reconcile trade selected build = do
    _ ← execute server "delete reconciled trade: " (delete_rows trade.trade_id)
    built ← call_build build selected
    _ ← record_audit server built.1
    commit server "commit reconciliation: " (record { inserted = true; events = built.0 })

  -- `Ingest` after its row is inserted
  unfoldable pub inserted : PendingTrade → List String → BuildAudit C → Action C IngestResult
  inserted trade expected build = do
    events ← get_events server trade.trade_id
    if has_every_source events expected
        then reconcile trade (expected_events events expected) build
        else commit server "commit pending event: " (record { inserted = true; events = [] })

  -- `Ingest` of a trade that is not finalized
  unfoldable pub ingest_open : PendingTrade → List String → BuildAudit C → Action C IngestResult
  ingest_open trade expected build = do
    existing ← get_events server trade.trade_id
    fresh ← insert_pending (lowered trade existing)
    if fresh then inserted trade expected build else commit server "commit duplicate: " no_result

  unfoldable pub ingest : PendingTrade → List String → BuildAudit C → Action C IngestResult
  ingest trade expected build = deferred_rollback (do
    _ ← begin server "begin transaction: "
    _ ← query server "lock trade: " (λ n t. tt)
    finalized ← query server "check finalized trade: " (λ n t. is_finalized t.audit trade.trade_id)
    if finalized
        then commit server "commit finalized check: " no_result
        else ingest_open trade expected build)
