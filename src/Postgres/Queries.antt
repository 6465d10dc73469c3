-- ===== src/Postgres/Queries.antt =====
-- `getEvents`, `recordAudit` and `GetAudit` of postgres.go.
use event_correlator_tool.Common.{
  ℕ, String, Bool, not, ◌&&◌, ◌||◌, List, [], ◌∷◌, ◌++◌, if◌then◌else◌, ◌==◌, keep, take,
}
use event_correlator_tool.Common.Int.{ℤ, pos, leb_ℤ, ltb_ℤ, pos_part}
use event_correlator_tool.Model.{AuditEntry}
use event_correlator_tool.Store.{PendingTrade, AuditFilter}
use event_correlator_tool.Postgres.{Tables, Server, Action}
use event_correlator_tool.Postgres.Session.{pure, check, ◌>>=◌, query, read, execute, scan}

-- The rows of the query of `getEvents`, before they are ordered
abbrev pub rows_of : String → List PendingTrade → List PendingTrade
rows_of trade_id = keep (λ row. row.trade_id == trade_id)

-- `DELETE FROM pending_events WHERE trade_id = $1`
abbrev pub delete_rows : String → ℕ → Tables → Tables
delete_rows trade_id n t = record t {
  pending = keep (λ row. not (row.trade_id == trade_id)) t.pending;
}

-- The limit that `GetAudit` gives to its query
unfoldable pub limit_of : ℤ → ℤ
limit_of limit =
    let limit = if leb_ℤ limit (pos 0) then pos 100 else limit in
    if ltb_ℤ (pos 500) limit then pos 500 else limit

-- The `WHERE` of `GetAudit`
abbrev pub matches : AuditFilter → AuditEntry → Bool
matches f entry =
    (f.trade_id == "" || entry.trade_id == f.trade_id)
    && (f.outcome == "" || entry.outcome == f.outcome)

-- `INSERT INTO audit_log …`
abbrev pub insert_entry : Server → AuditEntry → ℕ → Tables → Tables
insert_entry server entry n t = record t { audit = t.audit ++ server.recorded n entry ∷ [] }

module _ (server : Server) {C : Type 0} where
  unfoldable pub get_events : String → Action C (List PendingTrade)
  get_events trade_id = do
    rows ← query server "get events: " (λ n t. server.by_source (rows_of trade_id t.pending))
    events ← scan server "scan event: " rows
    query server "iterate events: " (λ n t. events)

  unfoldable pub record_audit : AuditEntry → Action C Unit
  record_audit entry = do
    _ ← check "marshal audit sources: " (server.marshal_error entry.sources) tt
    execute server "record audit: " (insert_entry server entry)

  -- The loop of `GetAudit`
  unfoldable pub read_entries : List AuditEntry → Action C (List AuditEntry)
  read_entries [] = pure []
  read_entries (entry ∷ entries) = do
    a ← query server "scan audit history: " (λ n t. entry)
    _ ← check "decode audit sources: " (server.unmarshal_error a.sources) tt
    rest ← read_entries entries
    pure (a ∷ rest)

  unfoldable pub get_audit : AuditFilter → Action C (List AuditEntry)
  get_audit f = do
    rows ←
        read server "query audit history: " (λ n t.
          take (pos_part (limit_of f.limit)) (server.newest_first (keep (matches f) t.audit)))
    entries ← read_entries rows
    query server "iterate audit history: " (λ n t. entries)
