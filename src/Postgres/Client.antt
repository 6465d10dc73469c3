-- ===== src/Postgres/Client.antt =====
-- postgres.Store of postgres.go as a `store.Store`.
use event_correlator_tool.Common.{ℕ, Result}
use event_correlator_tool.Store.{Call, Store}
use event_correlator_tool.Postgres.{Tables, Server, Connection}
use event_correlator_tool.Postgres.Ingest.{ingest}
use event_correlator_tool.Postgres.Sweep.{sweep_expired}
use event_correlator_tool.Postgres.Queries.{get_audit}

-- What is there between two calls: the requests so far, and the committed tables.
pub record Database : Type 0 where
  pub requests : ℕ
  pub committed : Tables

abbrev pub opened : {C : Type 0} → Database → C → Connection C
opened d c = record {
  requests = d.requests;
  committed = d.committed;
  work = d.committed;
  captured = c;
}

abbrev pub call_of : {C A : Type 0} → Result A × Connection C → Call Database C A
call_of (result, s) = record {
  result = result;
  state = record { requests = s.requests; committed = s.committed };
  captured = s.captured;
}

-- `postgres.New`, once the database is open. `GetAudit` only reads, so what it leaves is not kept.
abbrev pub postgres_store : Server → Store
postgres_store server = record {
  State = Database;
  ingest = λ s trade expected build c. call_of (ingest server trade expected build (opened s c));
  sweep_expired = λ s now build c. call_of (sweep_expired server now build (opened s c));
  get_audit = λ s f. (get_audit server f (opened s tt)).0;
}
