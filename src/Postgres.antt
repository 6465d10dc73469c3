-- ===== src/Postgres.antt =====
-- The store on PostgreSQL (go/toolsets/event-correlator/src/internal/store/postgres/postgres.go):
-- its tables, what the server and the driver decide, and sessions.
pub mod Session
pub mod Client
pub mod Refines
pub mod Calm
pub mod Once
pub mod Queries
pub mod Ingest
pub mod Sweep
pub mod Atomic
pub mod Rows
pub mod Quiet
pub mod Opening
pub mod History
use event_correlator_tool.Common.{ℕ, String, Bool, Option, List, Result}
use event_correlator_tool.Clock.{Time}
use event_correlator_tool.Model.{AuditEntry}
use event_correlator_tool.Store.{PendingTrade}

-- The rows of `pending_events` and of `audit_log`, in the order in which they were inserted.
pub record Tables : Type 0 where
  pub pending : List PendingTrade
  pub audit : List AuditEntry

-- What the server and the driver decide. The number counts the requests of a session: each begin,
-- statement, row that is read, close and commit is one.
pub record Server : Type 0 where
  -- the error that a request reports: a lost connection, a cancelled context, a violated constraint
  pub fault : ℕ → Option String
  -- whether a commit that reports an error was done all the same
  pub kept : ℕ → Bool
  -- whether `pg_try_advisory_xact_lock` gets the lock
  pub granted : ℕ → Bool
  -- `ORDER BY source` and `ORDER BY trade_id` under the collation of the database
  pub by_source : List PendingTrade → List PendingTrade
  pub by_trade : List String → List String
  -- `ORDER BY recorded_at DESC, id DESC`
  pub newest_first : List AuditEntry → List AuditEntry
  -- a row as it is read back: JSONB has a normal form, and a timestamp is in microseconds
  pub stored : PendingTrade → PendingTrade
  -- the same for an audit entry, which also gets its id and `recorded_at`
  pub recorded : ℕ → AuditEntry → AuditEntry
  -- the error of `json.Marshal` and of `json.Unmarshal` on the sources
  pub marshal_error : List String → Option String
  pub unmarshal_error : List String → Option String
  -- `strconv.Quote`, which `%q` prints
  pub quote : String → String

-- The requests so far, the committed tables, those that the transaction sees, and the variables
-- that the caller's closure captures.
pub record Connection (C : Type 0) : Type 0 where
  pub requests : ℕ
  pub committed : Tables
  pub work : Tables
  pub captured : C

abbrev pub Action : Type 0 → Type 0 → Type 0
Action C A = Connection C → Result A × Connection C
