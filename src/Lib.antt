-- ===== src/Lib.antt =====
-- The event correlator: a tool server that collects the events of a trade from several source
-- systems, reports the trade as reconciled when every expected source has sent its event, and as a
-- break when the correlation window ends first.
--
-- The parts, with paths from go/toolsets/event-correlator/src of the repository:
-- - Model: the records of internal/model/event.go.
-- - Store: the records and the interface of internal/store/store.go. A closure that the engine
--   hands to a store is a function on the variables that it captures; it may reorder the slice that
--   it is handed and it may panic, so a call gives the result, the store's next state and the
--   captured variables.
-- - Memory (with Memory/Sweep): `Ingest`, `SweepExpired`, `GetAudit` and `PendingEvents` of
--   internal/store/memory/memory.go. A mutex makes each of them one step. The map of events is an
--   association list with one entry for a key. A delete before a panic stays, as in the code.
-- - Engine (with Engine/Actions): internal/correlator/engine.go, over any `Store`. Engine/Times is its
--   loops over times. encoding/json is the parameter `Codec`, since it is not in this repository.
-- - Postgres: internal/store/postgres/postgres.go on its two tables. Postgres/Session has the
--   requests that a session makes, Postgres/Queries `getEvents`, `recordAudit` and `GetAudit`,
--   Postgres/Ingest and Postgres/Sweep the two methods, Postgres/Opening `New` and `Migrate`. The
--   parameter `Server` says which request fails, whether a commit that reports an error was done,
--   whether a lock is got, in which order rows come and how they are read back. A transaction works
--   on a copy of the committed tables; other transactions run before or after it, not within.
-- - Ledger: what a store promises the engine, without rows: which sources have reported for a trade,
--   when the trade is due, and whether it is closed, with the steps that an ingestion and a sweep
--   take (`Ledger.ingest`, `Ledger.sweep`) and sequences of them (Ledger/Delivery). Ledger/Rows and
--   Ledger/Steps relate rows and audit logs to it.
-- - Contract: the interface between the engine and a store as a record of a store, its good states,
--   its ledger, and laws: each call returns, takes the ledger's step, and hands the closure the right
--   events, and a query of the audit log gives entries of closed trades that pass its filter.
--   Contract/Histories is what any reports and sweeps of some of the trades leave of a ledger
--   (`Steps`). Memory/Refines fills the contract for memory.go. Postgres/Refines fills it for
--   postgres.go, with a `Server` that permutes rows where it orders them and keeps what it stores up
--   to rounding (`Stores`), reports no error, gives each lock and reads back the audit entries
--   (`Suits`). Postgres/Client is postgres.go as a `Store`.
-- - Postgres/Once: transactions of postgres.go in which any request may fail; a `Runs` says which
--   tables a transaction may commit, a `Finishes` what its result tells of them.
-- - Postgres/Refines/Faults, Postgres/Refines/Claims and Postgres/Refines/Sessions: `Ingest`,
--   `SweepExpired` and interleaved sessions of both against the ledger, where requests fail, commits
--   are done and reported as failed, and locks are missing. A sweep of one session is a sequence of
--   claims, and other sessions run between them (`Sessions`).
-- - Service: engine.go over any store that keeps the contract: `Ingest`, `Sweep` (Service/Sweeping),
--   sequences of their calls (Service/Delivery) and two stores under the same calls
--   (Service/Agreement).
-- - Lifecycle: the engine over the memory store; `Reach` is the set of states that calls of
--   `Ingest` and `Sweep` lead to. Lifecycle/History is what `AuditHistory` reads back, Lifecycle/Events
--   which events a reconciled event carries.
-- - Config and Handlers: `newEngine`, `configInt`, `splitSources` and the three tools of main.go,
--   over any store; parsing of times, the conversion of a float64 to an int, opening and migrating
--   the database are the parameter `Outside`. Config/Opened is what `newEngine` gives,
--   Handlers/Ingestion the ways through `ingestTradeEvent`, Handlers/Queries the filter of
--   `getAuditHistory`, Handlers/Expected the results and the arguments field by field, Handlers/Replies
--   what the tools reply over a store that keeps the contract, and Handlers/Sessions sequences of
--   their calls. Handlers/Faults is the tools over the PostgreSQL store
--   where requests fail (Postgres/Calm and Postgres/Refines/Calm: what does not panic there).
-- - Sdk: the interface of the tool SDK under _sdk/samtoolsdk: the configuration of a context
--   (context.go), the results (result.go) and the fields of a configuration schema (tool.go). The
--   rest of that library is not modelled.
-- - Clock: `time.Time` as the nanoseconds since its zero, `time.Duration` as an int64, with the
--   wrap-around of a product and the saturation of a difference written out.
-- - Common: integers, texts, association lists, sorting. `slices.SortFunc` is an insertion sort
--   here; Go's is another algorithm and not stable, which can differ only at equal keys. Go's
--   strings are compared by their characters.
-- - Tests: runs of the engine, and the theorems at concrete data.
--
-- Every loop is a recursion on a list, so no function needs fuel.
--
-- Not modelled: the mutex itself, the planning and locking inside the database, contexts and their
-- cancellation, the failure of an allocation, the runtime of the SDK (processes, pipes, reflection),
-- and the Python version of the tools.
pub mod Common
pub mod Clock
pub mod Model
pub mod Store
pub mod Memory
pub mod Ledger
pub mod Contract
pub mod Engine
pub mod Lifecycle
pub mod Sdk
pub mod Service
pub mod Config
pub mod Handlers
pub mod Tests
pub mod Postgres
