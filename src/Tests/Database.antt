-- ===== src/Tests/Database.antt =====
-- Runs of the store on PostgreSQL, and its theorems at concrete data.
use event_correlator_tool.Common.{
  ℕ, String, true, false, Option, none, some, List, [], ◌∷◌, ◌≡◌, refl, err, keep, take, length,
  ◌≤◌, eqb, if◌then◌else◌, string_discrete,
}
use event_correlator_tool.Common.Int.{pos, pos_part}
use event_correlator_tool.Common.Dict
use event_correlator_tool.Store.{PendingTrade, AuditFilter}
use event_correlator_tool.Memory.{
  seen_sources, all_seen, filter_known, is_finalized, lower_deadline,
}
use event_correlator_tool.Memory
use event_correlator_tool.Postgres.{Tables, Server, Connection}
use event_correlator_tool.Postgres.Session.{
  ◌>>=◌, query, read, execute, begin, commit, scan, deferred_rollback,
}
use event_correlator_tool.Postgres.Queries.{get_events, record_audit}
use event_correlator_tool.Postgres.Ingest.{
  conflicts, call_build, insert_pending, reconcile, inserted, ingest_open, ingest,
}
use event_correlator_tool.Postgres.Sweep.{claim_expired, sweep_expired}
use event_correlator_tool.Postgres.Queries.{limit_of, matches, read_entries, get_audit}
use event_correlator_tool.Postgres.History.{get_audit-eq-selected}
use event_correlator_tool.Postgres.Atomic.{RollsBack, ingest-RollsBack, claim_expired-RollsBack}
use event_correlator_tool.Postgres.Rows.Audit.{
  StartsWith, ingest-StartsWith, sweep_expired-StartsWith,
}
use event_correlator_tool.Postgres.Quiet.{IsQuiet}
use event_correlator_tool.Tests.{sources, row_of, entry_of, build_entry}

-- A server whose requests fail as `fault` says, and that stores what it is given.
abbrev pub server_with : (ℕ → Option String) → Server
server_with fault = record {
  fault = fault;
  kept = λ n. false;
  granted = λ n. true;
  by_source = λ rows. rows;
  by_trade = λ ids. ids;
  newest_first = λ entries. entries;
  stored = λ row. row;
  recorded = λ n entry. entry;
  marshal_error = λ l. none;
  unmarshal_error = λ l. none;
  quote = λ s. s;
}

abbrev pub quiet : Server
quiet = server_with (λ n. none)

-- The request with this number fails.
abbrev pub failing : ℕ → Server
failing n = server_with (λ k. if eqb k n then some "connection lost" else none)

pub quiet-IsQuiet : IsQuiet quiet
quiet-IsQuiet = record { sound = λ n. refl; encodes = λ l. refl }

abbrev empty : Tables
empty = record { pending = []; audit = [] }

abbrev pub holding : Tables
holding = record { pending = row_of "t1" "solar" (pos 9) ∷ []; audit = entry_of "t0" "break" ∷ [] }

abbrev connected : Tables → Connection Unit
connected t = record { requests = 0; committed = t; work = t; captured = tt }

abbrev murex_row : PendingTrade
murex_row = row_of "t1" "murex" (pos 12)

-- The connection is lost at the last request: the event is not recorded.
lost_at_the_commit :
    ingest (failing 14) murex_row sources (build_entry "t1") (connected holding) ≡ (
      err "commit reconciliation: connection lost",
      record { requests = 15; committed = holding; work = holding; captured = tt },
    )
unfolding ingest ingest_open inserted insert_pending reconcile call_build conflicts get_events
    record_audit ◌>>=◌ query execute begin commit scan deferred_rollback is_finalized lower_deadline
    Memory.has_every_source Memory.expected_events seen_sources all_seen filter_known Dict.get
    Dict.set Dict.has Dict.set_of string_discrete
lost_at_the_commit = refl

rolled_back : RollsBack (ingest (failing 5) murex_row sources (build_entry "t1"))
rolled_back = ingest-RollsBack (failing 5) (λ n. refl) murex_row sources (build_entry "t1")

claim_rolled_back : RollsBack (claim_expired (failing 3) (pos 20) build_entry "t1")
claim_rolled_back = claim_expired-RollsBack (failing 3) (λ n. refl) (pos 20) build_entry "t1"

log_after_ingest :
    StartsWith holding.audit
      (ingest (failing 5) murex_row sources (build_entry "t1") (connected holding)).1.committed
log_after_ingest =
    ingest-StartsWith (failing 5) (connected holding) refl murex_row sources (build_entry "t1")

log_after_sweep :
    StartsWith holding.audit
      (sweep_expired (failing 7) (pos 20) build_entry (connected holding)).1.committed
log_after_sweep = sweep_expired-StartsWith (failing 7) (connected holding) refl (pos 20) build_entry

abbrev both : List PendingTrade
both = row_of "t1" "solar" (pos 9) ∷ row_of "t1" "murex" (pos 9) ∷ []

abbrev filter : AuditFilter
filter = record { trade_id = "t0"; outcome = ""; limit = pos 5 }

audited :
    (entry_of "t0" "break" ∷ []
      ≡ take
          (pos_part (limit_of (pos 5)))
          (quiet.newest_first (keep (matches filter) holding.audit)))
    × (length (entry_of "t0" "break" ∷ []) ≤ 500)
unfolding get_audit read_entries ◌>>=◌ query read limit_of string_discrete
audited = get_audit-eq-selected quiet filter (connected holding) (entry_of "t0" "break" ∷ []) refl
