-- ===== src/Postgres/Sweep.antt =====
-- `SweepExpired` and `claimExpired` of postgres.go.
use event_correlator_tool.Common.{
  String, ◌<>◌, Bool, true, not, Option, none, some, List, [], ◌∷◌, map, keep, if◌then◌else◌,
}
use event_correlator_tool.Common.Dict
use event_correlator_tool.Common.Dict.{Dict}
use event_correlator_tool.Clock.{Time, after}
use event_correlator_tool.Store.{PendingTrade, BuildBreak}
use event_correlator_tool.Memory
use event_correlator_tool.Postgres.{Server, Action}
use event_correlator_tool.Postgres.Session.{
  pure, ◌>>=◌, query, read, execute, begin, commit, scan, deferred_rollback,
}
use event_correlator_tool.Postgres.Queries.{get_events, record_audit, delete_rows}
use event_correlator_tool.Postgres.Ingest.{call_build}

-- The third copy of a loop of memory.go
abbrev pub earliest_deadline : Time → List PendingTrade → Time
earliest_deadline = Memory.earliest_deadline

-- Whether `claimExpired` skips the trade: `len(events) == 0 || earliestDeadline(events).After(now)`
unfoldable pub is_skipped : Time → List PendingTrade → Bool
is_skipped now [] = true
is_skipped now (event ∷ events) = after (earliest_deadline event.deadline events) now

-- `SELECT DISTINCT trade_id FROM pending_events WHERE deadline <= $1`
abbrev pub expired_ids : Time → List PendingTrade → List String
expired_ids now pending = Dict.keys (
    Dict.set_of
      (map (λ (row : PendingTrade). row.trade_id)
        (keep (λ row. not (after row.deadline now)) pending))
      [])

module _ (server : Server) {C : Type 0} (now : Time) (build : BuildBreak C) where
  -- The end of `claimExpired`, for a trade that is due
  unfoldable pub claim : String → List PendingTrade → Action C (Option (List PendingTrade))
  claim trade_id events = do
    _ ← execute server "delete expired trade: " (delete_rows trade_id)
    built ← call_build (build trade_id) events
    _ ← record_audit server built.1
    commit server "commit break: " (some built.0)

  -- `claimExpired` of a trade whose lock was taken
  unfoldable pub claim_locked : String → Action C (Option (List PendingTrade))
  claim_locked trade_id = do
    events ← get_events server trade_id
    if is_skipped now events
        then commit server "commit skipped sweep: " none
        else claim trade_id events

  -- `claimExpired`: the events of the trade where it was claimed
  unfoldable pub claim_expired : String → Action C (Option (List PendingTrade))
  claim_expired trade_id = deferred_rollback (do
    _ ← begin server "begin sweep transaction: "
    locked ←
        query server ("lock expired trade " <> server.quote trade_id <> ": ")
          (λ n t. server.granted n)
    if locked then claim_locked trade_id else pure none)

  -- The loop of `SweepExpired` over the trades
  unfoldable pub claim_all :
      List String → Dict (List PendingTrade) → Action C (Dict (List PendingTrade))
  claim_all [] expired = pure expired
  claim_all (trade_id ∷ trade_ids) expired = claim_expired trade_id >>= (λ claimed.
      claim_all trade_ids
        (elim claimed [ none ↦ expired | some events ↦ Dict.set expired trade_id events ]))

  unfoldable pub sweep_expired : Action C (Dict (List PendingTrade))
  sweep_expired = do
    rows ← read server "get expired trades: " (λ n t. server.by_trade (expired_ids now t.pending))
    trade_ids ← scan server "scan expired trade: " rows
    _ ← query server "close expired rows: " (λ n t. tt)
    _ ← query server "iterate expired trades: " (λ n t. tt)
    claim_all trade_ids []
