-- ===== src/Postgres/Quiet/Sweep.antt =====
-- `claimExpired` and `SweepExpired` of postgres.go where the database reports no error and gives
-- each lock.
use event_correlator_tool.Common.{
  ℕ, String, true, false, not, none, some, Option, List, [], ◌∷◌, ◌++◌, ◌≡◌, refl, ◌==◌, keep,
  if◌then◌else◌,
}
use event_correlator_tool.Common.Dict.{Dict}
use event_correlator_tool.Clock.{Time}
use event_correlator_tool.Store.{PendingTrade, Built, BuildBreak}
use event_correlator_tool.Postgres.{Server}
use event_correlator_tool.Postgres.Session.{commit}
use event_correlator_tool.Postgres.Queries.{rows_of, delete_rows}
use event_correlator_tool.Postgres.Sweep.{
  is_skipped, expired_ids, claim, claim_locked, claim_expired, claim_all, sweep_expired,
}
use event_correlator_tool.Postgres.Quiet.{
  IsQuiet, View, Ends, Gives-Ends, Ends-then, rollback-Ends, query-Gives, query-Gives_of,
  read-Gives, begin-Gives, commit-Gives, execute-Gives, scan-Gives, get_events-Gives,
  call_build-Gives, record_audit-then,
}
use event_correlator_tool.Postgres.Quiet.Ingest.{if-true, if-false}

module _ (server : Server) (q : IsQuiet server) (grants : (n : ℕ) → server.granted n ≡ true)
    {C : Type 0} (now : Time) (build : BuildBreak C) (v : View C) where
  -- The trades that `SweepExpired` goes through
  abbrev pub found : List String
  found = server.by_trade (expired_ids now v.committed.pending)

  -- `SweepExpired` ends as its loop ends.
  pub sweep_expired-Ends :
      {R : Dict (List PendingTrade) → View C → Type 0}
      → Ends (claim_all server now build found []) v R
      → Ends (sweep_expired server now build) v R
  unfolding sweep_expired
  sweep_expired-Ends h =
      Ends-then _ (read-Gives server q _ (λ t. server.by_trade (expired_ids now t.pending)) v) (
        Ends-then _ (scan-Gives server q _ found v) (
          Ends-then _ (query-Gives server q _ (λ t. tt) v)
            (Ends-then _ (query-Gives server q _ (λ t. tt) v) h)))

  module _ (id : String) where
    abbrev pub claimed : List PendingTrade
    claimed = server.by_source (rows_of id v.committed.pending)

    abbrev begun : View C
    begun = record v { work = v.committed }

    claim_expired-Ends :
        {R : Option (List PendingTrade) → View C → Type 0}
        → Ends
            (if is_skipped now claimed
              then commit server "commit skipped sweep: " none
              else claim server now build id claimed)
            begun
            (λ a w. R a (record w { work = w.committed }))
        → Ends (claim_expired server now build id) v R
    unfolding claim_expired claim_locked
    claim_expired-Ends h = rollback-Ends (
        Ends-then _ (begin-Gives server q _ v) (
          Ends-then _ (query-Gives_of server q _ (λ n t. server.granted n) begun true grants)
            (Ends-then _ (get_events-Gives server q id begun) h)))

    -- A trade that is not due stays.
    pub claim_expired-skips :
        is_skipped now claimed ≡ true
        → Ends
            (claim_expired server now build id)
            v
            (λ a w. (a ≡ none) × (w.captured ≡ v.captured) × (w.committed ≡ v.committed))
    claim_expired-skips h =
        claim_expired-Ends
          (if-true _ _ h (Gives-Ends (commit-Gives server q _ _ begun) (refl, refl, refl)))

    -- A trade that is due is claimed.
    pub claim_expired-claims :
        (b : Built C)
        → is_skipped now claimed ≡ false
        → build id v.captured claimed ≡ some b
        → Ends (claim_expired server now build id) v (λ a w.
          (a ≡ some b.events)
          × (w.captured ≡ b.captured)
          × (w.committed.pending ≡ keep (λ row. not (row.trade_id == id)) v.committed.pending)
          × (n : ℕ) × (w.committed.audit ≡ v.committed.audit ++ server.recorded n b.entry ∷ []))
    unfolding claim
    claim_expired-claims b h e = claim_expired-Ends (
        if-false _ _ h (
          Ends-then _ (execute-Gives server q _ (delete_rows id 0) begun) (
            Ends-then _ (call_build-Gives server q (build id) _ _ b e) (
              record_audit-then server q b.entry _ _ _
                (λ n. Gives-Ends (commit-Gives server q _ _ _) (refl, refl, refl, n, refl))))))
