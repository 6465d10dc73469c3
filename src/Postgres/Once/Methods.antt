-- ===== src/Postgres/Once/Methods.antt =====
-- `Ingest` and `SweepExpired` of postgres.go audit a trade once.
use event_correlator_tool.Common.{String, true, none, List, [], ◌∷◌, ◌≡◌, ◌≢◌, refl, ◌∙◌}
use event_correlator_tool.Common.Dict.{Dict}
use event_correlator_tool.Common.Sorting.Unique.{nil_of_perm}
use event_correlator_tool.Clock.{Time}
use event_correlator_tool.Model.{AuditEntry}
use event_correlator_tool.Store.{PendingTrade, BuildAudit, BuildBreak}
use event_correlator_tool.Memory.{is_finalized}
use event_correlator_tool.Memory.Invariant.{IsAbout}
use event_correlator_tool.Postgres.{Tables, Server, Connection}
use event_correlator_tool.Postgres.Session.{◌>>=◌, execute, commit}
use event_correlator_tool.Postgres.Queries.{get_events, record_audit, rows_of, delete_rows}
use event_correlator_tool.Postgres.Ingest.{
  call_build, insert_pending, reconcile, inserted, ingest_open, ingest, lowered, has_every_source,
}
use event_correlator_tool.Postgres.Sweep.{
  is_skipped, claim, claim_locked, claim_expired, claim_all, sweep_expired,
}
use event_correlator_tool.Postgres.Once.{
  Leaves-committed, Runs, Runs-then, Runs-from, Runs-weaken, if-Runs, pure-Runs, check-Runs,
  rollback-Runs, call_build-Runs, query-Runs, read-Runs, execute-Runs, begin-Runs, commit-Runs,
  scan-Runs,
}
use event_correlator_tool.Postgres.Once.Statements.{
  KeepsTrades, waiting, IsOnce, IsOpen, IsCleared, waiting-rows_of, found-IsOpen, not_skipped,
  delete-IsCleared, entry-IsOnce, row-IsOpen,
}

module _ (server : Server) (keeps : KeepsTrades server) where
  module _ {C : Type 0} where
    get_events-Runs :
        (id : String) (Q : Tables → Type 0)
        → Runs IsOnce {C = C} Q
            (get_events server id)
            (λ events t. (events ≢ [] → waiting t id ≡ true) × Q t)
    unfolding get_events
    get_events-Runs id Q =
        Runs-then IsOnce (λ rows t. (rows ≢ [] → waiting t id ≡ true) × Q t)
          (query-Runs IsOnce server _ _ _ (λ n t q. (
            λ h.
                waiting-rows_of t.pending id
                  (λ e. h (nil_of_perm (keeps.permutes (rows_of id t.pending)) e)),
            q,
          )))
          (λ rows.
            Runs-then IsOnce
              (λ events t. (events ≡ rows) × ((rows ≢ [] → waiting t id ≡ true) × Q t))
              (scan-Runs IsOnce server _ rows)
              (λ events.
                query-Runs IsOnce server _ _ _
                  (λ n t (same, (h, q)). (λ k. h (λ e. k (same ∙ e)), q))))

    record_audit-Runs :
        (id : String) (entry : AuditEntry)
        → Runs IsOnce {C = C}
            (λ t. (entry.trade_id ≡ id) × IsCleared id t)
            (record_audit server entry)
            (λ _. IsOnce)
    unfolding record_audit
    record_audit-Runs id entry =
        Runs-then IsOnce (λ _ t. (entry.trade_id ≡ id) × IsCleared id t) (check-Runs IsOnce _ _ tt)
          (λ _.
            execute-Runs IsOnce server _ _ IsOnce
              (λ n t (e, h). entry-IsOnce server keeps id entry n t e h))

    -- The end of a transaction that audits a trade
    finish-Runs :
        {A : Type 0} (label done : String) (id : String) (events : List PendingTrade)
        (build : BuildAudit C) (f : List PendingTrade × AuditEntry → A)
        → IsAbout id build
        → Runs IsOnce
            (IsOpen id)
            (execute server label (delete_rows id) >>= (λ _.
              call_build build events
              >>= (λ built. record_audit server built.1 >>= (λ _. commit server done (f built)))))
            (λ _ t. IsOnce t)
    finish-Runs label done id events build f about =
        Runs-then IsOnce (λ _. IsCleared id)
          (execute-Runs IsOnce server _ _ (IsCleared id)
            (λ n t h. delete-IsCleared server keeps id n t h))
          (λ _.
            Runs-then IsOnce (λ built t. (built.1.trade_id ≡ id) × IsCleared id t)
              (call_build-Runs IsOnce id build events about)
              (λ built.
                Runs-then IsOnce (λ _. IsOnce) (record_audit-Runs id built.1)
                  (λ _. commit-Runs IsOnce server _ _ (λ t h. h))))

    inserted-Runs :
        (trade : PendingTrade) (expected : List String) (build : BuildAudit C)
        → IsAbout trade.trade_id build
        → Runs IsOnce (IsOpen trade.trade_id) (inserted server trade expected build) (λ _. IsOnce)
    unfolding inserted reconcile
    inserted-Runs trade expected build about =
        Runs-then IsOnce _ (get_events-Runs trade.trade_id (IsOpen trade.trade_id)) (λ events.
          if-Runs IsOnce (has_every_source events expected)
            (λ _. Runs-from IsOnce (finish-Runs _ _ trade.trade_id _ build _ about) (λ t (_, h). h))
            (λ _. commit-Runs IsOnce server _ _ (λ t (_, h). h.once)))

    insert_pending-Runs :
        (trade : PendingTrade)
        → Runs IsOnce {C = C}
            (IsOpen trade.trade_id)
            (insert_pending server trade)
            (λ _. IsOpen trade.trade_id)
    unfolding insert_pending
    insert_pending-Runs trade = record {
      leaves = λ s.
          (Runs-then IsOnce (λ _. IsOpen trade.trade_id)
              (execute-Runs IsOnce server "record event: " _ (IsOpen trade.trade_id)
                (λ n t h. row-IsOpen server keeps trade n t h))
              (λ _.
                query-Runs IsOnce server "read insert result: " _ (λ _. IsOpen trade.trade_id)
                  (λ n t h. h))).leaves
            s;
    }

    ingest_open-Runs :
        (trade : PendingTrade) (expected : List String) (build : BuildAudit C)
        → IsAbout trade.trade_id build
        → Runs IsOnce
            (IsOpen trade.trade_id)
            (ingest_open server trade expected build)
            (λ _. IsOnce)
    unfolding ingest_open
    ingest_open-Runs trade expected build about =
        Runs-then IsOnce (λ _. IsOpen trade.trade_id)
          (Runs-weaken IsOnce (get_events-Runs trade.trade_id (IsOpen trade.trade_id))
            (λ _ t (_, h). h))
          (λ existing.
            Runs-then IsOnce (λ _. IsOpen trade.trade_id)
              (insert_pending-Runs (lowered trade existing))
              (λ fresh.
                if-Runs IsOnce fresh (λ _. inserted-Runs trade expected build about)
                  (λ _. commit-Runs IsOnce server _ _ (λ t h. h.once))))

    -- Where no trade has two audit entries, or an audit entry and a pending row, that is so in the
    -- committed tables after `Ingest`, also where a request fails, and where a commit reports an error
    -- and is done all the same, if the server keeps the trades of rows and entries, and the closure is
    -- about the trade.
    pub ingest-IsOnce :
        (trade : PendingTrade) (expected : List String) (build : BuildAudit C) (s : Connection C)
        → IsAbout trade.trade_id build
        → IsOnce s.committed
        → IsOnce (ingest server trade expected build s).1.committed
    unfolding ingest
    ingest-IsOnce trade expected build s about h =
        let body : Runs IsOnce (λ _. Unit) (ingest server trade expected build) (λ _. IsOnce) =
          rollback-Runs IsOnce (
            Runs-then IsOnce (λ _. IsOnce) (begin-Runs IsOnce server _)
              (λ _.
                Runs-then IsOnce (λ _. IsOnce) (query-Runs IsOnce server _ _ _ (λ n t q. q))
                  (λ _.
                    Runs-then IsOnce (λ b t. (is_finalized t.audit trade.trade_id ≡ b) × IsOnce t)
                      (query-Runs IsOnce server _ _ _ (λ n t q. (refl, q)))
                      (λ finalized.
                        if-Runs IsOnce finalized
                          (λ _. commit-Runs IsOnce server _ _ (λ t (_, q). q))
                          (λ e.
                            Runs-from IsOnce (ingest_open-Runs trade expected build about)
                              (λ t (f, q). record { once = q; open_trade = f ∙ e })))))) in
        Leaves-committed IsOnce (λ _. IsOnce) _ (body.leaves s h tt)

    module _ (now : Time) (build : BuildBreak C)
        (about : (id : String) → IsAbout id (build id)) where
      claim_expired-Runs :
          (id : String) → Runs IsOnce (λ _. Unit) (claim_expired server now build id) (λ _ _. Unit)
      unfolding claim_expired claim_locked claim
      claim_expired-Runs id =
          Runs-weaken IsOnce
            (rollback-Runs IsOnce (
              Runs-then IsOnce (λ _. IsOnce) (begin-Runs IsOnce server _)
                (λ _.
                  Runs-then IsOnce (λ _. IsOnce) (query-Runs IsOnce server _ _ _ (λ n t q. q))
                    (λ locked.
                      if-Runs IsOnce locked
                        (λ _. Runs-then IsOnce _ (get_events-Runs id IsOnce) (λ events.
                          if-Runs IsOnce (is_skipped now events)
                            (λ _. commit-Runs IsOnce server _ _ (λ t (_, q). q))
                            (λ due.
                              Runs-from IsOnce (finish-Runs _ _ id _ (build id) _ (about id))
                                (λ t (found, q).
                                  found-IsOpen id t q (found (not_skipped now events due))))))
                        (λ _. Runs-weaken IsOnce (pure-Runs IsOnce none) (λ _ t (_, q). q))))))
            (λ _ t _. tt)

      -- Where no trade has two audit entries, or an audit entry and a pending row, that is so after a
      -- call of `claimExpired`.
      pub claim_expired-IsOnce :
          (id : String) (s : Connection C)
          → IsOnce s.committed
          → IsOnce (claim_expired server now build id s).1.committed
      claim_expired-IsOnce id s h =
          Leaves-committed IsOnce (λ _ _. Unit) _ ((claim_expired-Runs id).leaves s h tt)

      claim_all-Runs :
          (ids : List String) (expired : Dict (List PendingTrade))
          → Runs IsOnce (λ _. Unit) (claim_all server now build ids expired) (λ _ _. Unit)
      unfolding claim_all
      claim_all-Runs [] expired = Runs-weaken IsOnce (pure-Runs IsOnce expired) (λ _ t _. tt)
      claim_all-Runs (id ∷ ids) expired =
          Runs-then IsOnce (λ _ _. Unit) (claim_expired-Runs id) (λ claimed. claim_all-Runs ids _)

      -- Where no trade has two audit entries, or an audit entry and a pending row, that is so in the
      -- committed tables after `SweepExpired`, also where a request fails, and where a commit reports
      -- an error and is done all the same, if the server keeps the trades of rows and entries, and
      -- the closure is about the trade that it is called for.
      pub sweep_expired-IsOnce :
          (s : Connection C)
          → IsOnce s.committed
          → IsOnce (sweep_expired server now build s).1.committed
      unfolding sweep_expired
      sweep_expired-IsOnce s h =
          let body : Runs IsOnce (λ _. Unit) (sweep_expired server now build) (λ _ _. Unit) =
            Runs-then IsOnce (λ _ _. Unit) (read-Runs IsOnce server _ _)
              (λ rows.
                Runs-then IsOnce (λ _ _. Unit)
                  (Runs-weaken IsOnce (scan-Runs IsOnce server {Q = λ _. Unit} _ rows)
                    (λ _ t _. tt))
                  (λ ids.
                    Runs-then IsOnce (λ _ _. Unit) (query-Runs IsOnce server _ _ _ (λ n t q. q))
                      (λ _.
                        Runs-then IsOnce (λ _ _. Unit) (query-Runs IsOnce server _ _ _ (λ n t q. q))
                          (λ _. claim_all-Runs ids [])))) in
          Leaves-committed IsOnce (λ _ _. Unit) _ (body.leaves s h tt)
