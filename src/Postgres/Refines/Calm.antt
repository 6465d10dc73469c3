-- ===== src/Postgres/Refines/Calm.antt =====
-- `Ingest`, `SweepExpired` and `GetAudit` of postgres.go do not panic, where any request may fail and any
-- lock may be missing.
use event_correlator_tool.Common.{
  String, Bool, true, false, not, List, [], ◌∷◌, ◌≡◌, ◌≢◌, none, sym, ◌∙◌, subst, arith,
  if◌then◌else◌, contains, panic,
}
use event_correlator_tool.Common.Dict.{Dict}
use event_correlator_tool.Clock.{Time}
use event_correlator_tool.Model.{AuditEntry}
use event_correlator_tool.Store.{PendingTrade, no_result, BuildAudit, BuildBreak, AuditFilter}
use event_correlator_tool.Memory.Invariant.{IsPart}
use event_correlator_tool.Memory.Outcomes.{expected_events-IsPart, expected_events-ne-nil}
use event_correlator_tool.Contract.{Serves}
use event_correlator_tool.Postgres.{Tables, Server, Connection}
use event_correlator_tool.Postgres.Session.{◌>>=◌, commit}
use event_correlator_tool.Postgres.Queries.{read_entries, get_audit}
use event_correlator_tool.Postgres.Ingest.{
  conflicts, lowered, insert_row, insert_pending, reconcile, inserted, ingest_open, ingest,
  has_every_source, expected_events,
}
use event_correlator_tool.Postgres.Sweep.{
  is_skipped, claim, claim_locked, claim_expired, claim_all, sweep_expired,
}
use event_correlator_tool.Postgres.Quiet.Ingest.{existing, conflicts-lowered, insert_row-fresh}
use event_correlator_tool.Postgres.Refines.{Stores, IsTidy, by_source-IsPart}
use event_correlator_tool.Postgres.Refines.Ingest.{grown, IsTidy-grown}
use event_correlator_tool.Postgres.Refines.Claims.{claim_expired-IsSweptSome}
use event_correlator_tool.Postgres.Once.{
  Runs-weaken, query-Runs, read-Runs, execute-Runs, scan-Runs,
}
use event_correlator_tool.Postgres.Once.Reads.{get_events-Reads, insert_pending-Inserts}
use event_correlator_tool.Postgres.Calm.{
  IsSteady, IsSteady-then, follow-ne-panic, pure-IsSteady, check-IsSteady, query-IsSteady,
  read-IsSteady, execute-IsSteady, commit-IsSteady, scan-IsSteady, get_events-IsSteady,
  record_audit-IsSteady, insert_pending-IsSteady, IsCalm, IsCalm-steady, IsCalm-then, IsCalm-given,
  IsCalm-from, if-IsCalm, call_build-IsCalm, transaction-IsCalm,
}

module _ (server : Server) (kept : Time → Time) (stores : Stores server kept)
    (expected : List String) {C : Type 0} where
  module _ (trade : PendingTrade) (t : Tables) (tidy : IsTidy kept expected t)
      (known : contains expected trade.source ≡ true) (build : BuildAudit C)
      (serves : Serves expected trade.trade_id build) where
    abbrev Same : Tables → Type 0
    Same u = u ≡ t

    abbrev extended_by : Tables
    extended_by = grown server kept stores expected trade t tidy known

    reconcile-IsCalm :
        {Q : Tables → Type 0} (selected : List PendingTrade)
        → ((c : C) → build c selected ≢ none)
        → IsCalm Same Q (reconcile server trade selected build)
    unfolding reconcile
    reconcile-IsCalm selected returns =
        IsCalm-then Same (λ _ _. Unit) (execute-Runs Same server _ _ _ (λ n u q. tt))
          (execute-IsSteady server _ _)
          (λ _. call_build-IsCalm Same build selected returns (λ built.
            IsSteady-then (record_audit-IsSteady server built.1) (λ _. commit-IsSteady server _ _)))

    inserted-IsCalm :
        conflicts trade t.pending ≡ false
        → IsCalm Same (λ u. u ≡ extended_by) (inserted server trade expected build)
    unfolding inserted
    inserted-IsCalm fresh =
        let part =
          by_source-IsPart server kept stores expected extended_by trade.trade_id
            (IsTidy-grown server kept stores expected trade t tidy known fresh) in
        IsCalm-then Same _ (get_events-Reads Same server trade.trade_id extended_by)
          (get_events-IsSteady server _)
          (λ rows. IsCalm-given Same (λ e.
            if-IsCalm Same (has_every_source rows expected)
              (λ h. reconcile-IsCalm (expected_events rows expected) (λ c.
                serves.returns c _
                  (expected_events-ne-nil trade.trade_id rows expected h trade.source known)
                  (expected_events-IsPart trade.trade_id rows expected h
                    (subst (IsPart expected trade.trade_id) (sym e) part))))
              (λ h. IsCalm-steady Same (commit-IsSteady server _ _))))

    abbrev lowest : PendingTrade
    lowest = lowered trade (existing server trade t)

    stored-IsCalm :
        (b : Bool)
        → b ≡ not (conflicts lowest t.pending)
        → IsCalm Same
            (λ u. u ≡ insert_row server lowest 0 t)
            (if b
              then inserted server trade expected build
              else commit server "commit duplicate: " no_result)
    stored-IsCalm true e =
        let free : conflicts lowest t.pending ≡ false = ground arith in
        IsCalm-from Same
          (inserted-IsCalm
            (sym (conflicts-lowered trade (existing server trade t) t.pending) ∙ free))
          (λ u q. q ∙ insert_row-fresh server lowest t free)
    stored-IsCalm false e = IsCalm-steady Same (commit-IsSteady server _ _)

    ingest_open-IsCalm : IsCalm Same Same (ingest_open server trade expected build)
    unfolding ingest_open
    ingest_open-IsCalm =
        IsCalm-then Same _ (get_events-Reads Same server trade.trade_id t)
          (get_events-IsSteady server _)
          (λ rows. IsCalm-given Same (λ e.
            subst
              (λ l. IsCalm Same Same (
                insert_pending server (lowered trade l) >>= (λ fresh.
                  if fresh
                  then inserted server trade expected build
                  else commit server "commit duplicate: " no_result)))
              (sym e)
              (IsCalm-then Same _ (insert_pending-Inserts Same server lowest t)
                (insert_pending-IsSteady server lowest)
                (λ fresh. IsCalm-given Same (λ f. stored-IsCalm fresh f)))))

    -- Where any request may fail, `Ingest` of an event from an expected source does not panic, from tidy
    -- tables and with a closure that suits the contract.
    pub ingest-ne-panic :
        (s : Connection C) → s.committed ≡ t → (ingest server trade expected build s).0 ≢ panic
    unfolding ingest
    ingest-ne-panic s same =
        (transaction-IsCalm Same {Q = λ _. Unit} server "begin transaction: " _ (
            IsCalm-then Same (λ _. Same) (query-Runs Same server _ _ _ (λ n u q. q))
              (query-IsSteady server _ _)
              (λ _.
                IsCalm-then Same (λ _. Same) (query-Runs Same server _ _ _ (λ n u q. q))
                  (query-IsSteady server _ _)
                  (λ finalized.
                    if-IsCalm Same finalized (λ _. IsCalm-steady Same (commit-IsSteady server _ _))
                      (λ _. ingest_open-IsCalm))))).calm
          s same tt

  module _ (now : Time) (build : BuildBreak C)
      (serves : (id : String) → Serves expected id (build id)) where
    not_skipped-ne-nil : (l : List PendingTrade) → is_skipped now l ≡ false → l ≢ []
    unfolding is_skipped
    not_skipped-ne-nil l h e = ground arith

    module _ (t : Tables) (tidy : IsTidy kept expected t) (id : String) where
      claim-IsCalm :
          {Q : Tables → Type 0} (l : List PendingTrade)
          → ((c : C) → build id c l ≢ none)
          → IsCalm (λ u. u ≡ t) Q (claim server now build id l)
      unfolding claim
      claim-IsCalm l returns =
          IsCalm-then (λ u. u ≡ t) (λ _ _. Unit)
            (execute-Runs (λ u. u ≡ t) server _ _ _ (λ n u q. tt)) (execute-IsSteady server _ _)
            (λ _.
              call_build-IsCalm (λ u. u ≡ t) (build id) l returns
                (λ built.
                  IsSteady-then (record_audit-IsSteady server built.1)
                    (λ _. commit-IsSteady server _ _)))

      claim_locked-IsCalm : IsCalm (λ u. u ≡ t) (λ u. u ≡ t) (claim_locked server now build id)
      unfolding claim_locked
      claim_locked-IsCalm =
          IsCalm-then (λ u. u ≡ t) _ (get_events-Reads (λ u. u ≡ t) server id t)
            (get_events-IsSteady server _)
            (λ rows.
              IsCalm-given (λ u. u ≡ t)
                (λ e.
                  if-IsCalm (λ u. u ≡ t) (is_skipped now rows)
                    (λ _. IsCalm-steady (λ u. u ≡ t) (commit-IsSteady server _ _))
                    (λ due. claim-IsCalm rows (λ c.
                      (serves id).returns c rows (not_skipped-ne-nil rows due) (
                        subst (IsPart expected id) (sym e)
                          (by_source-IsPart server kept stores expected t id tidy))))))

      claim_expired-ne-panic :
          (s : Connection C) → s.committed ≡ t → (claim_expired server now build id s).0 ≢ panic
      unfolding claim_expired
      claim_expired-ne-panic s same =
          (transaction-IsCalm (λ u. u ≡ t) {Q = λ _. Unit} server "begin sweep transaction: " _
              (IsCalm-then (λ u. u ≡ t) (λ _ u. u ≡ t)
                (query-Runs (λ u. u ≡ t) server _ _ _ (λ n u q. q)) (query-IsSteady server _ _)
                (λ locked.
                  if-IsCalm (λ u. u ≡ t) locked (λ _. claim_locked-IsCalm)
                    (λ _. IsCalm-steady (λ u. u ≡ t) (pure-IsSteady none))))).calm
            s same tt

    claim_all-ne-panic :
        (ids : List String) (expired : Dict (List PendingTrade)) (s : Connection C)
        → IsTidy kept expected s.committed
        → (claim_all server now build ids expired s).0 ≢ panic
    unfolding claim_all ◌>>=◌
    claim_all-ne-panic [] expired s tidy = λ e. cc
    claim_all-ne-panic (id ∷ ids) expired s tidy =
        follow-ne-panic (claim_expired server now build id s) _
          (claim_expired-ne-panic s.committed tidy id s (λ i. s.committed))
          (λ claimed e. claim_all-ne-panic ids _ _ (
            (claim_expired-IsSweptSome server kept stores expected now build (λ k. (serves k).about)
              s.committed tidy id s (λ i. s.committed)).swept.tidy))

    -- Where any request may fail and any lock may be missing, `SweepExpired` does not panic, from tidy
    -- tables and with a closure that suits the contract.
    pub sweep_expired-ne-panic :
        (s : Connection C)
        → IsTidy kept expected s.committed
        → (sweep_expired server now build s).0 ≢ panic
    unfolding sweep_expired
    sweep_expired-ne-panic s tidy =
        let P : Tables → Type 0 = IsTidy kept expected in
        (IsCalm-then P {Q = λ _. Unit} (λ _ _. Unit) (read-Runs P server _ _)
            (read-IsSteady server _ _)
            (λ rows.
              IsCalm-then P (λ _ _. Unit)
                (Runs-weaken P (scan-Runs P server {Q = λ _. Unit} "scan expired trade: " rows)
                  (λ _ u _. tt))
                (scan-IsSteady server _ rows)
                (λ ids.
                  IsCalm-then P (λ _ _. Unit) (query-Runs P server _ _ _ (λ n u q. q))
                    (query-IsSteady server _ _)
                    (λ _.
                      IsCalm-then P (λ _ _. Unit) (query-Runs P server _ _ _ (λ n u q. q))
                        (query-IsSteady server _ _)
                        (λ _. record { calm = λ w p q. claim_all-ne-panic ids [] w p }))))).calm
          s tidy tt

  read_entries-IsSteady : (l : List AuditEntry) → IsSteady {C = C} (read_entries server l)
  unfolding read_entries
  read_entries-IsSteady [] = pure-IsSteady []
  read_entries-IsSteady (entry ∷ l) = IsSteady-then (query-IsSteady server _ _) (λ a.
      IsSteady-then (check-IsSteady _ _ tt)
        (λ _. IsSteady-then (read_entries-IsSteady l) (λ rest. pure-IsSteady (a ∷ rest))))

  pub get_audit-ne-panic : (f : AuditFilter) (s : Connection C) → (get_audit server f s).0 ≢ panic
  unfolding get_audit
  get_audit-ne-panic f s =
      (IsSteady-then (read-IsSteady server _ _) (λ rows.
          IsSteady-then (read_entries-IsSteady rows) (λ entries. query-IsSteady server _ _))).steady
        s
