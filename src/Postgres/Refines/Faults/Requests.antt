-- ===== src/Postgres/Refines/Faults/Requests.antt =====
-- `Ingest` of postgres.go against the ledger, where any request may fail.
use event_correlator_tool.Common.{
  String, Bool, true, false, not, List, ◌≡◌, sym, ◌∙◌, ap, subst, arith, if◌then◌else◌, contains,
}
use event_correlator_tool.Clock.{Time}
use event_correlator_tool.Store.{PendingTrade, IngestResult, no_result, BuildAudit}
use event_correlator_tool.Memory.{is_finalized}
use event_correlator_tool.Memory.Invariant.{IsAbout}
use event_correlator_tool.Ledger.{Ledger, Answer}
use event_correlator_tool.Postgres.{Tables, Server, Connection}
use event_correlator_tool.Postgres.Session.{◌>>=◌, query, commit}
use event_correlator_tool.Postgres.Queries.{record_audit, delete_rows}
use event_correlator_tool.Postgres.Ingest.{
  conflicts, lowered, insert_row, insert_pending, reconcile, inserted, ingest_open, ingest,
  has_every_source,
}
use event_correlator_tool.Postgres.Quiet.Ingest.{
  existing, events, conflicts-lowered, insert_row-fresh, insert_row-duplicate,
}
use event_correlator_tool.Postgres.Refines.{Stores, view_of, IsTidy}
use event_correlator_tool.Postgres.Refines.Ingest.{known-eq}
use event_correlator_tool.Postgres.Once.{
  Runs-then, check-Runs, call_build-Runs, query-Runs, execute-Runs,
}
use event_correlator_tool.Postgres.Once.Reads.{get_events-Reads, insert_pending-Inserts}
use event_correlator_tool.Postgres.Once.Finishes.{
  Done-committed, Done-returned, Finishes, Finishes-then, Finishes-from, Finishes-given,
  if-Finishes, commit-Finishes, transaction-Finishes,
}
use event_correlator_tool.Postgres.Refines.Faults
use event_correlator_tool.Postgres.Refines.Faults.{IsAtomic}

module _ (server : Server) (kept : Time → Time) (stores : Stores server kept)
    (expected : List String) (trade : PendingTrade) (t : Tables) (tidy : IsTidy kept expected t)
    (known : contains expected trade.source ≡ true) where
  abbrev id : String
  id = trade.trade_id

  abbrev step : Answer × Ledger
  step = Faults.step server kept stores expected trade t tidy known

  abbrev Same : Tables → Type 0
  Same = Faults.Same server kept stores expected trade t tidy known

  abbrev Either : Tables → Type 0
  Either = Faults.Either server kept stores expected trade t tidy known

  abbrev Taken : IngestResult → Tables → Type 0
  Taken = Faults.Taken server kept stores expected trade t tidy known

  abbrev extended_by : Tables
  extended_by = Faults.extended_by server kept stores expected trade t tidy known

  either_of : (result : IngestResult) (u : Tables) → Taken result u → Either u
  either_of = Faults.either_of server kept stores expected trade t tidy known

  unchanged : (u : Tables) → Same u → Either u
  unchanged = Faults.unchanged server kept stores expected trade t tidy known

  module _ {C : Type 0} (build : BuildAudit C) (about : IsAbout id build)
      (open_trade : is_finalized t.audit id ≡ false) where
    module _ (fresh : conflicts trade t.pending ≡ false) where
      reconcile-Finishes :
          has_every_source (events server trade t) expected ≡ true
          → (selected : List PendingTrade)
          → Finishes Same Either unchanged
              (λ u. u ≡ extended_by)
              (reconcile server trade selected build)
              Taken
      unfolding reconcile record_audit
      reconcile-Finishes h selected =
          Finishes-then Same Either unchanged (λ _ u. u ≡ delete_rows id 0 extended_by)
            (execute-Runs Same server _ _ _ (λ n u e. ap (delete_rows id 0) e))
            (λ _.
              Finishes-then Same Either unchanged
                (λ built u. (built.1.trade_id ≡ id) × (u ≡ delete_rows id 0 extended_by))
                (call_build-Runs Same id build selected about)
                (λ built.
                  Finishes-then Same Either unchanged
                    (λ _. Taken (record { inserted = true; events = built.0 }))
                    (Runs-then Same
                      (λ _ u. (built.1.trade_id ≡ id) × (u ≡ delete_rows id 0 extended_by))
                      (check-Runs Same _ _ tt)
                      (λ _. execute-Runs Same server _ _ _ (λ n u (same, e).
                        Faults.completes-Taken server kept stores expected trade t tidy known build
                          about open_trade fresh h built.1 n u built.0 same e)))
                    (λ _.
                      commit-Finishes Same Either unchanged server _ _ (either_of _) (λ u x. x))))

      inserted-Finishes :
          Finishes Same Either unchanged
            (λ u. u ≡ extended_by)
            (inserted server trade expected build)
            Taken
      unfolding inserted
      inserted-Finishes =
          Finishes-then Same Either unchanged _ (get_events-Reads Same server id extended_by)
            (λ rows. Finishes-given Same Either unchanged (λ e.
              if-Finishes Same Either unchanged (has_every_source rows expected)
                (λ h. reconcile-Finishes (ap (λ l. has_every_source l expected) (sym e) ∙ h) _)
                (λ h. commit-Finishes Same Either unchanged server _ _ (either_of _) (
                  Faults.waits-Taken server kept stores expected trade t tidy known build about
                    open_trade fresh (ap (λ l. has_every_source l expected) (sym e) ∙ h)))))

    abbrev lowest : PendingTrade
    lowest = lowered trade (existing server trade t)

    stored-Finishes :
        (b : Bool)
        → b ≡ not (conflicts lowest t.pending)
        → Finishes Same Either unchanged
            (λ u. u ≡ insert_row server lowest 0 t)
            (if b
              then inserted server trade expected build
              else commit server "commit duplicate: " no_result)
            Taken
    stored-Finishes true e =
        let free : conflicts lowest t.pending ≡ false = ground arith in
        Finishes-from Same Either unchanged
          (inserted-Finishes
            (sym (conflicts-lowered trade (existing server trade t) t.pending) ∙ free))
          (λ u q. q ∙ insert_row-fresh server lowest t free)
    stored-Finishes false e =
        let taken : conflicts lowest t.pending ≡ true = ground arith in
        let found : conflicts trade t.pending ≡ true =
          sym (conflicts-lowered trade (existing server trade t) t.pending) ∙ taken in
        commit-Finishes Same Either unchanged server _ _ (either_of _) (λ u q.
          Faults.refused server kept stores expected trade t tidy known
            (known-eq server kept stores expected trade t tidy known ∙ ground (arith, found)) u
            (q ∙ insert_row-duplicate server lowest t taken))

    ingest_open-Finishes :
        Finishes Same Either unchanged (λ u. u ≡ t) (ingest_open server trade expected build) Taken
    unfolding ingest_open
    ingest_open-Finishes =
        Finishes-then Same Either unchanged _ (get_events-Reads Same server id t) (λ rows.
          Finishes-given Same Either unchanged (λ e.
            subst
              (λ l.
                Finishes Same Either unchanged (λ u. u ≡ t)
                  (insert_pending server (lowered trade l) >>= (λ fresh.
                    if fresh
                    then inserted server trade expected build
                    else commit server "commit duplicate: " no_result))
                  Taken)
              (sym e)
              (Finishes-then Same Either unchanged _ (insert_pending-Inserts Same server lowest t)
                (λ fresh. Finishes-given Same Either unchanged (λ f. stored-Finishes fresh f)))))

  module _ {C : Type 0} (build : BuildAudit C) (about : IsAbout id build) where
    begun-Finishes :
        Finishes Same Either unchanged {C = C}
          (λ u. u ≡ t)
          (query server "lock trade: " (λ n u. tt) >>= (λ _.
            query server "check finalized trade: " (λ n u. is_finalized u.audit id)
            >>= (λ finalized.
                if finalized
                then commit server "commit finalized check: " no_result
                else ingest_open server trade expected build)))
          Taken
    begun-Finishes =
        Finishes-then Same Either unchanged (λ _ u. u ≡ t)
          (query-Runs Same server _ _ _ (λ n u q. q))
          (λ _.
            Finishes-then Same Either unchanged (λ b u. (is_finalized t.audit id ≡ b) × (u ≡ t))
              (query-Runs Same server _ _ _
                (λ n u q. (sym (ap (λ (x : Tables). is_finalized x.audit id) q), q)))
              (λ b. Finishes-given Same Either unchanged (λ f.
                if-Finishes Same Either unchanged b
                  (λ e. commit-Finishes Same Either unchanged server _ _ (either_of _) (
                    Faults.refused server kept stores expected trade t tidy known (
                      known-eq server kept stores expected trade t tidy known
                      ∙ ground (arith, f ∙ e))))
                  (λ e. ingest_open-Finishes build about (f ∙ e)))))

    -- Where any request may fail, and a commit that reports an error may be done all the same, `Ingest`
    -- of an event from an expected source commits all of the ledger's step or nothing of it, and leaves
    -- tidy tables; and where it returns, it has taken the step and its result tells the ledger's
    -- answer: if the server keeps what it stores and the closure is about the trade.
    pub ingest-IsAtomic :
        (s : Connection C)
        → s.committed ≡ t
        → IsAtomic kept expected (view_of t) step (ingest server trade expected build s)
    unfolding ingest
    ingest-IsAtomic s same =
        let ran =
          (transaction-Finishes Same Either unchanged {Q = λ _. Unit} server "begin transaction: " _
              begun-Finishes).done
            s same tt in
        record {
          either = Done-committed Same Either unchanged Taken _ either_of ran;
          answered = λ result e. Done-returned Same Either unchanged Taken _ result ran e;
        }
