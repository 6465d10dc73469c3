-- ===== src/Postgres/Refines/Claims.antt =====
-- `claimExpired` of postgres.go against the ledger, where any request may fail and any lock may be
-- missing.
pub mod Sweeping
use event_correlator_tool.Common.{
  ℕ, String, Bool, true, false, not, ◌&&◌, ◌||◌, Option, none, some, List, [], ◌∷◌, ◌++◌, ◌≡◌, refl,
  sym, ◌∙◌, ap, subst, arith, ◌==◌, if◌then◌else◌, contains, contains-append,
}
use event_correlator_tool.Clock.{Time}
use event_correlator_tool.Model.{AuditEntry}
use event_correlator_tool.Store.{PendingTrade, BuildBreak}
use event_correlator_tool.Memory.Invariant.{IsAbout}
use event_correlator_tool.Memory.{is_due}
use event_correlator_tool.Ledger.{Ledger, close}
use event_correlator_tool.Contract.Sweeping.{sweep_some}
use event_correlator_tool.Contract.Sweeping.Unions.{sweep_some-nil, sweep_some-one}
use event_correlator_tool.Postgres.{Tables, Server, Connection}
use event_correlator_tool.Postgres.Queries.{record_audit, rows_of, delete_rows, insert_entry}
use event_correlator_tool.Postgres.Sweep.{is_skipped, claim, claim_locked, claim_expired}
use event_correlator_tool.Postgres.Once.{
  Runs-then, check-Runs, call_build-Runs, query-Runs, execute-Runs,
}
use event_correlator_tool.Postgres.Once.Reads.{get_events-Reads}
use event_correlator_tool.Postgres.Once.Finishes.{
  Done-committed, Finishes, Finishes-then, Finishes-given, if-Finishes, pure-Finishes,
  commit-Finishes, transaction-Finishes,
}
use event_correlator_tool.Postgres.Refines.{Stores, view_of, IsTidy, by_source-is_due}
use event_correlator_tool.Postgres.Refines.Ingest.{IsTidy-delete, view_of-close}
use event_correlator_tool.Postgres.Refines.Due.{is_skipped-eq}

-- Tidy tables whose ledger is `l` with those of the trades closed that are due
pub record IsSwept (kept : Time → Time) (expected : List String) (l : Ledger) (now : Time)
    (ids : List String) (t : Tables) : Type 0 where
  pub tidy : IsTidy kept expected t
  pub moved : view_of t ≡ sweep_some ids l now

-- The same for some trades
pub record IsSweptSome (kept : Time → Time) (expected : List String) (l : Ledger) (now : Time)
    (t : Tables) : Type 0 where
  pub ids : List String
  pub swept : IsSwept kept expected l now ids t

-- The trades that a claim has closed
abbrev pub claimed_by : String → Option (List PendingTrade) → List String
claimed_by id none = []
claimed_by id (some events) = id ∷ []

module _ (server : Server) (kept : Time → Time) (stores : Stores server kept)
    (expected : List String) {C : Type 0} (now : Time) (build : BuildBreak C)
    (about : (id : String) → IsAbout id (build id)) (t : Tables)
    (tidy : IsTidy kept expected t) where
  abbrev pub Same : Tables → Type 0
  Same u = u ≡ t

  abbrev pub Some : Tables → Type 0
  Some = IsSweptSome kept expected (view_of t) now

  -- What a claim that returns has committed
  pub record IsClaimed (id : String) (claimed : Option (List PendingTrade)) (u : Tables)
      : Type 0 where
    pub due : contains (claimed_by id claimed) id ≡ true → (view_of t).due id now ≡ true
    pub swept : IsSwept kept expected (view_of t) now (claimed_by id claimed) u

  none_swept : (u : Tables) → Same u → IsSwept kept expected (view_of t) now [] u
  none_swept u e = record {
    tidy = subst (IsTidy kept expected) (sym e) tidy;
    moved = ap view_of e ∙ sym (sweep_some-nil (view_of t) now);
  }

  pub unchanged : (u : Tables) → Same u → Some u
  unchanged u e = record { ids = []; swept = none_swept u e }

  module _ (id : String) where
    some_of : (claimed : Option (List PendingTrade)) (u : Tables) → IsClaimed id claimed u → Some u
    some_of claimed u h = record { ids = claimed_by id claimed; swept = h.swept }

    skipped : (u : Tables) → Same u → IsClaimed id none u
    unfolding contains
    skipped u e = record { due = λ h. cc; swept = none_swept u e }

    abbrev waiting : List PendingTrade
    waiting = server.by_source (rows_of id t.pending)

    closes :
        is_skipped now waiting ≡ false
        → (entry : AuditEntry) (n : ℕ) (u : Tables) (handed : List PendingTrade)
        → entry.trade_id ≡ id
        → u ≡ delete_rows id 0 t
        → IsClaimed id (some handed) (insert_entry server entry n u)
    closes h entry n u handed same e = record {
      due = λ _. due;
      swept = record {
        tidy =
            IsTidy-delete server kept stores t (insert_entry server entry n u) id
              (ap (λ (x : Tables). x.pending) e) tidy;
        moved =
            view_of-close server kept stores t (insert_entry server entry n u) id n entry
              (ap (λ (x : Tables). x.pending) e)
              (ap (λ (x : Tables). x.audit ++ server.recorded n entry ∷ []) e) same
            ∙ sym (sweep_some-one (view_of t) now id due);
      };
    }
      where
        due : is_due now (rows_of id t.pending) ≡ true
        due = ground (
          arith,
          h,
          is_skipped-eq now waiting,
          by_source-is_due server kept stores (rows_of id t.pending) now,
        )

    claim-Finishes :
        is_skipped now waiting ≡ false
        → (events : List PendingTrade)
        → Finishes Same Some unchanged Same (claim server now build id events) (IsClaimed id)
    unfolding claim record_audit
    claim-Finishes h events =
        Finishes-then Same Some unchanged (λ _ u. u ≡ delete_rows id 0 t)
          (execute-Runs Same server _ _ _ (λ n u e. ap (delete_rows id 0) e))
          (λ _.
            Finishes-then Same Some unchanged
              (λ built u. (built.1.trade_id ≡ id) × (u ≡ delete_rows id 0 t))
              (call_build-Runs Same id (build id) events (about id))
              (λ built.
                Finishes-then Same Some unchanged (λ _. IsClaimed id (some built.0))
                  (Runs-then Same (λ _ u. (built.1.trade_id ≡ id) × (u ≡ delete_rows id 0 t))
                    (check-Runs Same _ _ tt)
                    (λ _.
                      execute-Runs Same server _ _ _
                        (λ n u (same, e). closes h built.1 n u built.0 same e)))
                  (λ _. commit-Finishes Same Some unchanged server _ _ (some_of _) (λ u x. x))))

    claim_locked-Finishes :
        Finishes Same Some unchanged Same (claim_locked server now build id) (IsClaimed id)
    unfolding claim_locked
    claim_locked-Finishes =
        Finishes-then Same Some unchanged _ (get_events-Reads Same server id t) (λ events.
          Finishes-given Same Some unchanged (λ e.
            if-Finishes Same Some unchanged (is_skipped now events)
              (λ _. commit-Finishes Same Some unchanged server _ _ (some_of _) skipped)
              (λ due. claim-Finishes (ap (is_skipped now) (sym e) ∙ due) events)))

    -- Where any request may fail, a commit that reports an error may be done all the same, and the lock
    -- may be missing, `claimExpired` closes its trade, which is due, or nothing; and where it returns,
    -- it returns events exactly if it has closed the trade.
    pub claim_expired-Finishes :
        {Q : Tables → Type 0}
        → Finishes Same Some unchanged Q (claim_expired server now build id) (IsClaimed id)
    unfolding claim_expired
    claim_expired-Finishes = transaction-Finishes Same Some unchanged server _ _ (
        Finishes-then Same Some unchanged (λ _. Same) (query-Runs Same server _ _ _ (λ n u q. q))
          (λ locked.
            if-Finishes Same Some unchanged locked (λ _. claim_locked-Finishes)
              (λ _. pure-Finishes Same Some unchanged none skipped)))

    -- The same for the committed tables, whether it returns or not
    pub claim_expired-IsSweptSome :
        (s : Connection C)
        → s.committed ≡ t
        → Some (claim_expired server now build id s).1.committed
    claim_expired-IsSweptSome s same =
        Done-committed Same Some unchanged (IsClaimed id) _ some_of
          ((claim_expired-Finishes {Q = λ _. Unit}).done s same tt)
