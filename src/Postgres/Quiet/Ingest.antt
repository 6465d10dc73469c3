-- ===== src/Postgres/Quiet/Ingest.antt =====
-- What `Ingest` of postgres.go answers and commits where the database reports no error.
use event_correlator_tool.Common.{
  ℕ, String, Bool, true, false, not, ◌||◌, some, List, [], ◌∷◌, ◌++◌, ◌≡◌, inl, inr, refl, ap,
  subst, sym, ◌∙◌, arith, ◌==◌, if◌then◌else◌, keep, Bool-cases,
}
use event_correlator_tool.Store.{PendingTrade, IngestResult, no_result, Built, BuildAudit}
use event_correlator_tool.Memory.{is_finalized}
use event_correlator_tool.Postgres.{Tables, Server, Action}
use event_correlator_tool.Postgres.Session.{commit}
use event_correlator_tool.Postgres.Queries.{rows_of, delete_rows}
use event_correlator_tool.Postgres.Ingest.{
  conflicts, lowered, insert_row, insert_pending, has_every_source, expected_events, reconcile,
  inserted, ingest_open, ingest,
}
use event_correlator_tool.Postgres.Quiet.{
  IsQuiet, View, Gives, Ends, Gives-Ends, Gives-then, Ends-then, rollback-Ends, query-Gives,
  begin-Gives, commit-Gives, execute-Gives, get_events-Gives, call_build-Gives, record_audit-then,
}

module _ {C A : Type 0} {b : Bool} (l r : Action C A) {v : View C} {R : A → View C → Type 0} where
  pub if-true : b ≡ true → Ends l v R → Ends (if b then l else r) v R
  if-true e h = subst (λ x. Ends (if x then l else r) v R) (sym e) h

  pub if-false : b ≡ false → Ends r v R → Ends (if b then l else r) v R
  if-false e h = subst (λ x. Ends (if x then l else r) v R) (sym e) h

pub conflicts-lowered :
    (trade : PendingTrade) (existing rows : List PendingTrade)
    → conflicts (lowered trade existing) rows ≡ conflicts trade rows
unfolding conflicts
conflicts-lowered trade existing [] = refl
conflicts-lowered trade existing (row ∷ rows) =
    ground (arith, conflicts-lowered trade existing rows)

pub insert_row-fresh :
    (server : Server) (trade : PendingTrade) (t : Tables)
    → conflicts trade t.pending ≡ false
    → insert_row server trade 0 t ≡ record t { pending = t.pending ++ server.stored trade ∷ [] }
insert_row-fresh server trade t e = rw (e, insert_row) refl

pub insert_row-duplicate :
    (server : Server) (trade : PendingTrade) (t : Tables)
    → conflicts trade t.pending ≡ true
    → insert_row server trade 0 t ≡ t
insert_row-duplicate server trade t e = rw (e, insert_row) refl

insert_pending-Gives :
    (server : Server) (q : IsQuiet server) {C : Type 0} (trade : PendingTrade) (v : View C)
    → Gives
        (insert_pending server trade)
        v
        (not (conflicts trade v.work.pending))
        (record v { work = insert_row server trade 0 v.work })
unfolding insert_pending
insert_pending-Gives server q trade v = record {
  runs = λ n.
      (Gives-then _ (execute-Gives server q "record event: " (insert_row server trade 0) v) (
          query-Gives server q "read insert result: " (λ t. not (conflicts trade v.work.pending))
            _)).runs
        n;
}

module _ (server : Server) (trade : PendingTrade) (t : Tables) where
  -- The events that the trade has in the database.
  abbrev pub existing : List PendingTrade
  existing = server.by_source (rows_of trade.trade_id t.pending)

  -- The table with the row of the event.
  abbrev pub extended : List PendingTrade
  extended = t.pending ++ server.stored (lowered trade existing) ∷ []

  -- The events that the trade then has.
  abbrev pub events : List PendingTrade
  events = server.by_source (rows_of trade.trade_id extended)

module _ (server : Server) (q : IsQuiet server) {C : Type 0} (trade : PendingTrade)
    (expected : List String) (build : BuildAudit C) (v : View C) where
  abbrev begun : View C
  begun = record v { work = v.committed }

  abbrev grown : View C
  grown = record v { work = record v.committed { pending = (extended server trade v.committed) } }

  ingest-Ends :
      {R : IngestResult → View C → Type 0}
      → Ends
          (if is_finalized v.committed.audit trade.trade_id
            then commit server "commit finalized check: " no_result
            else ingest_open server trade expected build)
          begun
          (λ a w. R a (record w { work = w.committed }))
      → Ends (ingest server trade expected build) v R
  unfolding ingest
  ingest-Ends h = rollback-Ends (
      Ends-then _ (begin-Gives server q _ v) (
        Ends-then _ (query-Gives server q _ (λ t. tt) begun) (
          Ends-then _ (query-Gives server q _ (λ t. is_finalized t.audit trade.trade_id) begun) h)))

  -- `ingest_open` up to the result of its insertion
  ingest_open-Ends :
      {R : IngestResult → View C → Type 0}
      → Ends
          (if not
              (conflicts (lowered trade (existing server trade v.committed)) v.committed.pending)
            then inserted server trade expected build
            else commit server "commit duplicate: " no_result)
          (record begun {
            work =
                insert_row server (lowered trade (existing server trade v.committed)) 0 v.committed;
          })
          R
      → Ends (ingest_open server trade expected build) begun R
  unfolding ingest_open
  ingest_open-Ends h = Ends-then _ (get_events-Gives server q _ begun) (
      Ends-then _
        (insert_pending-Gives server q (lowered trade (existing server trade v.committed)) begun) h)

  -- `INSERT` inserts the row where no row conflicts with the trade as it came.
  fresh-eq :
      (b : Bool)
      → conflicts trade v.committed.pending ≡ b
      → not (conflicts (lowered trade (existing server trade v.committed)) v.committed.pending)
        ≡ not b
  fresh-eq b e =
      ap not (conflicts-lowered trade (existing server trade v.committed) v.committed.pending ∙ e)

  -- Where the trade is finalized, or a row has its trade and source, `Ingest` returns the empty
  -- result, the committed tables are as they were, and the closure is not called.
  pub ingest-refuses :
      (is_finalized v.committed.audit trade.trade_id || conflicts trade v.committed.pending) ≡ true
      → Ends
          (ingest server trade expected build)
          v
          (λ a w. (a ≡ no_result) × (w.captured ≡ v.captured) × (w.committed ≡ v.committed))
  ingest-refuses h = elim (Bool-cases (is_finalized v.committed.audit trade.trade_id)) [
    | inl e ↦
        ingest-Ends
          (if-true _ _ e (Gives-Ends (commit-Gives server q _ _ begun) (refl, refl, refl)))
    | inr e ↦
        let same =
          conflicts-lowered trade (existing server trade v.committed) v.committed.pending in
        let taken : conflicts trade v.committed.pending ≡ true = ground (arith, e, h) in
        ingest-Ends (
          if-false _ _ e (
            ingest_open-Ends (
              if-false _ _ (fresh-eq true taken) (
                Gives-Ends (commit-Gives server q _ _ _)
                  (refl, refl, insert_row-duplicate server _ v.committed (same ∙ taken))))))
  ]

  module _ (open_trade : is_finalized v.committed.audit trade.trade_id ≡ false)
      (fresh : conflicts trade v.committed.pending ≡ false) where
    ingest-inserted :
        {R : IngestResult → View C → Type 0}
        → Ends
            (if has_every_source (events server trade v.committed) expected
              then reconcile server trade
                  (expected_events (events server trade v.committed) expected)
                  build
              else commit server "commit pending event: " (record { inserted = true; events = [] }))
            grown
            (λ a w. R a (record w { work = w.committed }))
        → Ends (ingest server trade expected build) v R
    unfolding inserted
    ingest-inserted {R} h = ingest-Ends (
        if-false _ _ open_trade (
          ingest_open-Ends (
            if-true _ _ (fresh-eq false fresh) (
              subst
                (λ t.
                  Ends (inserted server trade expected build) (record begun { work = t })
                    (λ a w. R a (record w { work = w.committed })))
                (sym (
                  insert_row-fresh server (lowered trade (existing server trade v.committed))
                    v.committed
                    (conflicts-lowered trade (existing server trade v.committed) v.committed.pending
                      ∙ fresh)))
                (Ends-then _ (get_events-Gives server q _ grown) h)))))

    -- Where the trade is open, no row has its trade and source, and an expected source has no event
    -- yet, `Ingest` reports the event as inserted, commits its row, with the deadline lowered to
    -- those of the trade's events, and nothing else, and the closure is not called.
    pub ingest-waits :
        has_every_source (events server trade v.committed) expected ≡ false
        → Ends (ingest server trade expected build) v (λ a w.
          (a ≡ record { inserted = true; events = [] })
          × (w.captured ≡ v.captured)
          × (w.committed ≡ record v.committed { pending = (extended server trade v.committed) }))
    ingest-waits h =
        ingest-inserted
          (if-false _ _ h (Gives-Ends (commit-Gives server q _ _ grown) (refl, refl, refl)))

    -- Where the trade is open, no row has its trade and source, every expected source has then an
    -- event, and the closure returns, `Ingest` reports the closure's events, and commits that the
    -- trade has no rows and that the closure's entry is the last one of the audit log.
    pub ingest-completes :
        (b : Built C)
        → has_every_source (events server trade v.committed) expected ≡ true
        → build v.captured (expected_events (events server trade v.committed) expected) ≡ some b
        → Ends (ingest server trade expected build) v (λ a w.
          (a ≡ record { inserted = true; events = b.events })
          × (w.captured ≡ b.captured)
          × (w.committed.pending
              ≡ keep
                  (λ row. not (row.trade_id == trade.trade_id))
                  (extended server trade v.committed))
          × (n : ℕ) × (w.committed.audit ≡ v.committed.audit ++ server.recorded n b.entry ∷ []))
    unfolding reconcile
    ingest-completes b h e = ingest-inserted (
        if-true _ _ h (
          Ends-then _ (execute-Gives server q _ (delete_rows trade.trade_id 0) grown) (
            Ends-then _ (call_build-Gives server q build _ _ b e) (
              record_audit-then server q b.entry _ _ _
                (λ n. Gives-Ends (commit-Gives server q _ _ _) (refl, refl, refl, n, refl))))))
