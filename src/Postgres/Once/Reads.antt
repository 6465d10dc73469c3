-- ===== src/Postgres/Once/Reads.antt =====
-- What requests of postgres.go do to tables that are known, whether the database reports an error or
-- not.
use event_correlator_tool.Common.{String, not, List, ◌≡◌, ◌∙◌, ap}
use event_correlator_tool.Store.{PendingTrade}
use event_correlator_tool.Postgres.{Tables, Server}
use event_correlator_tool.Postgres.Queries.{get_events, rows_of}
use event_correlator_tool.Postgres.Ingest.{conflicts, insert_row, insert_pending}
use event_correlator_tool.Postgres.Once.{Runs, Runs-then, query-Runs, execute-Runs, scan-Runs}

module _ (P : Tables → Type 0) (server : Server) {C : Type 0} where
  -- What is read of known tables
  pub get_events-Reads :
      (id : String) (u : Tables)
      → Runs P {C = C}
          (λ t. t ≡ u)
          (get_events server id)
          (λ rows t. (rows ≡ server.by_source (rows_of id u.pending)) × (t ≡ u))
  unfolding get_events
  get_events-Reads id u =
      let F : List PendingTrade → Type 0 = λ rows. rows ≡ server.by_source (rows_of id u.pending) in
      Runs-then P (λ rows t. F rows × (t ≡ u))
        (query-Runs P server _ _ _
          (λ n t q. (ap (λ (x : Tables). server.by_source (rows_of id x.pending)) q, q)))
        (λ rows.
          Runs-then P (λ l t. (l ≡ rows) × (F rows × (t ≡ u))) (scan-Runs P server _ rows)
            (λ l. query-Runs P server _ _ _ (λ n t (a, (b, q)). (a ∙ b, q))))

  pub insert_pending-Inserts :
      (row : PendingTrade) (u : Tables)
      → Runs P {C = C}
          (λ t. t ≡ u)
          (insert_pending server row)
          (λ fresh t. (fresh ≡ not (conflicts row u.pending)) × (t ≡ insert_row server row 0 u))
  unfolding insert_pending
  insert_pending-Inserts row u = record {
    leaves = λ s p q.
        (Runs-then P (λ _ t. t ≡ insert_row server row 0 u)
            (execute-Runs P server "record event: " (insert_row server row) _
              (λ n t e. ap (insert_row server row 0) e))
            (λ _.
              query-Runs P server "read insert result: " (λ n t. not (conflicts row s.work.pending))
                _ (λ n t e. (ap (λ (x : Tables). not (conflicts row x.pending)) q, e)))).leaves
          s p q;
  }
