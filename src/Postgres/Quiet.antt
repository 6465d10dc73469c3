-- ===== src/Postgres/Quiet.antt =====
-- The requests of postgres.go to a database that reports no error.
pub mod Ingest
pub mod Sweep
use event_correlator_tool.Common.{
  ℕ, suc, String, Bool, true, false, Option, none, some, List, [], ◌∷◌, ◌≡◌, refl, ap, subst, sym,
  ◌∙◌, arith, if◌then◌else◌, Result, ok, err, panic,
}
use event_correlator_tool.Model.{AuditEntry}
use event_correlator_tool.Store.{PendingTrade, Built, BuildAudit}
use event_correlator_tool.Postgres.{Tables, Server, Connection, Action}
use event_correlator_tool.Postgres.Session.{
  pure, check, follow, ◌>>=◌, query, read, execute, begin, commit, scan, deferred_rollback,
}
use event_correlator_tool.Postgres.Queries.{get_events, record_audit, rows_of, insert_entry}
use event_correlator_tool.Postgres.Ingest.{call_build}

-- A server that reports no error, and encodes every list of sources
pub record IsQuiet (server : Server) : Type 0 where
  pub sound : (n : ℕ) → server.fault n ≡ none
  pub encodes : (sources : List String) → server.marshal_error sources ≡ none

-- A connection without its number of requests
pub record View (C : Type 0) : Type 0 where
  pub committed : Tables
  pub work : Tables
  pub captured : C

abbrev pub at : {C : Type 0} → View C → ℕ → Connection C
at v n = record { requests = n; committed = v.committed; work = v.work; captured = v.captured }

-- From `v` the code returns `a` and leaves `w`, whatever the number of requests.
pub record Gives {C A : Type 0} (m : Action C A) (v : View C) (a : A) (w : View C) : Type 0 where
  pub runs : (n : ℕ) → (k : ℕ) × (m (at v n) ≡ (ok a, at w k))

-- From `v` the code returns a value and leaves a connection that are in `R`.
pub record Ends {C A : Type 0} (m : Action C A) (v : View C) (R : A → View C → Type 0)
    : Type 0 where
  pub runs : (n : ℕ) → (k : ℕ) × (a : A) × (w : View C) × (m (at v n) ≡ (ok a, at w k)) × R a w

module _ {C A : Type 0} where
  pub Gives-Ends :
      {m : Action C A} {v : View C} {a : A} {w : View C} {R : A → View C → Type 0}
      → Gives m v a w
      → R a w
      → Ends m v R
  Gives-Ends {a} {w} g r = record { runs = λ n. let (k, e) = g.runs n in (k, a, w, e, r) }

  pub Ends-weaken :
      {m : Action C A} {v : View C} {R S : A → View C → Type 0}
      → Ends m v R
      → ((a : A) (w : View C) → R a w → S a w)
      → Ends m v S
  Ends-weaken h f = record { runs = λ n. let (k, a, w, e, r) = h.runs n in (k, a, w, e, f a w r) }

  pub Gives-then :
      {B : Type 0} {m : Action C A} (f : A → Action C B) {v : View C} {a : A} {w : View C} {b : B}
      {x : View C}
      → Gives m v a w
      → Gives (f a) w b x
      → Gives (m >>= f) v b x
  unfolding ◌>>=◌
  Gives-then f g h = record {
    runs = λ n. let (k, e) = g.runs n in let (l, d) = h.runs k in (l, ap (λ r. follow r f) e ∙ d);
  }

  pub Ends-then :
      {B : Type 0} {m : Action C A} (f : A → Action C B) {v : View C} {a : A} {w : View C}
      {R : B → View C → Type 0}
      → Gives m v a w
      → Ends (f a) w R
      → Ends (m >>= f) v R
  unfolding ◌>>=◌
  Ends-then f g h = record {
    runs = λ n.
        let (k, e) = g.runs n in
        let (l, b, x, d, r) = h.runs k in (l, b, x, ap (λ y. follow y f) e ∙ d, r);
  }

  pub Ends-bind :
      {B : Type 0} {m : Action C A} (f : A → Action C B) {v : View C} {Q : A → View C → Type 0}
      {R : B → View C → Type 0}
      → Ends m v Q
      → ((a : A) (w : View C) → Q a w → Ends (f a) w R)
      → Ends (m >>= f) v R
  unfolding ◌>>=◌
  Ends-bind f g h = record {
    runs = λ n.
        let (k, a, w, e, q) = g.runs n in
        let (l, b, x, d, r) = (h a w q).runs k in (l, b, x, ap (λ y. follow y f) e ∙ d, r);
  }

  pub rollback-Ends :
      {m : Action C A} {v : View C} {R : A → View C → Type 0}
      → Ends m v (λ a w. R a (record w { work = w.committed }))
      → Ends (deferred_rollback m) v R
  unfolding deferred_rollback
  rollback-Ends h = record {
    runs = λ n.
        let (k, a, w, e, r) = h.runs n in
        (
          k,
          a,
          record w { work = w.committed },
          ap (λ y. (y.0, record y.1 { work = y.1.committed })) e,
          r,
        );
  }

  pub pure-Gives : (a : A) (v : View C) → Gives (pure a) v a v
  pure-Gives a v = record { runs = λ n. (n, refl) }

  pub check-Gives :
      {e : Option String} (label : String) (a : A)
      → e ≡ none
      → (v : View C) → Gives (check label e a) v a v
  check-Gives {e} label a h v = record { runs = λ n. (n, ap (λ o. check label o a (at v n)) h) }

module _ (server : Server) (q : IsQuiet server) {C : Type 0} where
  pub query-Gives :
      {A : Type 0} (label : String) (f : Tables → A) (v : View C)
      → Gives (query server label (λ n t. f t)) v (f v.work) v
  unfolding query
  query-Gives label f v = record { runs = λ n. (suc n, rw (q.sound n, query) refl) }

  -- A query whose answer does not depend on the request
  pub query-Gives_of :
      {A : Type 0} (label : String) (f : ℕ → Tables → A) (v : View C) (a : A)
      → ((n : ℕ) → f n v.work ≡ a)
      → Gives (query server label f) v a v
  unfolding query
  query-Gives_of label f v a h = record {
    runs = λ n. (suc n, rw (q.sound n, query) (ap (λ x. (ok x, at v (suc n))) (h n)));
  }

  pub read-Gives :
      {A : Type 0} (label : String) (f : Tables → A) (v : View C)
      → Gives (read server label (λ n t. f t)) v (f v.committed) v
  unfolding read
  read-Gives label f v = record { runs = λ n. (suc n, rw (q.sound n, read) refl) }

  pub begin-Gives :
      (label : String) (v : View C)
      → Gives (begin server label) v tt (record v { work = v.committed })
  unfolding begin
  begin-Gives label v = record { runs = λ n. (suc n, rw (q.sound n, begin) refl) }

  pub commit-Gives :
      {A : Type 0} (label : String) (a : A) (v : View C)
      → Gives (commit server label a) v a (record v { committed = v.work })
  unfolding commit
  commit-Gives label a v = record { runs = λ n. (suc n, rw (q.sound n, commit) refl) }

  pub execute-Gives :
      (label : String) (f : Tables → Tables) (v : View C)
      → Gives (execute server label (λ n t. f t)) v tt (record v { work = f v.work })
  unfolding execute
  execute-Gives label f v = record { runs = λ n. (suc n, rw (q.sound n, execute) refl) }

  pub scan-Gives :
      {A : Type 0} (label : String) (rows : List A) (v : View C)
      → Gives (scan server label rows) v rows v
  unfolding scan
  scan-Gives label [] v = pure-Gives [] v
  scan-Gives label (row ∷ rows) v =
      Gives-then _ (query-Gives label (λ t. row) v)
        (Gives-then _ (scan-Gives label rows v) (pure-Gives (row ∷ rows) v))

  pub get_events-Gives :
      (id : String) (v : View C)
      → Gives (get_events server id) v (server.by_source (rows_of id v.work.pending)) v
  unfolding get_events
  get_events-Gives id v =
      Gives-then _ (query-Gives _ (λ t. server.by_source (rows_of id t.pending)) v) (
        Gives-then _ (scan-Gives _ _ v)
          (query-Gives _ (λ t. server.by_source (rows_of id v.work.pending)) v))

  pub call_build-Gives :
      (build : BuildAudit C) (events : List PendingTrade) (v : View C) (b : Built C)
      → build v.captured events ≡ some b
      → Gives (call_build build events) v (b.events, b.entry) (record v { captured = b.captured })
  unfolding call_build
  call_build-Gives build events v b e = record { runs = λ n. (n, rw (e, call_build) refl) }

  execute-eq :
      (label : String) (f : ℕ → Tables → Tables) (v : View C) (n : ℕ)
      → execute server label f (at v n) ≡ (ok tt, at (record v { work = f n v.work }) (suc n))
  unfolding execute
  execute-eq label f v n = rw (q.sound n, execute) refl

  record_audit-eq :
      (entry : AuditEntry) (v : View C) (n : ℕ)
      → record_audit server entry (at v n)
        ≡ (ok tt, at (record v { work = insert_entry server entry n v.work }) (suc n))
  unfolding record_audit ◌>>=◌
  record_audit-eq entry v n =
      ap
        (λ o.
          follow (check "marshal audit sources: " o tt (at v n))
            (λ _. execute server "record audit: " (insert_entry server entry)))
        (q.encodes entry.sources)
      ∙ execute-eq "record audit: " (insert_entry server entry) v n

  -- Recording an entry appends it, with an id and a time that depend on the request.
  pub record_audit-then :
      {B : Type 0} (entry : AuditEntry) (f : Unit → Action C B) (v : View C)
      (R : B → View C → Type 0)
      → ((n : ℕ) → Ends (f tt) (record v { work = insert_entry server entry n v.work }) R)
      → Ends (record_audit server entry >>= f) v R
  unfolding ◌>>=◌
  record_audit-then entry f v R h = record {
    runs = λ n.
        let (k, b, w, e, r) = (h n).runs (suc n) in
        (k, b, w, ap (λ y. follow y f) (record_audit-eq entry v n) ∙ e, r);
  }
