-- ===== src/Postgres/Atomic.antt =====
-- What `Ingest` and `claimExpired` of postgres.go leave where they fail.
use event_correlator_tool.Common.{
  ℕ, String, Bool, true, false, Option, none, some, List, [], ◌∷◌, ◌≡◌, refl, ◌∙◌, arith,
  if◌then◌else◌, Result, ok, err, panic,
}
use event_correlator_tool.Clock.{Time}
use event_correlator_tool.Model.{AuditEntry}
use event_correlator_tool.Store.{PendingTrade, BuildAudit, BuildBreak}
use event_correlator_tool.Postgres.{Tables, Server, Connection, Action}
use event_correlator_tool.Postgres.Session.{
  pure, check, follow, ◌>>=◌, query, execute, begin, commit, scan, deferred_rollback,
}
use event_correlator_tool.Postgres.Queries.{get_events, record_audit}
use event_correlator_tool.Postgres.Ingest.{
  call_build, insert_pending, reconcile, inserted, ingest_open, ingest,
}
use event_correlator_tool.Postgres.Sweep.{claim, claim_locked, claim_expired}

abbrev pub failed {ℓ} : {A : Type ℓ} → Result A → Bool
failed (ok a) = false
failed (err e) = true
failed panic = true

-- The code commits nothing.
record Keeps {C A : Type 0} (m : Action C A) : Type 0 where
  same : (s : Connection C) → (m s).1.committed ≡ s.committed

-- Where the code fails, it has committed nothing.
pub record RollsBack {C A : Type 0} (m : Action C A) : Type 0 where
  pub unchanged : (s : Connection C) → failed (m s).0 ≡ true → (m s).1.committed ≡ s.committed

module _ {C A B : Type 0} where
  follow-committed :
      (x : Result A × Connection C) (f : A → Action C B)
      → ((a : A) → Keeps (f a))
      → (follow x f).1.committed ≡ x.1.committed
  follow-committed (ok a, s) f k = (k a).same s
  follow-committed (err e, s) f k = refl
  follow-committed (panic, s) f k = refl

  follow-failed :
      (x : Result A × Connection C) (f : A → Action C B)
      → ((a : A) → RollsBack (f a))
      → failed (follow x f).0 ≡ true
      → (follow x f).1.committed ≡ x.1.committed
  follow-failed (ok a, s) f k h = (k a).unchanged s h
  follow-failed (err e, s) f k h = refl
  follow-failed (panic, s) f k h = refl

  Keeps-then :
      {m : Action C A} {f : A → Action C B} → Keeps m → ((a : A) → Keeps (f a)) → Keeps (m >>= f)
  unfolding ◌>>=◌
  Keeps-then {m} {f} k l = record { same = λ s. follow-committed (m s) f l ∙ k.same s }

  RollsBack-then :
      {m : Action C A} {f : A → Action C B}
      → Keeps m
      → ((a : A) → RollsBack (f a))
      → RollsBack (m >>= f)
  unfolding ◌>>=◌
  RollsBack-then {m} {f} k l = record { unchanged = λ s h. follow-failed (m s) f l h ∙ k.same s }

module _ (server : Server) {C : Type 0} where
  pure-Keeps : {A : Type 0} (a : A) → Keeps {C = C} (pure a)
  pure-Keeps a = record { same = λ s. refl }

  query-Keeps :
      {A : Type 0} (label : String) (f : ℕ → Tables → A) → Keeps (query server {C = C} label f)
  unfolding query
  query-Keeps label f = record { same = λ s. ground arith }

  execute-Keeps :
      (label : String) (f : ℕ → Tables → Tables) → Keeps (execute server {C = C} label f)
  unfolding execute
  execute-Keeps label f = record { same = λ s. ground arith }

  begin-Keeps : (label : String) → Keeps (begin server {C = C} label)
  unfolding begin
  begin-Keeps label = record { same = λ s. ground arith }

  check-Keeps :
      {A : Type 0} (label : String) (e : Option String) (a : A) → Keeps {C = C} (check label e a)
  check-Keeps label none a = record { same = λ s. refl }
  check-Keeps label (some e) a = record { same = λ s. refl }

  scan-Keeps :
      {A : Type 0} (label : String) (rows : List A) → Keeps (scan server {C = C} label rows)
  unfolding scan
  scan-Keeps label [] = pure-Keeps []
  scan-Keeps label (row ∷ rows) =
      Keeps-then (query-Keeps label (λ n t. row))
        (λ a. Keeps-then (scan-Keeps label rows) (λ rest. pure-Keeps (a ∷ rest)))

  get_events-Keeps : (id : String) → Keeps (get_events server {C = C} id)
  unfolding get_events
  get_events-Keeps id =
      Keeps-then (query-Keeps _ _)
        (λ rows. Keeps-then (scan-Keeps _ rows) (λ events. query-Keeps _ _))

  record_audit-Keeps : (entry : AuditEntry) → Keeps (record_audit server {C = C} entry)
  unfolding record_audit
  record_audit-Keeps entry = Keeps-then (check-Keeps _ _ _) (λ _. execute-Keeps _ _)

  call_build-Keeps :
      (build : BuildAudit C) (events : List PendingTrade) → Keeps (call_build build events)
  unfolding call_build
  call_build-Keeps build events = record { same = λ s. ground arith }

  insert_pending-Keeps : (trade : PendingTrade) → Keeps (insert_pending server {C = C} trade)
  unfolding insert_pending
  insert_pending-Keeps trade = record {
    same = λ s.
        (Keeps-then (execute-Keeps "record event: " _)
            (λ _. query-Keeps "read insert result: " _)).same
          s;
  }

  Keeps-RollsBack : {A : Type 0} {m : Action C A} → Keeps m → RollsBack m
  Keeps-RollsBack k = record { unchanged = λ s h. k.same s }

  deferred_rollback-RollsBack :
      {A : Type 0} {m : Action C A} → RollsBack m → RollsBack (deferred_rollback m)
  unfolding deferred_rollback
  deferred_rollback-RollsBack k = record { unchanged = k.unchanged }

  -- Commits that report an error were not done.
  module _ (lost : (n : ℕ) → server.kept n ≡ false) where
    commit-RollsBack :
        {A : Type 0} (label : String) (a : A) → RollsBack (commit server {C = C} label a)
    unfolding commit
    commit-RollsBack label a = record { unchanged = λ s h. ground (arith, lost s.requests) }

    if-RollsBack :
        {A : Type 0} (b : Bool) {l r : Action C A}
        → RollsBack l
        → RollsBack r
        → RollsBack (if b then l else r)
    if-RollsBack true k m = k
    if-RollsBack false k m = m

    reconcile-RollsBack :
        (trade : PendingTrade) (events : List PendingTrade) (build : BuildAudit C)
        → RollsBack (reconcile server trade events build)
    unfolding reconcile
    reconcile-RollsBack trade events build = RollsBack-then (execute-Keeps _ _) (λ _.
        RollsBack-then (call_build-Keeps build events)
          (λ built. RollsBack-then (record_audit-Keeps _) (λ _. commit-RollsBack _ _)))

    inserted-RollsBack :
        (trade : PendingTrade) (expected : List String) (build : BuildAudit C)
        → RollsBack (inserted server trade expected build)
    unfolding inserted
    inserted-RollsBack trade expected build =
        RollsBack-then (get_events-Keeps _)
          (λ events. if-RollsBack _ (reconcile-RollsBack trade _ build) (commit-RollsBack _ _))

    ingest_open-RollsBack :
        (trade : PendingTrade) (expected : List String) (build : BuildAudit C)
        → RollsBack (ingest_open server trade expected build)
    unfolding ingest_open
    ingest_open-RollsBack trade expected build = RollsBack-then (get_events-Keeps _) (λ existing.
        RollsBack-then (insert_pending-Keeps _) (λ fresh.
          if-RollsBack fresh (inserted-RollsBack trade expected build) (commit-RollsBack _ _)))

    -- Where `Ingest` fails at any of its requests, or its closure panics, and commits that report an
    -- error were not done, the committed tables are as they were.
    pub ingest-RollsBack :
        (trade : PendingTrade) (expected : List String) (build : BuildAudit C)
        → RollsBack (ingest server trade expected build)
    unfolding ingest
    ingest-RollsBack trade expected build = deferred_rollback-RollsBack (
        RollsBack-then (begin-Keeps _) (λ _. RollsBack-then (query-Keeps _ _) (λ _.
          RollsBack-then (query-Keeps _ _) (λ finalized.
            if-RollsBack finalized (commit-RollsBack _ _)
              (ingest_open-RollsBack trade expected build)))))

    module _ (now : Time) (build : BuildBreak C) where
      claim-RollsBack :
          (id : String) (events : List PendingTrade) → RollsBack (claim server now build id events)
      unfolding claim
      claim-RollsBack id events = RollsBack-then (execute-Keeps _ _) (λ _.
          RollsBack-then (call_build-Keeps (build id) events)
            (λ built. RollsBack-then (record_audit-Keeps _) (λ _. commit-RollsBack _ _)))

      claim_locked-RollsBack : (id : String) → RollsBack (claim_locked server now build id)
      unfolding claim_locked
      claim_locked-RollsBack id =
          RollsBack-then (get_events-Keeps _)
            (λ events. if-RollsBack _ (commit-RollsBack _ _) (claim-RollsBack id events))

      -- Where `claimExpired` fails at any of its requests, or its closure panics, and commits that
      -- report an error were not done, the committed tables are as they were.
      pub claim_expired-RollsBack : (id : String) → RollsBack (claim_expired server now build id)
      unfolding claim_expired
      claim_expired-RollsBack id = deferred_rollback-RollsBack (
          RollsBack-then (begin-Keeps _) (λ _. RollsBack-then (query-Keeps _ _) (λ locked.
            if-RollsBack locked (claim_locked-RollsBack id) (Keeps-RollsBack (pure-Keeps none)))))
