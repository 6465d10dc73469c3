-- ===== src/Postgres/Rows.antt =====
-- The requests of postgres.go, and properties of the tables.
pub mod Methods
pub mod Audit
pub mod Keys
use event_correlator_tool.Common.{
  ℕ, String, Bool, true, false, not, ◌&&◌, ◌||◌, Option, none, some, List, [], ◌∷◌, ◌++◌, ◌≡◌, refl,
  sym, ap, ◌∙◌, arith, ◌==◌, if◌then◌else◌, keep, Result, ok, err, panic, Option-cases, inl, inr,
}
use event_correlator_tool.Common.Dict
use event_correlator_tool.Common.Dict.{Dict}
use event_correlator_tool.Clock.{Time}
use event_correlator_tool.Model.{AuditEntry}
use event_correlator_tool.Store.{PendingTrade, IngestResult, BuildAudit, BuildBreak}
use event_correlator_tool.Postgres.{Tables, Server, Connection, Action}
use event_correlator_tool.Postgres.Session.{
  pure, check, follow, ◌>>=◌, query, read, execute, begin, commit, scan, deferred_rollback,
}
use event_correlator_tool.Postgres.Queries.{get_events, record_audit, delete_rows, insert_entry}
use event_correlator_tool.Postgres.Ingest.{
  call_build, insert_row, insert_pending, reconcile, inserted, ingest_open, ingest, conflicts,
}
use event_correlator_tool.Postgres.Sweep.{
  claim, claim_locked, claim_expired, claim_all, sweep_expired,
}

-- The committed tables, and those of the transaction, have the property.
pub record Holds (P : Tables → Type 0) {C : Type 0} (s : Connection C) : Type 0 where
  pub committed : P s.committed
  pub work : P s.work

pub record Saves (P : Tables → Type 0) {C A : Type 0} (m : Action C A) : Type 0 where
  pub holds : (s : Connection C) → Holds P s → Holds P (m s).1

if-Holds : (P : Tables → Type 0) (b : Bool) (t u : Tables) → P t → P u → P (if b then t else u)
if-Holds P true t u p q = p
if-Holds P false t u p q = q

module _ {P : Tables → Type 0} {C : Type 0} where
  follow-Holds :
      {A B : Type 0} (x : Result A × Connection C) (f : A → Action C B)
      → Holds P x.1
      → ((a : A) → Saves P (f a))
      → Holds P (follow x f).1
  follow-Holds (ok a, s) f h k = (k a).holds s h
  follow-Holds (err e, s) f h k = h
  follow-Holds (panic, s) f h k = h

  pub Saves-then :
      {A B : Type 0} {m : Action C A} {f : A → Action C B}
      → Saves P m
      → ((a : A) → Saves P (f a))
      → Saves P (m >>= f)
  unfolding ◌>>=◌
  Saves-then {m} {f} k l = record { holds = λ s h. follow-Holds (m s) f (k.holds s h) l }

  pub pure-Saves : {A : Type 0} (a : A) → Saves P {C = C} (pure a)
  pure-Saves a = record { holds = λ s h. h }

  pub if-Saves :
      {A : Type 0} (b : Bool) {l r : Action C A}
      → Saves P l
      → Saves P r
      → Saves P (if b then l else r)
  if-Saves true k m = k
  if-Saves false k m = m

  pub check-Saves :
      {A : Type 0} (label : String) (e : Option String) (a : A) → Saves P {C = C} (check label e a)
  check-Saves label none a = record { holds = λ s h. h }
  check-Saves label (some e) a = record { holds = λ s h. h }

  pub deferred_rollback-Saves :
      {A : Type 0} {m : Action C A} → Saves P m → Saves P (deferred_rollback m)
  unfolding deferred_rollback
  deferred_rollback-Saves k = record {
    holds = λ s h. let h' = k.holds s h in record { committed = h'.committed; work = h'.committed };
  }

  pub call_build-Saves :
      (build : BuildAudit C) (events : List PendingTrade) → Saves P (call_build build events)
  unfolding call_build
  call_build-Saves build events = record {
    holds = λ s h. elim (Option-cases (build s.captured events)) [
      | inl e ↦ rw (e, call_build) h
      | inr (b, e) ↦ rw (e, call_build) (record { committed = h.committed; work = h.work })
    ];
  }

  module _ (server : Server) where
    pub query-Saves :
        {A : Type 0} (label : String) (f : ℕ → Tables → A) → Saves P (query server {C = C} label f)
    unfolding query
    query-Saves label f = record {
      holds = λ s h. elim (Option-cases (server.fault s.requests)) [
        | inl e ↦ rw (e, query) (record { committed = h.committed; work = h.work })
        | inr (t, e) ↦ rw (e, query) (record { committed = h.committed; work = h.work })
      ];
    }

    pub read-Saves :
        {A : Type 0} (label : String) (f : ℕ → Tables → A) → Saves P (read server {C = C} label f)
    unfolding read
    read-Saves label f = record {
      holds = λ s h. elim (Option-cases (server.fault s.requests)) [
        | inl e ↦ rw (e, read) (record { committed = h.committed; work = h.work })
        | inr (t, e) ↦ rw (e, read) (record { committed = h.committed; work = h.work })
      ];
    }

    pub execute-Saves :
        (label : String) (f : ℕ → Tables → Tables)
        → ((n : ℕ) (t : Tables) → P t → P (f n t))
        → Saves P (execute server {C = C} label f)
    unfolding execute
    execute-Saves label f k = record {
      holds = λ s h. elim (Option-cases (server.fault s.requests)) [
        | inl e ↦
            rw (e, execute) (record { committed = h.committed; work = k s.requests s.work h.work })
        | inr (t, e) ↦ rw (e, execute) (record { committed = h.committed; work = h.work })
      ];
    }

    pub begin-Saves : (label : String) → Saves P (begin server {C = C} label)
    unfolding begin
    begin-Saves label = record {
      holds = λ s h. elim (Option-cases (server.fault s.requests)) [
        | inl e ↦ rw (e, begin) (record { committed = h.committed; work = h.committed })
        | inr (t, e) ↦ rw (e, begin) (record { committed = h.committed; work = h.work })
      ];
    }

    pub commit-Saves :
        {A : Type 0} (label : String) (a : A) → Saves P (commit server {C = C} label a)
    unfolding commit
    commit-Saves label a = record {
      holds = λ s h. elim (Option-cases (server.fault s.requests)) [
        | inl e ↦ rw (e, commit) (record { committed = h.work; work = h.work })
        | inr (t, e) ↦
            rw (e, commit)
              (record {
                committed =
                    if-Holds P (server.kept s.requests) s.work s.committed h.work h.committed;
                work = h.work;
              })
      ];
    }

    pub scan-Saves :
        {A : Type 0} (label : String) (rows : List A) → Saves P (scan server {C = C} label rows)
    unfolding scan
    scan-Saves label [] = pure-Saves []
    scan-Saves label (row ∷ rows) =
        Saves-then (query-Saves label (λ n t. row))
          (λ a. Saves-then (scan-Saves label rows) (λ rest. pure-Saves (a ∷ rest)))

    pub get_events-Saves : (id : String) → Saves P (get_events server {C = C} id)
    unfolding get_events
    get_events-Saves id =
        Saves-then (query-Saves _ _)
          (λ rows. Saves-then (scan-Saves _ rows) (λ events. query-Saves _ _))
