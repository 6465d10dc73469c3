-- ===== src/Postgres/Calm.antt =====
-- Code of postgres.go that does not panic, whether the database reports an error or not.
use event_correlator_tool.Common.{
  Bool, true, false, String, Option, none, some, List, [], ◌∷◌, ◌≡◌, ◌≢◌, refl, arith,
  if◌then◌else◌, Result, ok, err, panic, Option-cases, inl, inr,
}
use event_correlator_tool.Model.{AuditEntry}
use event_correlator_tool.Store.{PendingTrade, BuildAudit}
use event_correlator_tool.Postgres.{Tables, Server, Connection, Action}
use event_correlator_tool.Postgres.Session.{
  pure, check, follow, ◌>>=◌, query, read, execute, begin, commit, scan, deferred_rollback,
}
use event_correlator_tool.Postgres.Queries.{get_events, record_audit}
use event_correlator_tool.Postgres.Ingest.{call_build, insert_pending}
use event_correlator_tool.Postgres.Once.{Leaves, Runs, begin-Runs}

module _ {C : Type 0} where
  -- Code that never panics
  pub record IsSteady {A : Type 0} (m : Action C A) : Type 0 where
    pub steady : (s : Connection C) → (m s).0 ≢ panic

  pub follow-ne-panic :
      {A B : Type 0} (x : Result A × Connection C) (f : A → Action C B)
      → x.0 ≢ panic
      → ((a : A) → x.0 ≡ ok a → (f a x.1).0 ≢ panic)
      → (follow x f).0 ≢ panic
  follow-ne-panic (ok a, s) f h k = k a refl
  follow-ne-panic (err e, s) f h k = λ q. cc
  follow-ne-panic (panic, s) f h k = absurd (h refl)

  pub IsSteady-then :
      {A B : Type 0} {m : Action C A} {f : A → Action C B}
      → IsSteady m
      → ((a : A) → IsSteady (f a))
      → IsSteady (m >>= f)
  unfolding ◌>>=◌
  IsSteady-then {m} {f} g h = record {
    steady = λ s. follow-ne-panic (m s) f (g.steady s) (λ a e. (h a).steady (m s).1);
  }

  pub pure-IsSteady : {A : Type 0} (a : A) → IsSteady (pure a)
  pure-IsSteady a = record { steady = λ s e. cc }

  pub check-IsSteady :
      {A : Type 0} (label : String) (e : Option String) (a : A) → IsSteady (check label e a)
  check-IsSteady label none a = record { steady = λ s e. cc }
  check-IsSteady label (some m) a = record { steady = λ s e. cc }

  module _ (server : Server) where
    pub query-IsSteady :
        {A : Type 0} (label : String) (f : _) → IsSteady {A = A} (query server label f)
    unfolding query
    query-IsSteady label f = record { steady = λ s e. ground arith }

    pub read-IsSteady :
        {A : Type 0} (label : String) (f : _) → IsSteady {A = A} (read server label f)
    unfolding read
    read-IsSteady label f = record { steady = λ s e. ground arith }

    pub execute-IsSteady : (label : String) (f : _) → IsSteady (execute server label f)
    unfolding execute
    execute-IsSteady label f = record { steady = λ s e. ground arith }

    pub begin-IsSteady : (label : String) → IsSteady (begin server label)
    unfolding begin
    begin-IsSteady label = record { steady = λ s e. ground arith }

    pub commit-IsSteady : {A : Type 0} (label : String) (a : A) → IsSteady (commit server label a)
    unfolding commit
    commit-IsSteady label a = record { steady = λ s e. ground arith }

    pub scan-IsSteady : {A : Type 0} (label : String) (l : List A) → IsSteady (scan server label l)
    unfolding scan
    scan-IsSteady label [] = pure-IsSteady []
    scan-IsSteady label (a ∷ l) =
        IsSteady-then (query-IsSteady label _)
          (λ x. IsSteady-then (scan-IsSteady label l) (λ rest. pure-IsSteady (x ∷ rest)))

    pub get_events-IsSteady : (id : String) → IsSteady (get_events server id)
    unfolding get_events
    get_events-IsSteady id =
        IsSteady-then (query-IsSteady _ _)
          (λ rows. IsSteady-then (scan-IsSteady _ rows) (λ events. query-IsSteady _ _))

    pub record_audit-IsSteady : (entry : AuditEntry) → IsSteady (record_audit server entry)
    unfolding record_audit
    record_audit-IsSteady entry = IsSteady-then (check-IsSteady _ _ tt) (λ _. execute-IsSteady _ _)

    pub insert_pending-IsSteady : (row : PendingTrade) → IsSteady (insert_pending server row)
    unfolding insert_pending
    insert_pending-IsSteady row = record {
      steady = λ s.
          (IsSteady-then (execute-IsSteady "record event: " _)
              (λ _. query-IsSteady "read insert result: " _)).steady
            s;
    }

  module _ (P : Tables → Type 0) where
    -- Code that does not panic where it starts with committed tables in `P` and tables of the
    -- transaction in `Q`
    pub record IsCalm {A : Type 0} (Q : Tables → Type 0) (m : Action C A) : Type 0 where
      pub calm : (s : Connection C) → P s.committed → Q s.work → (m s).0 ≢ panic

    pub IsCalm-steady :
        {A : Type 0} {Q : Tables → Type 0} {m : Action C A} → IsSteady m → IsCalm Q m
    IsCalm-steady g = record { calm = λ s p q. g.steady s }

    pub follow-IsCalm :
        {A B : Type 0} {R : A → Tables → Type 0} (x : Result A × Connection C) (f : A → Action C B)
        → Leaves P R x
        → x.0 ≢ panic
        → ((a : A) → IsCalm (R a) (f a))
        → (follow x f).0 ≢ panic
    follow-IsCalm (ok a, s) f h n k = (k a).calm s h.0 h.1
    follow-IsCalm (err e, s) f h n k = λ q. cc
    follow-IsCalm (panic, s) f h n k = absurd (n refl)

    pub IsCalm-then :
        {A B : Type 0} {Q : Tables → Type 0} {m : Action C A} {f : A → Action C B}
        (R : A → Tables → Type 0)
        → Runs P Q m R
        → IsSteady m
        → ((a : A) → IsCalm (R a) (f a))
        → IsCalm Q (m >>= f)
    unfolding ◌>>=◌
    IsCalm-then {m} {f} R g n h = record {
      calm = λ s p q. follow-IsCalm (m s) f (g.leaves s p q) (n.steady s) h;
    }

    pub IsCalm-given :
        {A : Type 0} {F : Type 0} {Q : Tables → Type 0} {m : Action C A}
        → (F → IsCalm Q m)
        → IsCalm (λ t. F × Q t) m
    IsCalm-given f = record { calm = λ s p (e, q). (f e).calm s p q }

    pub IsCalm-from :
        {A : Type 0} {Q Q' : Tables → Type 0} {m : Action C A}
        → IsCalm Q m
        → ((t : Tables) → Q' t → Q t)
        → IsCalm Q' m
    IsCalm-from g h = record { calm = λ s p q. g.calm s p (h s.work q) }

    pub if-IsCalm :
        {A : Type 0} {Q : Tables → Type 0} (b : Bool) {l r : Action C A}
        → (b ≡ true → IsCalm Q l)
        → (b ≡ false → IsCalm Q r)
        → IsCalm Q (if b then l else r)
    if-IsCalm true g h = g refl
    if-IsCalm false g h = h refl

    -- The closure returns for these events.
    pub call_build-IsCalm :
        {B : Type 0} {Q : Tables → Type 0} (build : BuildAudit C) (events : List PendingTrade)
        {f : List PendingTrade × AuditEntry → Action C B}
        → ((c : C) → build c events ≢ none)
        → ((built : List PendingTrade × AuditEntry) → IsSteady (f built))
        → IsCalm Q (call_build build events >>= f)
    unfolding call_build ◌>>=◌
    call_build-IsCalm build events {f} returns h = record {
      calm = λ s p q. elim (Option-cases (build s.captured events)) [
        | inl e ↦ absurd (returns s.captured e)
        | inr (b, e) ↦ rw (e, call_build) ((h (b.events, b.entry)).steady _)
      ];
    }

    -- The whole transaction: it starts on the committed tables.
    pub transaction-IsCalm :
        {A : Type 0} {Q : Tables → Type 0} (server : Server) (label : String)
        (f : Unit → Action C A)
        → IsCalm P (f tt)
        → IsCalm Q (deferred_rollback (begin server label >>= f))
    unfolding deferred_rollback
    transaction-IsCalm server label f g = record {
      calm =
          (IsCalm-then (λ _. P) (begin-Runs P server label) (begin-IsSteady server label)
            (λ _. g)).calm;
    }
