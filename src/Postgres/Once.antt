-- ===== src/Postgres/Once.antt =====
-- What a request of postgres.go leaves in a transaction, whether the database reports an error or not.
pub mod Statements
pub mod Reads
pub mod Methods
pub mod Histories
pub mod Finishes
use event_correlator_tool.Common.{
  ℕ, String, Bool, true, false, none, some, Option, List, [], ◌∷◌, ◌≡◌, refl, if◌then◌else◌, Result,
  ok, err, panic, Option-cases, inl, inr, Bool-cases,
}
use event_correlator_tool.Store.{PendingTrade, BuildAudit}
use event_correlator_tool.Model.{AuditEntry}
use event_correlator_tool.Memory.Invariant.{IsAbout}
use event_correlator_tool.Postgres.{Tables, Server, Connection, Action}
use event_correlator_tool.Postgres.Session.{
  pure, check, follow, ◌>>=◌, query, read, execute, begin, commit, scan, deferred_rollback,
}
use event_correlator_tool.Postgres.Ingest.{call_build}

module _ (P : Tables → Type 0) {C : Type 0} where
  -- The committed tables are in `P`, and where the code goes on, its value and the tables of the
  -- transaction are in `R`.
  abbrev pub Leaves : {A : Type 0} → (A → Tables → Type 0) → Result A × Connection C → Type 0
  Leaves R (ok a, s) = P s.committed × R a s.work
  Leaves R (err e, s) = P s.committed
  Leaves R (panic, s) = P s.committed

  -- Code that starts with committed tables in `P` and tables of the transaction in `Q`.
  pub record Runs {A : Type 0} (Q : Tables → Type 0) (m : Action C A) (R : A → Tables → Type 0)
      : Type 0 where
    pub leaves : (s : Connection C) → P s.committed → Q s.work → Leaves R (m s)

  pub Leaves-committed :
      {A : Type 0} (R : A → Tables → Type 0) (x : Result A × Connection C)
      → Leaves R x
      → P x.1.committed
  Leaves-committed R (ok a, s) h = h.0
  Leaves-committed R (err e, s) h = h
  Leaves-committed R (panic, s) h = h

  pub follow-Leaves :
      {A B : Type 0} {R : A → Tables → Type 0} {S : B → Tables → Type 0}
      (x : Result A × Connection C) (f : A → Action C B)
      → Leaves R x
      → ((a : A) → Runs (R a) (f a) S)
      → Leaves S (follow x f)
  follow-Leaves (ok a, s) f h k = (k a).leaves s h.0 h.1
  follow-Leaves (err e, s) f h k = h
  follow-Leaves (panic, s) f h k = h

  pub Runs-then :
      {A B : Type 0} {Q : Tables → Type 0} {m : Action C A} {f : A → Action C B}
      (R : A → Tables → Type 0) {S : B → Tables → Type 0}
      → Runs Q m R
      → ((a : A) → Runs (R a) (f a) S)
      → Runs Q (m >>= f) S
  unfolding ◌>>=◌
  Runs-then {m} {f} R g h = record { leaves = λ s p q. follow-Leaves (m s) f (g.leaves s p q) h }

  pub Runs-from :
      {A : Type 0} {Q Q' : Tables → Type 0} {m : Action C A} {R : A → Tables → Type 0}
      → Runs Q m R
      → ((t : Tables) → Q' t → Q t)
      → Runs Q' m R
  Runs-from g h = record { leaves = λ s p q. g.leaves s p (h s.work q) }

  pub Runs-weaken :
      {A : Type 0} {Q : Tables → Type 0} {m : Action C A} {R S : A → Tables → Type 0}
      → Runs Q m R
      → ((a : A) (t : Tables) → R a t → S a t)
      → Runs Q m S
  Runs-weaken {A} {m} {R} {S} g h = record { leaves = λ s p q. weakened (m s) (g.leaves s p q) }
    where
      weakened : (x : Result A × Connection C) → Leaves R x → Leaves S x
      weakened (ok a, s) (p, r) = (p, h a s.work r)
      weakened (err e, s) p = p
      weakened (panic, s) p = p

  pub if-Runs :
      {A : Type 0} {Q : Tables → Type 0} (b : Bool) {l r : Action C A} {R : A → Tables → Type 0}
      → (b ≡ true → Runs Q l R)
      → (b ≡ false → Runs Q r R)
      → Runs Q (if b then l else r) R
  if-Runs true g h = g refl
  if-Runs false g h = h refl

  pub pure-Runs :
      {A : Type 0} {Q : Tables → Type 0} (a : A) → Runs Q (pure a) (λ x t. (x ≡ a) × Q t)
  pure-Runs a = record { leaves = λ s p q. (p, (refl, q)) }

  pub check-Runs :
      {A : Type 0} {Q : Tables → Type 0} (label : String) (e : Option String) (a : A)
      → Runs Q (check label e a) (λ _. Q)
  check-Runs label none a = record { leaves = λ s p q. (p, q) }
  check-Runs label (some e) a = record { leaves = λ s p q. p }

  pub rollback-Runs :
      {A : Type 0} {Q : Tables → Type 0} {m : Action C A} {R : A → Tables → Type 0}
      → Runs Q m R
      → Runs Q (deferred_rollback m) (λ _ t. P t)
  unfolding deferred_rollback
  rollback-Runs {m} {R} g = record { leaves = λ s p q. ended R (m s) (g.leaves s p q) }
    where
      ended :
          {B : Type 0} (S : B → Tables → Type 0) (x : Result B × Connection C)
          → Leaves S x
          → Leaves (λ _ t. P t) (x.0, record x.1 { work = x.1.committed })
      ended S (ok a, s) h = (h.0, h.0)
      ended S (err e, s) h = h
      ended S (panic, s) h = h

  -- The closure's entry is about the trade.
  pub call_build-Runs :
      {Q : Tables → Type 0} (id : String) (build : BuildAudit C) (events : List PendingTrade)
      → IsAbout id build
      → Runs Q (call_build build events) (λ built t. (built.1.trade_id ≡ id) × Q t)
  unfolding call_build
  call_build-Runs id build events about = record {
    leaves = λ s p q. elim (Option-cases (build s.captured events)) [
      | inl e ↦ rw (e, call_build) p
      | inr (b, e) ↦ rw (e, call_build) (p, (about s.captured events b e, q))
    ];
  }

  module _ (server : Server) where
    pub query-Runs :
        {A : Type 0} {Q : Tables → Type 0} (label : String) (f : ℕ → Tables → A)
        (R : A → Tables → Type 0)
        → ((n : ℕ) (t : Tables) → Q t → R (f n t) t)
        → Runs Q (query server label f) R
    unfolding query
    query-Runs label f R h = record {
      leaves = λ s p q. elim (Option-cases (server.fault s.requests)) [
        | inl e ↦ rw (e, query) (p, h s.requests s.work q)
        | inr (t, e) ↦ rw (e, query) p
      ];
    }

    pub read-Runs :
        {A : Type 0} {Q : Tables → Type 0} (label : String) (f : ℕ → Tables → A)
        → Runs Q (read server label f) (λ _. Q)
    unfolding read
    read-Runs label f = record {
      leaves = λ s p q. elim (Option-cases (server.fault s.requests)) [
        | inl e ↦ rw (e, read) (p, q)
        | inr (t, e) ↦ rw (e, read) p
      ];
    }

    pub execute-Runs :
        {Q : Tables → Type 0} (label : String) (f : ℕ → Tables → Tables) (R : Tables → Type 0)
        → ((n : ℕ) (t : Tables) → Q t → R (f n t))
        → Runs Q (execute server label f) (λ _. R)
    unfolding execute
    execute-Runs label f R h = record {
      leaves = λ s p q. elim (Option-cases (server.fault s.requests)) [
        | inl e ↦ rw (e, execute) (p, h s.requests s.work q)
        | inr (t, e) ↦ rw (e, execute) p
      ];
    }

    pub begin-Runs :
        {Q : Tables → Type 0} (label : String) → Runs Q (begin server label) (λ _ t. P t)
    unfolding begin
    begin-Runs label = record {
      leaves = λ s p q. elim (Option-cases (server.fault s.requests)) [
        | inl e ↦ rw (e, begin) (p, p)
        | inr (t, e) ↦ rw (e, begin) p
      ];
    }

    pub commit-Runs :
        {A : Type 0} {Q : Tables → Type 0} (label : String) (a : A)
        → ((t : Tables) → Q t → P t)
        → Runs Q (commit server label a) (λ _ t. P t)
    unfolding commit
    commit-Runs label a h = record {
      leaves = λ s p q. elim (Option-cases (server.fault s.requests)) [
        | inl e ↦ rw (e, commit) (h s.work q, h s.work q)
        | inr (t, e) ↦
            rw (e, commit) (either (server.kept s.requests) s.work s.committed (h s.work q) p)
      ];
    }
      where
        either : (b : Bool) (t u : Tables) → P t → P u → P (if b then t else u)
        either true t u p q = p
        either false t u p q = q

    -- The rows that are read are those that the query found.
    pub scan-Runs :
        {A : Type 0} {Q : Tables → Type 0} (label : String) (rows : List A)
        → Runs Q (scan server label rows) (λ l t. (l ≡ rows) × Q t)
    unfolding scan
    scan-Runs label [] = pure-Runs []
    scan-Runs {Q} label (row ∷ rows) =
        Runs-then (λ a t. (a ≡ row) × Q t) (query-Runs label (λ n t. row) _ (λ n t q. (refl, q)))
          (λ a.
            Runs-then (λ l t. (l ≡ rows) × ((a ≡ row) × Q t)) (scan-Runs label rows)
              (λ l. record { leaves = λ s p (x, (y, q)). (p, (cc, q)) }))
