-- ===== src/Postgres/Once/Finishes.antt =====
-- How a transaction of postgres.go ends, whether the database reports an error or not: what its result
-- says of the tables that are committed then.
use event_correlator_tool.Common.{
  Bool, true, false, String, ◌≡◌, refl, if◌then◌else◌, Result, ok, err, panic, ok-injective, subst,
  Option-cases, inl, inr,
}
use event_correlator_tool.Postgres.{Tables, Server, Connection, Action}
use event_correlator_tool.Postgres.Session.{pure, follow, ◌>>=◌, begin, commit, deferred_rollback}
use event_correlator_tool.Postgres.Once.{Leaves, Runs}

-- `P` holds of the committed tables up to the commit, `E` after an error or a panic.
module _ (P E : Tables → Type 0) (covers : (t : Tables) → P t → E t) {C : Type 0} where
  -- Where the code returns, its value and the committed tables are in `R`.
  abbrev pub Done : {A : Type 0} → (A → Tables → Type 0) → Result A × Connection C → Type 0
  Done R (ok a, s) = R a s.committed
  Done R (err e, s) = E s.committed
  Done R (panic, s) = E s.committed

  pub Done-committed :
      {A : Type 0} (R : A → Tables → Type 0) (x : Result A × Connection C)
      → ((a : A) (t : Tables) → R a t → E t)
      → Done R x
      → E x.1.committed
  Done-committed R (ok a, s) weaken h = weaken a s.committed h
  Done-committed R (err e, s) weaken h = h
  Done-committed R (panic, s) weaken h = h

  pub Done-returned :
      {A : Type 0} (R : A → Tables → Type 0) (x : Result A × Connection C) (a : A)
      → Done R x
      → x.0 ≡ ok a
      → R a x.1.committed
  Done-returned R (ok b, s) a h e = subst (λ c. R c s.committed) (ok-injective e) h
  Done-returned R (err e, s) a h k = cc
  Done-returned R (panic, s) a h k = cc

  -- Code that starts with committed tables in `P` and tables of the transaction in `Q`
  pub record Finishes {A : Type 0} (Q : Tables → Type 0) (m : Action C A) (R : A → Tables → Type 0)
      : Type 0 where
    pub done : (s : Connection C) → P s.committed → Q s.work → Done R (m s)

  follow-Done :
      {A B : Type 0} {R : A → Tables → Type 0} {S : B → Tables → Type 0}
      (x : Result A × Connection C) (f : A → Action C B)
      → Leaves P R x
      → ((a : A) → Finishes (R a) (f a) S)
      → Done S (follow x f)
  follow-Done (ok a, s) f h k = (k a).done s h.0 h.1
  follow-Done (err e, s) f h k = covers s.committed h
  follow-Done (panic, s) f h k = covers s.committed h

  pub Finishes-then :
      {A B : Type 0} {Q : Tables → Type 0} {m : Action C A} {f : A → Action C B}
      (R : A → Tables → Type 0) {S : B → Tables → Type 0}
      → Runs P Q m R
      → ((a : A) → Finishes (R a) (f a) S)
      → Finishes Q (m >>= f) S
  unfolding ◌>>=◌
  Finishes-then {m} {f} R g h = record { done = λ s p q. follow-Done (m s) f (g.leaves s p q) h }

  pub Finishes-from :
      {A : Type 0} {Q Q' : Tables → Type 0} {m : Action C A} {R : A → Tables → Type 0}
      → Finishes Q m R
      → ((t : Tables) → Q' t → Q t)
      → Finishes Q' m R
  Finishes-from g h = record { done = λ s p q. g.done s p (h s.work q) }

  -- A fact about a value, out of what is known of the tables
  pub Finishes-given :
      {A : Type 0} {F : Type 0} {Q : Tables → Type 0} {m : Action C A} {R : A → Tables → Type 0}
      → (F → Finishes Q m R)
      → Finishes (λ t. F × Q t) m R
  Finishes-given f = record { done = λ s p (e, q). (f e).done s p q }

  pub if-Finishes :
      {A : Type 0} {Q : Tables → Type 0} (b : Bool) {l r : Action C A} {R : A → Tables → Type 0}
      → (b ≡ true → Finishes Q l R)
      → (b ≡ false → Finishes Q r R)
      → Finishes Q (if b then l else r) R
  if-Finishes true g h = g refl
  if-Finishes false g h = h refl

  -- The method returns without a commit.
  pub pure-Finishes :
      {A : Type 0} {Q : Tables → Type 0} (a : A) {R : A → Tables → Type 0}
      → ((t : Tables) → P t → R a t)
      → Finishes Q (pure a) R
  pure-Finishes a h = record { done = λ s p q. h s.committed p }

  -- What is committed is what the transaction sees; after an error it may be there or not.
  pub commit-Finishes :
      {A : Type 0} {Q : Tables → Type 0} (server : Server) (label : String) (a : A)
      {R : A → Tables → Type 0}
      → ((t : Tables) → R a t → E t)
      → ((t : Tables) → Q t → R a t)
      → Finishes Q (commit server label a) R
  unfolding commit
  commit-Finishes server label a weaken h = record {
    done = λ s p q. elim (Option-cases (server.fault s.requests)) [
      | inl e ↦ rw (e, commit) (h s.work q)
      | inr (t, e) ↦
          rw (e, commit)
            (either (server.kept s.requests) s.work s.committed (weaken s.work (h s.work q))
              (covers s.committed p))
    ];
  }
    where
      either : (b : Bool) (t u : Tables) → E t → E u → E (if b then t else u)
      either true t u p q = p
      either false t u p q = q

  -- The whole transaction: it starts on the committed tables, and the rollback leaves them alone.
  pub transaction-Finishes :
      {A : Type 0} {Q : Tables → Type 0} (server : Server) (label : String) (f : Unit → Action C A)
      {R : A → Tables → Type 0}
      → Finishes P (f tt) R
      → Finishes Q (deferred_rollback (begin server label >>= f)) R
  unfolding deferred_rollback ◌>>=◌ begin
  transaction-Finishes {A} server label f {R} g = record {
    done = λ s p q. ended (follow (begin server label s) f) (started s p);
  }
    where
      ended :
          (x : Result A × Connection C)
          → Done R x
          → Done R (x.0, record x.1 { work = x.1.committed })
      ended (ok a, s) h = h
      ended (err e, s) h = h
      ended (panic, s) h = h

      started : (s : Connection C) → P s.committed → Done R (follow (begin server label s) f)
      started s p = elim (Option-cases (server.fault s.requests)) [
        | inl e ↦ rw (e, begin) (g.done _ p p)
        | inr (t, e) ↦ rw (e, begin) (covers s.committed p)
      ]
