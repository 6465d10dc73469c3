-- ===== src/Postgres/Session.antt =====
-- Requests to the database. An error or a panic ends the code that follows.
use event_correlator_tool.Common.{
  ℕ, suc, String, ◌<>◌, Option, none, some, List, [], ◌∷◌, if◌then◌else◌, Result, ok, err, panic,
}
use event_correlator_tool.Postgres.{Tables, Server, Connection, Action}

module _ {C A : Type 0} where
  abbrev pub pure : A → Action C A
  pure a s = (ok a, s)

  abbrev pub follow :
      {B : Type 0} → Result A × Connection C → (A → Action C B) → Result B × Connection C
  follow (ok a, s) f = f a s
  follow (err e, s) f = (err e, s)
  follow (panic, s) f = (panic, s)

  -- `if err != nil { return fmt.Errorf(label + "%w", err) }` after an error of the code itself
  abbrev pub check : String → Option String → A → Action C A
  check label none a s = (ok a, s)
  check label (some e) a s = (err (label <> e), s)

infixl 10 ◌>>=◌
unfoldable pub ◌>>=◌ : {C A B : Type 0} → Action C A → (A → Action C B) → Action C B
m >>= f = λ s. follow (m s) f

abbrev tick : {C : Type 0} → Connection C → Connection C
tick s = record s { requests = suc s.requests }

-- `defer rollback(tx)`: what the transaction did and did not commit is gone.
unfoldable pub deferred_rollback : {C A : Type 0} → Action C A → Action C A
deferred_rollback m s = let (r, s') = m s in (r, record s' { work = s'.committed })

module _ (server : Server) {C : Type 0} where
  -- A request that only reads, in a transaction, or that only reports an error.
  unfoldable pub query : {A : Type 0} → String → (ℕ → Tables → A) → Action C A
  query label f s = elim (server.fault s.requests) [
    | some e ↦ (err (label <> e), tick s)
    | none ↦ (ok (f s.requests s.work), tick s)
  ]

  -- A query outside a transaction
  unfoldable pub read : {A : Type 0} → String → (ℕ → Tables → A) → Action C A
  read label f s = elim (server.fault s.requests) [
    | some e ↦ (err (label <> e), tick s)
    | none ↦ (ok (f s.requests s.committed), tick s)
  ]

  -- A statement that changes the tables of the transaction.
  unfoldable pub execute : String → (ℕ → Tables → Tables) → Action C Unit
  execute label f s = elim (server.fault s.requests) [
    | some e ↦ (err (label <> e), tick s)
    | none ↦ (ok tt, record (tick s) { work = f s.requests s.work })
  ]

  unfoldable pub begin : String → Action C Unit
  begin label s = elim (server.fault s.requests) [
    | some e ↦ (err (label <> e), tick s)
    | none ↦ (ok tt, record (tick s) { work = s.committed })
  ]

  -- `tx.Commit()`, after which the method returns `a`
  unfoldable pub commit : {A : Type 0} → String → A → Action C A
  commit label a s = elim (server.fault s.requests) [
    | some e ↦ (
      err (label <> e),
      record (tick s) { committed = if server.kept s.requests then s.work else s.committed },
    )
    | none ↦ (ok a, record (tick s) { committed = s.work })
  ]

  -- The loop of `rows.Next()` and `rows.Scan(…)`: a request is a `Scan` of a row. `Next` reports no error;
  -- one that it meets ends the loop and is the error of the query after it, that of `rows.Err()`.
  unfoldable pub scan : {A : Type 0} → String → List A → Action C (List A)
  scan label [] = pure []
  scan label (row ∷ rows) =
      query label (λ n t. row) >>= (λ a. scan label rows >>= (λ rest. pure (a ∷ rest)))
