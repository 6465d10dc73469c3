-- ===== src/Contract/Sweeping/Unions.antt =====
-- Closing the due trades of a list, of no list, of one trade, and of two lists one after the other.
use event_correlator_tool.Common.{
  String, Bool, true, false, ◌||◌, List, [], ◌∷◌, ◌++◌, ◌≡◌, arith, contains, contains-append,
}
use event_correlator_tool.Clock.{Time}
use event_correlator_tool.Ledger.{Ledger, close}
use event_correlator_tool.Contract.Sweeping.{sweep_some}

module _ (l : Ledger) (now : Time) where
  pub sweep_some-nil : sweep_some [] l now ≡ l
  unfolding contains
  sweep_some-nil =
      λ i. record { reported = l.reported; due = l.due; closed = λ t. or_false (l.closed t) i }
    where
      or_false : (b : Bool) → (b || false) ≡ b
      or_false b = ground arith

  pub sweep_some-one : (id : String) → l.due id now ≡ true → sweep_some (id ∷ []) l now ≡ close l id
  unfolding contains
  sweep_some-one id due = λ i. record {
    reported = λ t a. reported_lem t a i;
    due = λ t u. due_lem t u i;
    closed = λ t. closed_lem t i;
  }
    where
      reported_lem :
          (t a : String) → (sweep_some (id ∷ []) l now).reported t a ≡ (close l id).reported t a
      reported_lem t a = ground (arith, due)

      due_lem :
          (t : String) (u : Time) → (sweep_some (id ∷ []) l now).due t u ≡ (close l id).due t u
      due_lem t u = ground (arith, due)

      closed_lem : (t : String) → (sweep_some (id ∷ []) l now).closed t ≡ (close l id).closed t
      closed_lem t = ground (arith, due)

  pub sweep_some-append :
      (ids more : List String)
      → sweep_some more (sweep_some ids l now) now ≡ sweep_some (ids ++ more) l now
  sweep_some-append ids more = λ i. record {
    reported = λ t a. reported_lem t a i;
    due = λ t u. due_lem t u i;
    closed = λ t. closed_lem t i;
  }
    where
      reported_lem :
          (t a : String)
          → (sweep_some more (sweep_some ids l now) now).reported t a
            ≡ (sweep_some (ids ++ more) l now).reported t a
      reported_lem t a = ground (arith, contains-append ids more t)

      due_lem :
          (t : String) (u : Time)
          → (sweep_some more (sweep_some ids l now) now).due t u
            ≡ (sweep_some (ids ++ more) l now).due t u
      due_lem t u = ground (arith, contains-append ids more t)

      closed_lem :
          (t : String)
          → (sweep_some more (sweep_some ids l now) now).closed t
            ≡ (sweep_some (ids ++ more) l now).closed t
      closed_lem t = ground (arith, contains-append ids more t)
