-- ===== src/Postgres/Refines/Due.antt =====
-- Which trades `SweepExpired` of postgres.go finds, and which it skips.
use event_correlator_tool.Common.{
  String, Bool, false, not, ◌||◌, List, [], ◌∷◌, map, keep, ◌≡◌, refl, sym, ◌∙◌, arith, contains,
}
use event_correlator_tool.Common.Dict
use event_correlator_tool.Common.Dict.{Dict}
use event_correlator_tool.Clock.{Time, after}
use event_correlator_tool.Store.{PendingTrade}
use event_correlator_tool.Memory.{is_due}
use event_correlator_tool.Ledger.Rows.{some_due, is_due-eq-some_due}
use event_correlator_tool.Postgres.Queries.{rows_of}
use event_correlator_tool.Postgres.Sweep.{is_skipped, expired_ids}

pub is_skipped-eq :
    (now : Time) (events : List PendingTrade) → is_skipped now events ≡ not (is_due now events)
unfolding is_skipped is_due
is_skipped-eq now [] = refl
is_skipped-eq now (event ∷ events) = ground arith

-- The query finds the trades with a row whose deadline has come.
found_due :
    (now : Time) (rows : List PendingTrade) (k : String)
    → some_due now (rows_of k rows)
      ≡ contains
          (map
            (λ (row : PendingTrade). row.trade_id)
            (keep (λ row. not (after row.deadline now)) rows))
          k
unfolding contains
found_due now [] k = refl
found_due now (row ∷ rows) k = ground (arith, found_due now rows k)

pub expired_ids-eq :
    (now : Time) (rows : List PendingTrade) (k : String)
    → contains (expired_ids now rows) k ≡ is_due now (rows_of k rows)
unfolding Dict.has
expired_ids-eq now rows k =
    Dict.contains-keys _ k
    ∙ Dict.has-set_of _ [] k
    ∙ or_false _
    ∙ sym (found_due now rows k)
    ∙ sym (is_due-eq-some_due now (rows_of k rows))
  where
    or_false : (b : Bool) → (b || false) ≡ b
    or_false b = ground arith
