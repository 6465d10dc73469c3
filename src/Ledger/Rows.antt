-- ===== src/Ledger/Rows.antt =====
-- The ledger of the rows that a store holds for each trade, and what one more row does to it.
use event_correlator_tool.Common.{
  String, Bool, false, not, ◌||◌, List, [], ◌∷◌, ◌++◌, ◌≡◌, refl, sym, ◌∙◌, ap, arith, contains,
  Every, Bool-cases, inl, inr,
}
use event_correlator_tool.Common.Int.{leb_ℤ, ◌≤ℤ◌}
use event_correlator_tool.Clock.{Time, before}
use event_correlator_tool.Model.{AuditEntry}
use event_correlator_tool.Store.{PendingTrade, sources_of}
use event_correlator_tool.Memory.{earliest_deadline, is_due, is_finalized, lower_deadline}
use event_correlator_tool.Ledger.{Ledger, Report}
use mathlib.Core.List.{Permᴰ}

-- The ledger of some rows for each trade and of an audit log
abbrev pub ledger_of : (String → List PendingTrade) → List AuditEntry → Ledger
ledger_of rows audit = record {
  reported = λ trade_id source. contains (sources_of (rows trade_id)) source;
  due = λ trade_id now. is_due now (rows trade_id);
  closed = is_finalized audit;
}

abbrev pub report_of : (Time → Time) → PendingTrade → Report
report_of kept trade = record {
  trade_id = trade.trade_id;
  source = trade.source;
  deadline = kept trade.deadline;
}

-- Whether some row's deadline has come
abbrev pub some_due : Time → List PendingTrade → Bool
some_due now [] = false
some_due now (row ∷ rows) = leb_ℤ row.deadline now || some_due now rows

due_from :
    (now t : Time) (rows : List PendingTrade)
    → not (before now (earliest_deadline t rows)) ≡ (leb_ℤ t now || some_due now rows)
unfolding earliest_deadline
due_from now t [] = ground arith
due_from now t (row ∷ rows) = ground (arith, due_from now t rows, due_from now row.deadline rows)

pub is_due-eq-some_due :
    (now : Time) (rows : List PendingTrade) → is_due now rows ≡ some_due now rows
unfolding is_due
is_due-eq-some_due now [] = refl
is_due-eq-some_due now (row ∷ rows) = due_from now row.deadline rows

some_due-snoc :
    (now : Time) (rows : List PendingTrade) (row : PendingTrade)
    → some_due now (rows ++ row ∷ []) ≡ (leb_ℤ row.deadline now || some_due now rows)
some_due-snoc now [] row = refl
some_due-snoc now (r ∷ rows) row = ground (arith, some_due-snoc now rows row)

pub is_due-snoc :
    (now : Time) (rows : List PendingTrade) (row : PendingTrade)
    → is_due now (rows ++ row ∷ []) ≡ (leb_ℤ row.deadline now || is_due now rows)
is_due-snoc now rows row =
    rw (is_due-eq-some_due) (rw is_due-eq-some_due (some_due-snoc now rows row))

-- Rounding that keeps the order of times
pub record IsRounding (kept : Time → Time) : Type 0 where
  pub monotone : (a b : Time) → a ≤ℤ b → kept a ≤ℤ kept b
  pub twice : (a : Time) → kept (kept a) ≡ kept a

-- The deadlines of the rows are rounded.
abbrev pub AreKept : (Time → Time) → List PendingTrade → Type 0
AreKept kept = Every (λ (row : PendingTrade). kept row.deadline ≡ row.deadline)

module _ (kept : Time → Time) (round : IsRounding kept) (now : Time) where
  lower-some_due :
      (rows : List PendingTrade) (d : Time)
      → AreKept kept rows
      → (leb_ℤ (kept (lower_deadline rows d)) now || some_due now rows)
        ≡ (leb_ℤ (kept d) now || some_due now rows)
  unfolding lower_deadline
  lower-some_due [] d h = refl
  lower-some_due (row ∷ rows) d h = elim (Bool-cases (before row.deadline d)) [
    | inl e ↦
        rw e (ground (arith, lower-some_due rows row.deadline h.1, round.monotone row.deadline d))
    | inr e ↦ rw e (ground (arith, lower-some_due rows d h.1, round.monotone d row.deadline))
  ]

  -- Lowering the deadline of a new row to those of its trade does not change when the trade is due.
  pub lower-is_due :
      (rows : List PendingTrade) (d : Time)
      → AreKept kept rows
      → (leb_ℤ (kept (lower_deadline rows d)) now || is_due now rows)
        ≡ (leb_ℤ (kept d) now || is_due now rows)
  lower-is_due rows d h = rw is_due-eq-some_due (lower-some_due rows d h)

some_due-perm : (now : Time) {l r : List PendingTrade} → Permᴰ l r → some_due now l ≡ some_due now r
some_due-perm now Permᴰ.nil = refl
some_due-perm now (Permᴰ.cons e p) =
    ground (arith, some_due-perm now p, ap (λ (x : PendingTrade). x.deadline) e)
some_due-perm now (Permᴰ.swap e f) =
    ground (arith, ap (λ (x : PendingTrade). x.deadline) e, ap (λ (x : PendingTrade). x.deadline) f)
some_due-perm now (Permᴰ.trans p q) = some_due-perm now p ∙ some_due-perm now q

pub is_due-perm : (now : Time) {l r : List PendingTrade} → Permᴰ l r → is_due now l ≡ is_due now r
is_due-perm now p = is_due-eq-some_due now _ ∙ some_due-perm now p ∙ sym (is_due-eq-some_due now _)
