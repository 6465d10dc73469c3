-- ===== src/Ledger/Steps.antt =====
-- How a store's rows and audit log take the steps of the ledger.
use event_correlator_tool.Common.{
  String, Bool, true, false, ◌||◌, List, [], ◌∷◌, ◌++◌, ◌≡◌, refl, sym, ◌∙◌, ap, arith, ◌==◌,
  if◌then◌else◌, contains, contains-append,
}
use event_correlator_tool.Common.Int.{leb_ℤ}
use event_correlator_tool.Clock.{Time}
use event_correlator_tool.Model.{AuditEntry}
use event_correlator_tool.Store.{PendingTrade, sources_of}
use event_correlator_tool.Memory.{is_due, is_finalized, has_every_source}
use event_correlator_tool.Memory.Selection.{has_every_source_iff}
use event_correlator_tool.Memory.Invariant.{sources_of-snoc}
use event_correlator_tool.Ledger.{Ledger, Report, note, close, all_of}
use event_correlator_tool.Ledger.Rows.{ledger_of}

pub all_of-true :
    (p : String → Bool) (l : List String)
    → ((a : String) → contains l a ≡ true → p a ≡ true)
    → all_of p l ≡ true
unfolding contains
all_of-true p [] h = refl
all_of-true p (a ∷ l) h =
    ground (arith, h a, all_of-true p l (λ x m. h x (unfold contains in ground (arith, m))))

pub all_of-member :
    (p : String → Bool) (l : List String) (a : String)
    → all_of p l ≡ true
    → contains l a ≡ true
    → p a ≡ true
unfolding contains
all_of-member p [] a h m = cc
all_of-member p (x ∷ l) a h m = ground (arith, all_of-member p l a)

Bool-eq_of_iff : (a b : Bool) → (a ≡ true → b ≡ true) → (b ≡ true → a ≡ true) → a ≡ b
Bool-eq_of_iff a b f g = ground arith

-- Completeness does not depend on how the sources are stored.
pub all_of-eq-has_every_source :
    (p : String → Bool) (events : List PendingTrade) (expected : List String)
    → ((a : String) → p a ≡ contains (sources_of events) a)
    → all_of p expected ≡ has_every_source events expected
all_of-eq-has_every_source p events expected h =
    let every = has_every_source_iff events expected in
    Bool-eq_of_iff _ _ (λ e. every.1 (λ a m. sym (h a) ∙ all_of-member p expected a e m))
      (λ e. all_of-true p expected (λ a m. h a ∙ every.0 e a m))

if-ap {ℓ κ} :
    {A : Type ℓ} {B : Type κ} (f : A → B) (b : Bool) (x y : A)
    → f (if b then x else y) ≡ (if b then f x else f y)
if-ap f true x y = refl
if-ap f false x y = refl

module _ (rows next : String → List PendingTrade) (log : List AuditEntry) (id : String) where
  reported-if :
      (x : List PendingTrade)
      → ((k : String) → next k ≡ (if k == id then x else rows k))
      → (t a : String)
      → contains (sources_of (next t)) a
        ≡ (if t == id then contains (sources_of x) a else contains (sources_of (rows t)) a)
  reported-if x h t a =
      ap (λ l. contains (sources_of l) a) (h t)
      ∙ if-ap (λ l. contains (sources_of l) a) (t == id) x (rows t)

  due-if :
      (x : List PendingTrade)
      → ((k : String) → next k ≡ (if k == id then x else rows k))
      → (t : String) (now : Time)
      → is_due now (next t) ≡ (if t == id then is_due now x else is_due now (rows t))
  due-if x h t now = ap (is_due now) (h t) ∙ if-ap (is_due now) (t == id) x (rows t)

  -- The trade loses its rows and enters the log.
  pub ledger_of-close :
      (after : List AuditEntry)
      → ((k : String) → next k ≡ (if k == id then [] else rows k))
      → ((k : String) → is_finalized after k ≡ ((k == id) || is_finalized log k))
      → ledger_of next after ≡ close (ledger_of rows log) id
  unfolding contains is_due
  ledger_of-close after h k = λ i. record {
    reported = λ t a. reported-if [] h t a i;
    due = λ t now. due-if [] h t now i;
    closed = λ t. k t i;
  }

  module _ (row : PendingTrade) (deadline : Time)
      (h : (k : String) → next k ≡ (if k == id then rows id ++ row ∷ [] else rows k))
      (due : (now : Time)
        → is_due now (rows id ++ row ∷ []) ≡ (leb_ℤ deadline now || is_due now (rows id))) where
    abbrev report : Report
    report = record { trade_id = id; source = row.source; deadline = deadline }

    note-reported :
        (t a : String)
        → contains (sources_of (next t)) a ≡ (note (ledger_of rows log) report).reported t a
    unfolding contains
    note-reported t a = ground (
      arith,
      reported-if (rows id ++ row ∷ []) h t a,
      ap (λ l. contains l a) (sources_of-snoc (rows id) row),
      contains-append (sources_of (rows id)) (row.source ∷ []) a,
    )

    note-due :
        (t : String) (now : Time)
        → is_due now (next t) ≡ (note (ledger_of rows log) report).due t now
    note-due t now = ground (arith, due-if (rows id ++ row ∷ []) h t now, due now)

    -- The trade gets a row.
    pub ledger_of-note : ledger_of next log ≡ note (ledger_of rows log) report
    ledger_of-note = λ i. record {
      reported = λ t a. note-reported t a i;
      due = λ t now. note-due t now i;
      closed = is_finalized log;
    }

module _ (l : Ledger) (r : Report) where
  -- A trade that is closed forgets who has reported.
  pub close-note : close (note l r) r.trade_id ≡ close l r.trade_id
  close-note = λ i. record {
    reported = λ t a. reported_lem t a i;
    due = λ t u. due_lem t u i;
    closed = (close l r.trade_id).closed;
  }
    where
      reported_lem :
          (t a : String)
          → (close (note l r) r.trade_id).reported t a ≡ (close l r.trade_id).reported t a
      reported_lem t a = ground arith

      due_lem :
          (t : String) (u : Time)
          → (close (note l r) r.trade_id).due t u ≡ (close l r.trade_id).due t u
      due_lem t u = ground arith
