-- ===== src/Ledger/Delivery.antt =====
-- Sequences of reports to the ledger, and what becomes of a trade in the end.
use event_correlator_tool.Common.{
  String, Bool, true, false, ◌||◌, List, [], ◌∷◌, map, ◌≡◌, ◌≢◌, refl, sym, ◌∙◌, ap, subst, arith,
  contains, Distinct, Every, Bool-cases, inl, inr,
}
use event_correlator_tool.Common.Int.{leb_ℤ}
use event_correlator_tool.Clock.{Time}
use event_correlator_tool.Ledger
use event_correlator_tool.Ledger.{
  Ledger, Report, Answer, duplicate, pending, reconciled, note, close, is_known, is_complete,
  ingest_completing, ingest_waiting,
}
use event_correlator_tool.Ledger.Steps.{all_of-true, all_of-member, close-note}

abbrev pub run : List String → Ledger → List Report → List Answer × Ledger
run expected l [] = ([], l)
run expected l (r ∷ rs) =
    let (answer, next) = Ledger.ingest expected l r in
    let (answers, last) = run expected next rs in (answer ∷ answers, last)

-- Pending for each report but the last one, and then reconciled
abbrev pub answers_to {ℓ} : {A : Type ℓ} → List A → List Answer
answers_to [] = []
answers_to (r ∷ []) = reconciled ∷ []
answers_to (r ∷ r2 ∷ rs) = pending ∷ answers_to (r2 ∷ rs)

abbrev pub reporters : List Report → List String
reporters = map (λ (r : Report). r.source)

-- The reports that are left complete the trade `id`: each expected source has reported or is one of
-- them, and none of these has reported.
pub record Completes (expected : List String) (l : Ledger) (id : String) (rs : List Report)
    : Type 0 where
  pub open_trade : l.closed id ≡ false
  pub named : Every (λ (r : Report). r.trade_id ≡ id) rs
  pub distinct : Distinct (reporters rs)
  pub fresh : (a : String) → contains (reporters rs) a ≡ true → l.reported id a ≡ false
  pub exact : (a : String) → contains expected a ≡ (l.reported id a || contains (reporters rs) a)

module _ (expected : List String) (l : Ledger) (r : Report) where
  known-eq : (rs : List Report) → Completes expected l r.trade_id (r ∷ rs) → is_known l r ≡ false
  unfolding contains
  known-eq rs h = ground (arith, h.open_trade, h.fresh r.source)

  last-is_complete :
      Completes expected l r.trade_id (r ∷ []) → is_complete expected (note l r) r.trade_id ≡ true
  unfolding contains
  last-is_complete h = all_of-true _ expected (λ a m. ground (arith, h.exact a))

  other-is_complete :
      (r2 : Report) (rs : List Report)
      → Completes expected l r.trade_id (r ∷ r2 ∷ rs)
      → is_complete expected (note l r) r.trade_id ≡ false
  unfolding contains
  other-is_complete r2 rs h = elim (Bool-cases (is_complete expected (note l r) r.trade_id)) [
    | inr e ↦ e
    | inl e ↦
        let said = all_of-member _ expected r2.source e (h.exact r2.source ∙ ground arith) in
        ground (arith, said, h.fresh r2.source, h.distinct.0)
  ]

  note-Completes :
      (rs : List Report)
      → Completes expected l r.trade_id (r ∷ rs)
      → Completes expected (note l r) r.trade_id rs
  unfolding contains
  note-Completes rs h = record {
    open_trade = h.open_trade;
    named = h.named.1;
    distinct = h.distinct.1;
    fresh = λ a m. ground (arith, h.fresh a, h.distinct.0);
    exact = λ a. ground (arith, h.exact a);
  }

-- Reports that complete a trade are answered with "pending", the last one with "reconciled", and the
-- trade is closed.
pub run-Completes :
    (expected : List String) (l : Ledger) (id : String) (r : Report) (rs : List Report)
    → Completes expected l id (r ∷ rs)
    → run expected l (r ∷ rs) ≡ (answers_to (r ∷ rs), close l id)
run-Completes expected l id r [] h =
    subst (λ k. run expected l (r ∷ []) ≡ (reconciled ∷ [], close l k)) h.named.0
      (rw
        (ingest_completing expected l r
          (known-eq expected l r []
            (subst (λ k. Completes expected l k (r ∷ [])) (sym h.named.0) h))
          (last-is_complete expected l r
            (subst (λ k. Completes expected l k (r ∷ [])) (sym h.named.0) h)))
        refl)
run-Completes expected l id r (r2 ∷ rs) h =
    let mine = subst (λ k. Completes expected l k (r ∷ r2 ∷ rs)) (sym h.named.0) h in
    let rest = run-Completes expected (note l r) id r2 rs (
      subst (λ k. Completes expected (note l r) k (r2 ∷ rs)) h.named.0
        (note-Completes expected l r (r2 ∷ rs) mine)) in
    let closed = subst (λ k. close (note l r) k ≡ close l k) h.named.0 (close-note l r) in
    ap
      (λ (s : Answer × Ledger).
        (s.0 ∷ (run expected s.1 (r2 ∷ rs)).0, (run expected s.1 (r2 ∷ rs)).1))
      (ingest_waiting expected l r (known-eq expected l r (r2 ∷ rs) mine)
        (other-is_complete expected l r r2 rs mine))
    ∙ ap (λ (s : List Answer × Ledger). (pending ∷ s.0, s.1)) rest
    ∙ ap (λ x. (pending ∷ answers_to (r2 ∷ rs), x)) closed

-- The trade is closed, or a sweep at the time closes it.
abbrev pub is_settled : Ledger → String → Time → Bool
is_settled l id t = l.closed id || l.due id t

module _ (l : Ledger) (id : String) (t : Time) where
  pub ingest-is_settled :
      (expected : List String) (r : Report)
      → is_settled l id t ≡ true
      → is_settled (Ledger.ingest expected l r).1 id t ≡ true
  unfolding Ledger.ingest
  ingest-is_settled expected r h = ground arith

  pub sweep-is_settled :
      (now : Time) → is_settled l id t ≡ true → is_settled (Ledger.sweep l now) id t ≡ true
  unfolding Ledger.sweep
  sweep-is_settled now h = ground arith

  pub sweep-closes : is_settled l id t ≡ true → (Ledger.sweep l t).closed id ≡ true
  unfolding Ledger.sweep
  sweep-closes h = ground arith

pub ingest-settles :
    (expected : List String) (l : Ledger) (r : Report) (t : Time)
    → (Ledger.ingest expected l r).0 ≢ duplicate
    → leb_ℤ r.deadline t ≡ true
    → is_settled (Ledger.ingest expected l r).1 r.trade_id t ≡ true
unfolding Ledger.ingest
ingest-settles expected l r t h k = elim (Bool-cases (is_known l r)) [
  | inl e ↦ absurd (h (rw e refl))
  | inr e ↦ ground arith
]
