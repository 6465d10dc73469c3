-- ===== src/Postgres/Refines/Answers.antt =====
-- `Ingest` of postgres.go against the ledger, with a server that suits the contract.
use event_correlator_tool.Common.{
  ℕ, String, true, false, ◌||◌, List, ◌≡◌, refl, sym, ◌∙◌, ap, subst, arith, contains, Bool-cases,
  Option-cases, inl, inr, ok,
}
use event_correlator_tool.Clock.{Time}
use event_correlator_tool.Store.{PendingTrade, IngestResult, BuildAudit, Call}
use event_correlator_tool.Memory.{is_finalized}
use event_correlator_tool.Memory.Invariant.{IsPart}
use event_correlator_tool.Memory.Outcomes.{
  expected_events-sources, expected_events-IsPart, expected_events-ne-nil,
}
use event_correlator_tool.Ledger
use event_correlator_tool.Ledger.{
  Ledger, Report, Answer, duplicate, pending, reconciled, note, close, is_known, is_complete,
}
use event_correlator_tool.Ledger.Rows.{report_of}
use event_correlator_tool.Ledger.Steps.{close-note}
use event_correlator_tool.Contract.{Serves, Ingested}
use event_correlator_tool.Postgres.{Tables, Server, Action}
use event_correlator_tool.Postgres.Client.{Database, opened, call_of}
use event_correlator_tool.Postgres.Ingest.{conflicts, has_every_source, expected_events, ingest}
use event_correlator_tool.Postgres.Quiet.{View, at, Ends}
use event_correlator_tool.Postgres.Quiet.Ingest.{
  events, ingest-refuses, ingest-waits, ingest-completes,
}
use event_correlator_tool.Postgres.Refines.{Suits, view_of, IsTidy, by_source-IsPart}
use event_correlator_tool.Postgres.Refines.Ingest.{
  IsTidy-delete, view_of-close, grown, known-eq, IsTidy-grown, view_of-grown, complete-eq,
}

abbrev pub view : Database → Ledger
view d = view_of d.committed

-- To show `P` of a call, show it of each call that ends as the code ends.
pub Ends-call {κ} :
    {C A : Type 0} {m : Action C A} {v : View C} {R : A → View C → Type 0}
    (P : Call Database C A → Type κ)
    → Ends m v R
    → ((a : A) (w : View C) (n : ℕ) → R a w → P (call_of (ok a, at w n)))
    → (n : ℕ) → P (call_of (m (at v n)))
Ends-call P h f n = let (k, a, w, e, r) = h.runs n in subst (λ x. P (call_of x)) (sym e) (f a w k r)

module _ (server : Server) (kept : Time → Time) (suits : Suits server kept)
    (expected : List String) where
  abbrev pub IsOk : Database → Type 0
  IsOk d = IsTidy kept expected d.committed

  module _ {C : Type 0} (trade : PendingTrade) (build : BuildAudit C) (c : C) (d : Database)
      (tidy : IsOk d) (known : contains expected trade.source ≡ true)
      (serves : Serves expected trade.trade_id build) where
    abbrev t : Tables
    t = d.committed

    abbrev asked : Report
    asked = report_of kept trade

    abbrev v : View C
    v = record { committed = t; work = t; captured = c }

    abbrev HasIngested : Answer × Ledger → Call Database C IngestResult → Type 0
    HasIngested step call = Ingested IsOk view expected step trade.trade_id build c call

    abbrev step : Answer × Ledger
    step = Ledger.ingest expected (view d) asked

    abbrev call : Call Database C IngestResult
    call = call_of (ingest server trade expected build (opened d c))

    refuses :
        (is_finalized t.audit trade.trade_id || conflicts trade t.pending) ≡ true
        → HasIngested step call
    refuses h =
        subst (λ s. HasIngested s call)
          (sym (
            Ledger.ingest_known expected (view d) _
              (known-eq server kept suits.stores expected trade t tidy known ∙ h)))
          (Ends-call (HasIngested (duplicate, view d))
            (ingest-refuses server suits.quiet trade expected build v h)
            (λ a w n (answer, captured, same). record {
              result = a;
              returned = refl;
              kept = subst (IsTidy kept expected) (sym same) tidy;
              moved = ap view_of same;
              inserted = ap (λ (r : IngestResult). r.inserted) answer;
              captured = captured;
            })
            d.requests)

    module _
        (fresh : (is_finalized t.audit trade.trade_id || conflicts trade t.pending) ≡ false) where
      open_trade : is_finalized t.audit trade.trade_id ≡ false
      open_trade = ground (arith, fresh)

      no_conflict : conflicts trade t.pending ≡ false
      no_conflict = ground (arith, fresh)

      fresh_report : is_known (view d) asked ≡ false
      fresh_report = known-eq server kept suits.stores expected trade t tidy known ∙ fresh

      grown-IsTidy :
          IsTidy kept expected (grown server kept suits.stores expected trade t tidy known)
      grown-IsTidy = IsTidy-grown server kept suits.stores expected trade t tidy known no_conflict

      moved_grown :
          view_of (grown server kept suits.stores expected trade t tidy known) ≡ note (view d) asked
      moved_grown = view_of-grown server kept suits.stores expected trade t tidy known

      waits : has_every_source (events server trade t) expected ≡ false → HasIngested step call
      waits h =
          subst (λ s. HasIngested s call)
            (sym (
              Ledger.ingest_waiting expected (view d) _ fresh_report
                (complete-eq server kept suits.stores expected trade t tidy known ∙ h)))
            (Ends-call (HasIngested (pending, note (view d) asked))
              (ingest-waits server suits.quiet trade expected build v open_trade no_conflict h)
              (λ a w n (answer, captured, same). record {
                result = a;
                returned = refl;
                kept = subst (IsTidy kept expected) (sym same) grown-IsTidy;
                moved = ap view_of same ∙ moved_grown;
                inserted = ap (λ (r : IngestResult). r.inserted) answer;
                captured = captured;
              })
              d.requests)

      part : IsPart expected trade.trade_id (events server trade t)
      part = by_source-IsPart server kept suits.stores expected _ trade.trade_id grown-IsTidy

      completes : has_every_source (events server trade t) expected ≡ true → HasIngested step call
      completes h =
          let selected = expected_events (events server trade t) expected in
          let nonempty =
            expected_events-ne-nil trade.trade_id (events server trade t) expected h trade.source
              known in
          let selected_part =
            expected_events-IsPart trade.trade_id (events server trade t) expected h part in
          elim (Option-cases (build c selected)) [
            | inl e ↦ absurd (serves.returns c selected nonempty selected_part e)
            | inr (b, e) ↦
                subst (λ s. HasIngested s call)
                  (sym (
                    Ledger.ingest_completing expected (view d) _ fresh_report
                      (complete-eq server kept suits.stores expected trade t tidy known ∙ h)))
                  (Ends-call (HasIngested (reconciled, close (view d) trade.trade_id))
                    (ingest-completes server suits.quiet trade expected build v open_trade
                      no_conflict b h e)
                    (λ a w n (answer, captured, rows, m, log). record {
                      result = a;
                      returned = refl;
                      kept =
                          IsTidy-delete server kept suits.stores _ w.committed trade.trade_id rows
                            grown-IsTidy;
                      moved =
                          view_of-close server kept suits.stores _ w.committed trade.trade_id m
                            b.entry rows log (serves.about c selected b e)
                          ∙ ap (λ l. close l trade.trade_id) moved_grown
                          ∙ close-note (view d) asked;
                      inserted = ap (λ (r : IngestResult). r.inserted) answer;
                      captured = record {
                        events = selected;
                        nonempty = nonempty;
                        part = selected_part;
                        exact = expected_events-sources (events server trade t) expected h;
                        built = b;
                        ran = e;
                        after = captured;
                      };
                    })
                    d.requests)
          ]

    -- `Ingest` of postgres.go takes the ledger's step, with a server that suits the contract, in tidy
    -- tables and for an event from an expected source, if the closure is about the trade and returns
    -- for parts of it: it returns, and reports an insertion where the ledger does not answer that the
    -- event is a duplicate; the closure is called, once and with one event of each expected source,
    -- exactly where the ledger answers that the trade is reconciled; and the tables stay tidy.
    pub ingest-takes_step : HasIngested step call
    ingest-takes_step =
        elim (Bool-cases (is_finalized t.audit trade.trade_id || conflicts trade t.pending)) [
          | inl h ↦ refuses h
          | inr fresh ↦ elim (Bool-cases (has_every_source (events server trade t) expected)) [
            | inl h ↦ completes fresh h
            | inr h ↦ waits fresh h
          ]
        ]
