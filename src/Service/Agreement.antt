-- ===== src/Service/Agreement.antt =====
-- Two stores that keep the contract, under the same calls of engine.go.
use event_correlator_tool.Common.{
  String, ◌<>◌, List, [], ◌∷◌, ◌≡◌, refl, sym, ◌∙◌, ap, subst, arith, ◌==◌, ◌⊎◌, inl, inr,
  Bool-cases, Result, ok, err, panic,
}
use event_correlator_tool.Common.Dict
use event_correlator_tool.Common.Sorting.Unique.{IsAscending-unique}
use event_correlator_tool.Clock.{Time, Duration}
use event_correlator_tool.Model.{Bytes, TradeEvent, BreakEvent}
use event_correlator_tool.Store.{Store}
use event_correlator_tool.Engine.{Codec, Engine, IngestOutcome, new_engine}
use event_correlator_tool.Engine.Actions.{status, ingest, sweep, pending_of}
use event_correlator_tool.Engine.Cases.{sum-cases}
use event_correlator_tool.Lifecycle.Safety.{has-expected_sources}
use event_correlator_tool.Ledger
use event_correlator_tool.Ledger.{Ledger, Answer}
use event_correlator_tool.Ledger.Rows.{report_of}
use event_correlator_tool.Contract.{Contract}
use event_correlator_tool.Service.{IsAccepted, step_of, status_of, ingest-Answers}
use event_correlator_tool.Service.Sweeping.{traded, sweep-Sweeps}
use event_correlator_tool.Service.Delivery.{Request, submitted, swept, perform}

-- What a caller sees of a call: a status, an error, the trades of the breaks, or a panic.
pub data Response : Type 0 where
  answered : String → Response
  failed : String → Response
  broke : List String → Response
  panicked : Response

abbrev pub of_ingest : Result IngestOutcome → Response
of_ingest (ok outcome) = answered outcome.status
of_ingest (err e) = failed e
of_ingest panic = panicked

abbrev pub of_sweep : Result (List BreakEvent) → Response
of_sweep (ok breaks) = broke (traded breaks)
of_sweep (err e) = failed e
of_sweep panic = panicked

module _ (codec : Codec) (sources : List String) (window : Duration) where
  abbrev e : Engine
  e = new_engine sources window

  -- `Ingest` answers an event in the same way over any store, or accepts it.
  early_or_IsAccepted :
      (event : TradeEvent) (now : Time)
      → ((r : Result IngestOutcome) × ((store : Store) (s : store.State)
            → ingest codec store e s event now ≡ (r, s)))
        ⊎ ((payload : Bytes) × IsAccepted codec sources event payload)
  unfolding ingest
  early_or_IsAccepted event now = elim (Bool-cases (event.trade_id == "")) [
    | inl a ↦ inl (err "trade_id is required", λ store s. rw (a, ingest) refl)
    | inr a ↦ elim (Bool-cases (Dict.has e.expected_sources event.source)) [
      | inr b ↦ inl (ok (status "ignored_unknown_source"), λ store s. rw (a, b, ingest) refl)
      | inl b ↦ elim (sum-cases (codec.marshal_event event)) [
        | inl (m, c) ↦ inl (err ("marshal event: " <> m), λ store s. rw (a, b, c, ingest) refl)
        | inr (payload, c) ↦ inr (
          payload,
          record {
            named = λ q. ground arith;
            known = sym (has-expected_sources sources window event.source) ∙ b;
            encoded = c;
          },
        )
      ]
    ]
  ]

  module _ (store : Store) where
    abbrev pub respond : store.State → Request → Response
    respond s (submitted event now) = of_ingest (ingest codec store e s event now).0
    respond s (swept now) = of_sweep (sweep codec store e s now).0

    -- The responses to a sequence of calls
    abbrev pub respond_all : store.State → List Request → List Response
    respond_all s [] = []
    respond_all s (request ∷ requests) =
        respond s request ∷ respond_all (perform codec store sources window s request) requests

  module _ (a b : Store) (ka : Contract a sources) (kb : Contract b sources)
      (round : (t : Time) → ka.rounded t ≡ kb.rounded t) where
    -- States of the two stores with the same ledger
    record Alike (s : a.State) (t : b.State) : Type 0 where
      left : ka.IsOk s
      right : kb.IsOk t
      same : ka.view s ≡ kb.view t

    -- A call answers alike and leaves states that are alike.
    record Agrees (s : a.State) (t : b.State) (request : Request) : Type 0 where
      responses : respond a s request ≡ respond b t request
      next :
          Alike
            (perform codec a sources window s request)
            (perform codec b sources window t request)

    accepted-Agrees :
        (s : a.State) (t : b.State) (event : TradeEvent) (payload : Bytes) (now : Time)
        → IsAccepted codec sources event payload
        → Alike s t
        → Agrees s t (submitted event now)
    accepted-Agrees s t event payload now h k =
        let l = ingest-Answers codec a sources window ka s event payload now h k.left in
        let r = ingest-Answers codec b sources window kb t event payload now h k.right in
        let steps : step_of codec a sources window ka s event payload now
            ≡ step_of codec b sources window kb t event payload now =
          λ i.
            Ledger.ingest sources (k.same i)
              (report_of (λ x. round x i) (pending_of e event payload now)) in
        record {
          responses =
              ap of_ingest l.returned
              ∙ ap answered (l.answer ∙ ap (λ x. status_of x.0) steps ∙ sym r.answer)
              ∙ sym (ap of_ingest r.returned);
          next = record {
            left = l.kept;
            right = r.kept;
            same = l.moved ∙ ap (λ x. x.1) steps ∙ sym r.moved;
          };
        }

    call-Agrees : (s : a.State) (t : b.State) (request : Request) → Alike s t → Agrees s t request
    call-Agrees s t (submitted event now) k = elim (early_or_IsAccepted event now) [
      | inr (payload, h) ↦ accepted-Agrees s t event payload now h k
      | inl (r, same) ↦ record {
        responses = ap (λ x. of_ingest x.0) (same a s) ∙ sym (ap (λ x. of_ingest x.0) (same b t));
        next =
            subst (λ x. Alike x (ingest codec b e t event now).1) (sym (ap (λ x. x.1) (same a s)))
              (subst (Alike s) (sym (ap (λ x. x.1) (same b t))) k);
      }
    ]
    call-Agrees s t (swept now) k =
        let l = sweep-Sweeps codec a sources window ka s now k.left in
        let r = sweep-Sweeps codec b sources window kb t now k.right in
        let trades =
          IsAscending-unique (traded l.breaks) (traded r.breaks) l.said.sorted r.said.sorted
            l.said.once r.said.once
            (λ x.
              l.said.exact x ∙ ap (λ (y : Ledger). y.due x now) k.same ∙ sym (r.said.exact x)) in
        record {
          responses = ap of_sweep l.returned ∙ ap broke trades ∙ sym (ap of_sweep r.returned);
          next = record {
            left = l.kept;
            right = r.kept;
            same = l.moved ∙ ap (λ y. Ledger.sweep y now) k.same ∙ sym r.moved;
          };
        }

    all-Agrees :
        (s : a.State) (t : b.State) (requests : List Request)
        → Alike s t
        → respond_all a s requests ≡ respond_all b t requests
    all-Agrees s t [] k = refl
    all-Agrees s t (request ∷ requests) k =
        let h = call-Agrees s t request k in
        λ i.
          h.responses i
          ∷ all-Agrees (perform codec a sources window s request)
              (perform codec b sources window t request) requests h.next i

    -- Two stores that keep the contract, with the same rounding, cannot be told apart by calls of the
    -- engine: from states with the same ledger, any sequence of calls of `Ingest` and `Sweep` gets the
    -- same statuses, the same errors, and breaks of the same trades in the same order.
    pub respond_all-agree :
        (s : a.State) (t : b.State) (requests : List Request)
        → ka.IsOk s
        → kb.IsOk t
        → ka.view s ≡ kb.view t
        → respond_all a s requests ≡ respond_all b t requests
    respond_all-agree s t requests left right same =
        all-Agrees s t requests (record { left = left; right = right; same = same })
