-- ===== src/Service/Delivery.antt =====
-- Sequences of calls of engine.go over any store that keeps the contract.
use event_correlator_tool.Common.{
  String, true, List, [], ◌∷◌, map, ◌≡◌, ◌≢◌, refl, sym, ◌∙◌, ap, subst, Every, Result, ok, err,
  panic, ◌⊎◌, inl, inr,
}
use event_correlator_tool.Common.Int.{leb_ℤ}
use event_correlator_tool.Clock.{Time, Duration, add}
use event_correlator_tool.Model.{Bytes, TradeEvent, BreakEvent}
use event_correlator_tool.Store.{Store}
use event_correlator_tool.Engine.{Codec, Engine, IngestOutcome, new_engine}
use event_correlator_tool.Engine.Actions.{ingest, sweep, pending_of}
use event_correlator_tool.Engine.Cases.{ingest_cases}
use event_correlator_tool.Lifecycle.Safety.{has-expected_sources}
use event_correlator_tool.Ledger.{Ledger, Report, duplicate, close}
use event_correlator_tool.Ledger.Rows.{report_of}
use event_correlator_tool.Ledger.Delivery.{
  run, answers_to, Completes, run-Completes, is_settled, ingest-is_settled, sweep-is_settled,
  sweep-closes, ingest-settles,
}
use event_correlator_tool.Contract.{Contract}
use event_correlator_tool.Service.{IsAccepted, step_of, status_of, ingest-Answers}
use event_correlator_tool.Service.Sweeping.{sweep-Sweeps}

-- A call of the engine
pub data Request : Type 0 where
  submitted : TradeEvent → Time → Request
  swept : Time → Request

-- An event that is delivered at a time, and its encoding
pub record Delivery : Type 0 where
  pub event : TradeEvent
  pub payload : Bytes
  pub now : Time

abbrev pub answer_of : Result IngestOutcome → String
answer_of (ok outcome) = outcome.status
answer_of (err e) = ""
answer_of panic = ""

module _ (codec : Codec) (store : Store) (sources : List String) (window : Duration) where
  abbrev e : Engine
  e = new_engine sources window

  -- The state after a call
  abbrev pub perform : store.State → Request → store.State
  perform s (submitted event now) = (ingest codec store e s event now).1
  perform s (swept now) = (sweep codec store e s now).1

  -- The state after a sequence of calls
  abbrev pub perform_all : store.State → List Request → store.State
  perform_all s [] = s
  perform_all s (request ∷ requests) = perform_all (perform s request) requests

  -- The statuses that a sequence of events is answered with, and the last state
  abbrev pub deliver_all : store.State → List Delivery → List String × store.State
  deliver_all s [] = ([], s)
  deliver_all s (d ∷ ds) =
      let call = ingest codec store e s d.event d.now in
      let (answers, last) = deliver_all call.1 ds in (answer_of call.0 ∷ answers, last)

  module _ (k : Contract store sources) where
    abbrev report : Delivery → Report
    report d = report_of k.rounded (pending_of e d.event d.payload d.now)

    abbrev AreAccepted : List Delivery → Type 0
    AreAccepted = Every (λ d. IsAccepted codec sources d.event d.payload)

    -- What a sequence of events leaves
    record Delivered (s : store.State) (ds : List Delivery) : Type 0 where
      answers : (deliver_all s ds).0 ≡ map status_of (run sources (k.view s) (map report ds)).0
      kept : k.IsOk (deliver_all s ds).1
      moved : k.view (deliver_all s ds).1 ≡ (run sources (k.view s) (map report ds)).1

    deliver_all-Delivered :
        (s : store.State) (ds : List Delivery) → k.IsOk s → AreAccepted ds → Delivered s ds
    unfolding new_engine
    deliver_all-Delivered s [] good h = record { answers = refl; kept = good; moved = refl }
    deliver_all-Delivered s (d ∷ ds) good (accepted, h) =
        let first =
          ingest-Answers codec store sources window k s d.event d.payload d.now accepted good in
        let rest = deliver_all-Delivered (ingest codec store e s d.event d.now).1 ds first.kept h in
        let answer : answer_of (ingest codec store e s d.event d.now).0 ≡ _ =
          ap answer_of first.returned ∙ first.answer in
        record {
          answers = rw (answer, rest.answers, first.moved) refl;
          kept = rest.kept;
          moved = rw (rest.moved, first.moved) refl;
        }

    -- Over any store that keeps the contract: deliver accepted events of one trade that is open and for
    -- which none of their sources has reported, in any order, one from each of different expected sources, so
    -- that with those that have reported before they are all expected sources. Each event but the last
    -- is answered with "pending", the last with "reconciled", and the trade is then closed.
    pub deliver_all-Completes :
        (s : store.State) (id : String) (d : Delivery) (ds : List Delivery)
        → k.IsOk s
        → AreAccepted (d ∷ ds)
        → Completes sources (k.view s) id (map report (d ∷ ds))
        → ((deliver_all s (d ∷ ds)).0 ≡ map status_of (answers_to (map report (d ∷ ds))))
          × k.IsOk (deliver_all s (d ∷ ds)).1
          × (k.view (deliver_all s (d ∷ ds)).1 ≡ close (k.view s) id)
    deliver_all-Completes s id d ds good accepted h =
        let done = deliver_all-Delivered s (d ∷ ds) good accepted in
        let ran = run-Completes sources (k.view s) id (report d) (map report ds) h in
        (done.answers ∙ ap (λ r. map status_of r.0) ran, done.kept, done.moved ∙ ap (λ r. r.1) ran)

    -- The state is one of the store's, and the trade is closed or due at the time.
    record Settled (id : String) (t : Time) (s : store.State) : Type 0 where
      kept : k.IsOk s
      settled : is_settled (k.view s) id t ≡ true

    -- An event is accepted, or the state stays as it is.
    ingest-accepts :
        (s : store.State) (event : TradeEvent) (now : Time)
        → ((payload : Bytes) × IsAccepted codec sources event payload)
          ⊎ ((ingest codec store e s event now).1 ≡ s)
    ingest-accepts s event now =
        ingest_cases codec store e s event now
          (λ r. ((payload : Bytes) × IsAccepted codec sources event payload) ⊎ (r.1 ≡ s)) (inr refl)
          (inr refl) (λ m _. inr refl)
          (λ payload named known encoded. inl (
            payload,
            record {
              named = named;
              known = sym (has-expected_sources sources window event.source) ∙ known;
              encoded = encoded;
            },
          ))

    perform-Settled :
        (id : String) (t : Time) (s : store.State) (request : Request)
        → Settled id t s
        → Settled id t (perform s request)
    perform-Settled id t s (submitted event now) h = elim (ingest-accepts s event now) [
      | inr same ↦ subst (Settled id t) (sym same) h
      | inl (payload, accepted) ↦
          let done =
            ingest-Answers codec store sources window k s event payload now accepted h.kept in
          record {
            kept = done.kept;
            settled =
                ap (λ l. is_settled l id t) done.moved
                ∙ ingest-is_settled (k.view s) id t sources
                    (report (record { event = event; payload = payload; now = now })) h.settled;
          }
    ]
    perform-Settled id t s (swept now) h =
        let done = sweep-Sweeps codec store sources window k s now h.kept in
        record {
          kept = done.kept;
          settled =
              ap (λ l. is_settled l id t) done.moved
              ∙ sweep-is_settled (k.view s) id t now h.settled;
        }

    perform_all-Settled :
        (id : String) (t : Time) (s : store.State) (requests : List Request)
        → Settled id t s
        → Settled id t (perform_all s requests)
    perform_all-Settled id t s [] h = h
    perform_all-Settled id t s (request ∷ requests) h =
        perform_all-Settled id t (perform s request) requests (perform-Settled id t s request h)

    -- The sweep returns breaks, and the trade is closed.
    pub record Closes (id : String) (call : Result (List BreakEvent) × store.State) : Type 0 where
      pub breaks : List BreakEvent
      pub returned : call.0 ≡ ok breaks
      pub kept : k.IsOk call.1
      pub closed : (k.view call.1).closed id ≡ true

    -- Over any store that keeps the contract: after an accepted event that is no duplicate, whatever
    -- is called then, and in whatever order, a sweep at or after the event's deadline, as the store
    -- rounds it, returns breaks without an error and leaves the trade closed.
    pub accepted-Closes :
        (s : store.State) (d : Delivery) (later : List Request) (t : Time)
        → k.IsOk s
        → IsAccepted codec sources d.event d.payload
        → (step_of codec store sources window k s d.event d.payload d.now).0 ≢ duplicate
        → leb_ℤ (k.rounded (add d.now window)) t ≡ true
        → Closes d.event.trade_id
            (sweep codec store e (perform_all (perform s (submitted d.event d.now)) later) t)
    unfolding new_engine
    accepted-Closes s d later t good accepted fresh late =
        let first =
          ingest-Answers codec store sources window k s d.event d.payload d.now accepted good in
        let then =
          perform_all-Settled d.event.trade_id t (perform s (submitted d.event d.now)) later
            (record {
              kept = first.kept;
              settled =
                  ap (λ l. is_settled l d.event.trade_id t) first.moved
                  ∙ ingest-settles sources (k.view s) (report d) t fresh late;
            }) in
        let last =
          sweep-Sweeps codec store sources window k
            (perform_all (perform s (submitted d.event d.now)) later) t then.kept in
        record {
          breaks = last.breaks;
          returned = last.returned;
          kept = last.kept;
          closed =
              ap (λ (l : Ledger). l.closed d.event.trade_id) last.moved
              ∙ sweep-closes _ d.event.trade_id t then.settled;
        }
