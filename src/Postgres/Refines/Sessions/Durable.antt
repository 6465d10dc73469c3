-- ===== src/Postgres/Refines/Sessions/Durable.antt =====
-- An event that postgres.go has acknowledged is not lost, whatever sessions do then.
use event_correlator_tool.Common.{
  ℕ, String, true, Option, none, some, List, ◌≡◌, ◌≢◌, refl, sym, ◌∙◌, ap, subst, arith, Result, ok,
  err, panic,
}
use event_correlator_tool.Common.Int.{leb_ℤ}
use event_correlator_tool.Clock.{Time, Duration, add}
use event_correlator_tool.Model.{Bytes, TradeEvent, ReconciledEvent}
use event_correlator_tool.Store.{IngestResult}
use event_correlator_tool.Engine.{Codec, IngestOutcome, new_engine, audit_reconciled}
use event_correlator_tool.Engine.Actions.{ingest, sweep, submit, pending_of, ingest_outcome}
use event_correlator_tool.Lifecycle.Safety.{audit_reconciled-IsAbout}
use event_correlator_tool.Ledger.{Ledger, Answer, duplicate, pending, reconciled}
use event_correlator_tool.Ledger.Rows.{report_of}
use event_correlator_tool.Ledger.Delivery.{is_settled, ingest-settles, sweep-closes}
use event_correlator_tool.Contract.{is_new}
use event_correlator_tool.Contract.Histories.{Steps-is_settled}
use event_correlator_tool.Postgres.{Tables, Server}
use event_correlator_tool.Postgres.Client.{postgres_store, opened}
use event_correlator_tool.Postgres.Refines.{Stores, Suits, view_of, IsTidy}
use event_correlator_tool.Postgres.Refines.Faults.Requests.{ingest-IsAtomic}
use event_correlator_tool.Postgres.Refines.Sweep.{postgres_contract}
use event_correlator_tool.Postgres.Refines.Sessions.{Sessions, connected, Sessions-IsTraced}
use event_correlator_tool.Service.{IsAccepted, ingest-submit}
use event_correlator_tool.Service.Sweeping.{sweep-Sweeps}
use event_correlator_tool.Service.Delivery.{Closes}

-- An outcome that is not "duplicate" comes from a row that was inserted.
acknowledged :
    (r : Result IngestResult) (c : Option ReconciledEvent) (outcome : IngestOutcome)
    → ingest_outcome r c ≡ ok outcome
    → outcome.status ≢ "duplicate"
    → (result : IngestResult) × (r ≡ ok result) × (result.inserted ≡ true)
acknowledged (ok result) none outcome h new = (result, refl, ground arith)
acknowledged (ok result) (some event) outcome h new = (result, refl, ground arith)
acknowledged (err e) c outcome h new = cc
acknowledged panic c outcome h new = cc

not_duplicate : (a : Answer) → is_new a ≡ true → a ≢ duplicate
not_duplicate duplicate h = cc
not_duplicate pending h = λ e. cc
not_duplicate reconciled h = λ e. cc

module _ (server : Server) (kept : Time → Time) (stores : Stores server kept) (codec : Codec)
    (sources : List String) (window : Duration) (n : ℕ) (t : Tables) (tidy : IsTidy kept sources t)
    (event : TradeEvent) (payload : Bytes) (now : Time)
    (accepted : IsAccepted codec sources event payload) where
  abbrev call : Result IngestOutcome × event_correlator_tool.Postgres.Client.Database
  call = ingest codec (postgres_store server) (new_engine sources window) (connected n t) event now

  -- The trade is closed or due at a time.
  record HasSettled (at : Time) (u : Tables) : Type 0 where
    tidy_after : IsTidy kept sources u
    settled : is_settled (view_of u) event.trade_id at ≡ true

  submit-HasSettled :
      (outcome : IngestOutcome) (at : Time)
      → (submit codec
          (postgres_store server)
          (new_engine sources window)
          (connected n t)
          event
          payload
          now).0
        ≡ ok outcome
      → outcome.status ≢ "duplicate"
      → leb_ℤ (kept (add now window)) at ≡ true
      → HasSettled at
          (submit codec
            (postgres_store server)
            (new_engine sources window)
            (connected n t)
            event
            payload
            now).1.committed
  unfolding submit new_engine
  submit-HasSettled outcome at returned new late =
      let row = pending_of (new_engine sources window) event payload now in
      let (result, ran, inserted) = acknowledged _ _ outcome returned new in
      let taken =
        (ingest-IsAtomic server kept stores sources row t tidy accepted.known
            (audit_reconciled codec event now) (audit_reconciled-IsAbout codec event now)
            (opened (connected n t) none) (λ i. t)).answered
          result ran in
      record {
        tidy_after = taken.tidy;
        settled =
            ap (λ l. is_settled l event.trade_id at) taken.moved
            ∙ ingest-settles sources (view_of t) (report_of kept row) at
                (not_duplicate _ (sym taken.inserted ∙ inserted)) late;
      }

  -- Where `Ingest` of an accepted event returns a status that is not "duplicate", over a server on which
  -- any request may fail, then, whatever sessions do, interleaved and with failing requests, and with
  -- any windows, a sweep at or after the event's deadline, as the server rounds it, over a server that
  -- reports no error and gives each lock, returns breaks without an error and leaves the trade
  -- closed.
  pub acknowledged-Closes :
      (outcome : IngestOutcome) (at : Time)
      → call.0 ≡ ok outcome
      → outcome.status ≢ "duplicate"
      → leb_ℤ (kept (add now window)) at ≡ true
      → {u : Tables} → Sessions kept codec sources call.1.committed u
      → (quiet : Server) (suits : Suits quiet kept) (again : Duration) (m : ℕ)
      → Closes codec
          (postgres_store quiet)
          sources
          again
          (postgres_contract quiet kept suits sources)
          event.trade_id
          (sweep codec (postgres_store quiet) (new_engine sources again) (connected m u) at)
  acknowledged-Closes outcome at returned new late {u} r quiet suits again m =
      let same =
        ingest-submit codec (postgres_store server) sources window (connected n t) event payload now
          accepted in
      let first = submit-HasSettled outcome at (sym (ap (λ x. x.0) same) ∙ returned) new late in
      let traced =
        Sessions-IsTraced kept codec sources first.tidy_after
          (subst (λ x. Sessions kept codec sources x.1.committed u) same r) in
      let last =
        sweep-Sweeps codec (postgres_store quiet) sources again
          (postgres_contract quiet kept suits sources) (connected m u) at traced.tidy in
      record {
        breaks = last.breaks;
        returned = last.returned;
        kept = last.kept;
        closed =
            ap (λ (l : Ledger). l.closed event.trade_id) last.moved
            ∙ sweep-closes _ event.trade_id at
                (Steps-is_settled sources event.trade_id at traced.steps first.settled);
      }
