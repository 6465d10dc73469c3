-- ===== src/Service.antt =====
-- The correlation engine (engine.go) over any store that keeps the contract: the closures that it
-- hands to the store, and `Ingest`.
pub mod Agreement
pub mod Delivery
pub mod Sweeping
use event_correlator_tool.Common.{
  String, Bool, true, false, Option, none, some, List, [], ◌∷◌, ◌≡◌, ◌≢◌, refl, sym, ◌∙◌, ap, subst,
  arith, contains, Result, ok, inr, ◌==◌,
}
use event_correlator_tool.Common.Sorting.{IsAscending}
use event_correlator_tool.Common.Dict
use event_correlator_tool.Clock.{Time, Duration}
use event_correlator_tool.Model.{Bytes, TradeEvent, ReconciledEvent, BreakEvent}
use event_correlator_tool.Store.{PendingTrade, sources_of, IngestResult, Store, Call}
use event_correlator_tool.Engine.{
  Codec, Engine, IngestOutcome, new_engine, audit_reconciled, audit_break,
}
use event_correlator_tool.Engine.Actions.{status, ingest_outcome, ingest, submit, pending_of}
use event_correlator_tool.Engine.Reconciled.{
  Sums, build_reconciled-Sums, build_reconciled-none_iff, audit_reconciled-some,
}
use event_correlator_tool.Lifecycle.Safety.{
  has-expected_sources, audit_reconciled-IsAbout, audit_break-IsAbout,
}
use event_correlator_tool.Lifecycle.Calm.{audit_break-ne-none}
use event_correlator_tool.Ledger
use event_correlator_tool.Ledger.{Ledger, Answer, duplicate, pending, reconciled}
use event_correlator_tool.Ledger.Rows.{report_of}
use event_correlator_tool.Contract.{Serves, Handed, Captures, is_new, Ingested, Contract}

module _ (codec : Codec) (sources : List String) (now : Time) where
  -- The closure of `Ingest` suits the contract.
  pub audit_reconciled-Serves :
      (event : TradeEvent) → Serves sources event.trade_id (audit_reconciled codec event now)
  unfolding audit_reconciled
  audit_reconciled-Serves event = record {
    about = audit_reconciled-IsAbout codec event now;
    returns = λ c events nonempty part h.
        nonempty (
          (build_reconciled-none_iff codec events now).0 (unfold audit_reconciled in ground arith));
  }

  -- The closure of `Sweep` suits the contract.
  pub audit_break-Serves :
      (window : Duration) (id : String)
      → Serves sources id (audit_break codec (new_engine sources window) now id)
  audit_break-Serves window id = record {
    about = audit_break-IsAbout codec (new_engine sources window) now id;
    returns =
        λ c events nonempty part. audit_break-ne-none sources window codec now id events c part;
  }

-- The status of an ingestion
abbrev pub status_of : Answer → String
status_of duplicate = "duplicate"
status_of pending = "pending"
status_of reconciled = "reconciled"

-- The reconciled event that goes with an answer: none, or one of the trade with the time of the call
-- and the expected sources, in ascending order.
abbrev pub Carries : Answer → List String → String → Time → Option ReconciledEvent → Type 0
Carries duplicate sources id now r = r ≡ none
Carries pending sources id now r = r ≡ none
Carries reconciled sources id now r =
    (event : ReconciledEvent) × (r ≡ some event)
    × (event.trade_id ≡ id)
    × (event.reconciled_at ≡ now)
    × ((a : String) → contains event.sources a ≡ contains sources a)
    × IsAscending (λ (x : String). x) event.sources

module _ (codec : Codec) (sources : List String) (event : TradeEvent) (now : Time) where
  sums :
      {c : Option ReconciledEvent}
      → Handed sources event.trade_id (audit_reconciled codec event now) none c
      → (r : ReconciledEvent) × (c ≡ some r)
        × Carries reconciled sources event.trade_id now (some r)
  sums h =
      let (r, built, said) =
        build_reconciled-Sums codec h.events now event.trade_id h.nonempty h.part.named in
      let same = audit_reconciled-some codec event now none h.events built in
      (
        r,
        h.after ∙ captured_of (sym h.ran ∙ same),
        (r, refl, said.trade, said.at, λ a. said.sources a ∙ h.exact a, said.sorted),
      )
    where
      captured_of :
          {x y : event_correlator_tool.Store.Built (Option ReconciledEvent)}
          → some x ≡ some y
          → x.captured ≡ y.captured
      captured_of e = cc

  -- What the end of `Ingest` makes of a result that fits an answer.
  answered :
      (a : Answer) (result : IngestResult) (c : Option ReconciledEvent)
      → result.inserted ≡ is_new a
      → Captures a sources event.trade_id (audit_reconciled codec event now) none c
      → (o : IngestOutcome) × (ingest_outcome (ok result) c ≡ ok o)
        × (o.status ≡ status_of a)
        × Carries a sources event.trade_id now o.reconciled
  answered duplicate result c e h = (status "duplicate", rw h (rw e refl), refl, refl)
  answered pending result c e h = (status "pending", rw h (rw e refl), refl, refl)
  answered reconciled result c e h =
      let (r, same, said) = sums h in
      (
        record { status = "reconciled"; reconciled = some r },
        ap (ingest_outcome (ok result)) same ∙ rw e refl,
        refl,
        said,
      )

-- An event that the engine submits to its store: it names its trade, its source is expected, and it
-- encodes to the payload.
pub record IsAccepted (codec : Codec) (sources : List String) (event : TradeEvent) (payload : Bytes)
    : Type 0 where
  pub named : event.trade_id ≢ ""
  pub known : contains sources event.source ≡ true
  pub encoded : codec.marshal_event event ≡ inr payload

-- `Ingest` hands such an event to the store.
pub ingest-submit :
    (codec : Codec) (store : Store) (sources : List String) (window : Duration) (s : store.State)
    (event : TradeEvent) (payload : Bytes) (now : Time)
    → IsAccepted codec sources event payload
    → ingest codec store (new_engine sources window) s event now
      ≡ submit codec store (new_engine sources window) s event payload now
unfolding ingest
ingest-submit codec store sources window s event payload now h =
    rw (named, known, h.encoded, ingest) refl
  where
    named : (event.trade_id == "") ≡ false
    named = ground (arith, h.named)

    known : Dict.has (new_engine sources window).expected_sources event.source ≡ true
    known = has-expected_sources sources window event.source ∙ h.known

module _ (codec : Codec) (store : Store) (sources : List String) (window : Duration)
    (k : Contract store sources) (s : store.State) where
  -- The ledger's step for an event
  abbrev pub step_of : TradeEvent → Bytes → Time → Answer × Ledger
  step_of event payload now =
      Ledger.ingest sources (k.view s)
        (report_of k.rounded (pending_of (new_engine sources window) event payload now))

  -- What an ingestion leaves that takes a step of the ledger
  pub record Answers (step : Answer × Ledger) (event : TradeEvent) (now : Time)
      (call : Result IngestOutcome × store.State) : Type 0 where
    pub outcome : IngestOutcome
    pub returned : call.0 ≡ ok outcome
    pub answer : outcome.status ≡ status_of step.0
    pub event_of : Carries step.0 sources event.trade_id now outcome.reconciled
    pub kept : k.IsOk call.1
    pub moved : k.view call.1 ≡ step.1

  -- Over any store that keeps the contract, and in a state of its, `Ingest` of an event that names
  -- its trade, has an expected source and encodes, returns the ledger's answer as its status, with
  -- a reconciled event exactly where that is "reconciled": it is about the trade, has the time of
  -- the call and exactly the expected sources, in ascending order. The store takes the ledger's step.
  pub ingest-Answers :
      (event : TradeEvent) (payload : Bytes) (now : Time)
      → IsAccepted codec sources event payload
      → k.IsOk s
      → Answers
          (step_of event payload now)
          event
          now
          (ingest codec store (new_engine sources window) s event now)
  unfolding submit new_engine
  ingest-Answers event payload now h good =
      let call =
        store.ingest s (pending_of (new_engine sources window) event payload now) sources
          (audit_reconciled codec event now) none in
      let done =
        k.ingests s (pending_of (new_engine sources window) event payload now)
          (audit_reconciled codec event now) none good h.known
          (audit_reconciled-Serves codec sources now event) in
      let (o, ran, answer, carried) =
        answered codec sources event now (step_of event payload now).0 done.result call.captured
          done.inserted done.captured in
      subst (Answers (step_of event payload now) event now)
        (sym (ingest-submit codec store sources window s event payload now h))
        (record {
          outcome = o;
          returned = ap (λ r. ingest_outcome r call.captured) done.returned ∙ ran;
          answer = answer;
          event_of = carried;
          kept = done.kept;
          moved = done.moved;
        })
