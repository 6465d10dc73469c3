-- ===== src/Lifecycle/Events.antt =====
-- What the rows of the memory store encode, with a codec that reads back what it writes.
pub mod Carried
use event_correlator_tool.Common.{
  String, Bool, true, false, none, some, List, [], ◌∷◌, ◌++◌, map, ◌≡◌, ◌≢◌, refl, sym, ap, ◌∙◌,
  subst, inl, inr, Bool-cases, ◌==◌, if◌then◌else◌, contains, Every, Every-keep, Every-snoc, arith,
  Result, ok, err,
}
use event_correlator_tool.Common.Sorting.Laws.{Every-sort}
use event_correlator_tool.Clock.{Time, Duration}
use event_correlator_tool.Model.{Bytes, TradeEvent, ReconciledEvent, BreakEvent}
use event_correlator_tool.Store.{PendingTrade, sources_of, Call}
use event_correlator_tool.Memory.{
  Memory, new, pending_events, has_every_source, expected_events, is_duplicate, is_due, appended,
  lower_deadline,
}
use event_correlator_tool.Memory.Selection.{expected_events-keep}
use event_correlator_tool.Memory.Invariant.{IsValid, new-IsValid}
use event_correlator_tool.Memory.Sweep.{memory_store, sweep_expired}
use event_correlator_tool.Memory.Sweep.Claims.{sweep_expired_claims}
use event_correlator_tool.Engine.{Codec, Engine, new_engine, audit_break, sort_events}
use event_correlator_tool.Engine.Actions.{ingest, sweep}
use event_correlator_tool.Engine.Cases.{ingest_cases}
use event_correlator_tool.Engine.Break.{sort_events-eq-sort}
use event_correlator_tool.Engine.Reconciled.{build_reconciled-fields}
use event_correlator_tool.Lifecycle.Safety.{
  has-expected_sources, audit_break-IsAbout, ingest-IsValid_of, sweep-IsValid_of,
}
use event_correlator_tool.Lifecycle.Calm.{sweep_all-eq-next}
use event_correlator_tool.Common.Dict
use event_correlator_tool.Common.Sorting.{sort_strings}
use event_correlator_tool.Lifecycle.Outcomes.{
  row, IsSubmitted, ingest-submit, ingest-answers_duplicate, ingest-answers_pending,
  ingest-answers_reconciled,
}

-- `json.Unmarshal` gives back what `json.Marshal` wrote, of the events in `P`.
pub record RoundTrips (codec : Codec) (P : TradeEvent → Type 0) : Type 0 where
  pub read :
      (event : TradeEvent) (payload : Bytes)
      → P event
      → codec.marshal_event event ≡ inr payload
      → codec.unmarshal_event payload ≡ event

-- The states that calls with events in `P` leave a new store in.
pub data Heard (codec : Codec) (e : Engine) (P : TradeEvent → Type 0) : Memory → Type 0 where
  start : Heard codec e P new
  ingested :
      {s : Memory} (event : TradeEvent) (now : Time)
      → P event
      → Heard codec e P s
      → Heard codec e P (ingest codec memory_store e s event now).1
  swept :
      {s : Memory} (now : Time)
      → Heard codec e P s
      → Heard codec e P (sweep codec memory_store e s now).1

module _ (codec : Codec) (P : TradeEvent → Type 0) where
  -- The payload of the row is that of an event in `P`, of the row's trade and source.
  pub record IsEncoded (r : PendingTrade) : Type 0 where
    pub heard : P (codec.unmarshal_event r.payload)
    pub trade : (codec.unmarshal_event r.payload).trade_id ≡ r.trade_id
    pub source : (codec.unmarshal_event r.payload).source ≡ r.source

  abbrev pub AreEncoded : Memory → Type 0
  AreEncoded s = (id : String) → Every IsEncoded (pending_events s id)

  if-Every :
      (b : Bool) (l r : List PendingTrade)
      → Every IsEncoded l
      → Every IsEncoded r
      → Every IsEncoded (if b then l else r)
  if-Every true l r h k = h
  if-Every false l r h k = k

  module _ (trips : RoundTrips codec P) (sources : List String) (window : Duration) (s : Memory)
      (v : IsValid sources s) (h : AreEncoded s) where
    module _ (event : TradeEvent) (now : Time) (heard : P event) (payload : Bytes)
        (sub : IsSubmitted sources window codec s event now payload) where
      pub appended-Every :
          Every IsEncoded (appended s (row sources window codec s event now payload))
      unfolding appended
      appended-Every =
          let e = trips.read event payload heard sub.encoded in
          Every-snoc IsEncoded (pending_events s event.trade_id) _ (h event.trade_id) (record {
            heard = subst P (sym e) heard;
            trade = ap (λ (x : TradeEvent). x.trade_id) e;
            source = ap (λ (x : TradeEvent). x.source) e;
          })

      submitted-AreEncoded :
          AreEncoded (ingest codec memory_store (new_engine sources window) s event now).1
      submitted-AreEncoded =
          let r = row sources window codec s event now payload in
          elim (Bool-cases (is_duplicate s r)) [
            | inl dup ↦
                subst AreEncoded
                  (sym (
                    ap (λ x. x.1)
                      (ingest-answers_duplicate sources window codec s event now payload sub dup)))
                  h
            | inr fresh ↦ elim (Bool-cases (has_every_source (appended s r) sources)) [
              | inl complete ↦
                  let (x, next, ran, done) =
                    ingest-answers_reconciled sources window codec s event now payload v sub fresh
                      complete in
                  subst AreEncoded (sym (ap (λ y. y.1) ran)) (λ k.
                    subst (Every IsEncoded) (sym (done.pending k))
                      (if-Every (event.trade_id == k) [] (pending_events s k) tt (h k)))
              | inr incomplete ↦
                  let (next, ran, log, rows) =
                    ingest-answers_pending sources window codec s event now payload sub fresh
                      incomplete in
                  subst AreEncoded (sym (ap (λ y. y.1) ran)) (λ k.
                    subst (Every IsEncoded) (sym (rows k))
                      (if-Every (event.trade_id == k) _ (pending_events s k) appended-Every (h k)))
            ]
          ]

    sweep-AreEncoded :
        (now : Time) → AreEncoded (sweep codec memory_store (new_engine sources window) s now).1
    unfolding sweep sweep_expired
    sweep-AreEncoded now k =
        let build = audit_break codec (new_engine sources window) now in
        let (l, ran) =
          sweep_all-eq-next sources window codec now (sort_strings (Dict.keys s.events))
            (record { store = s; expired = []; captured = [] }) v in
        let (_, rows, _) =
          sweep_expired_claims s now build [] l.expired
            (audit_break-IsAbout codec (new_engine sources window) now)
            (rw (ran, sweep_expired) refl) k in
        subst (Every IsEncoded) (sym rows)
          (if-Every (is_due now (pending_events s k)) [] (pending_events s k) tt (h k))

  pub record IsHeard (sources : List String) (s : Memory) : Type 0 where
    pub valid : IsValid sources s
    pub encoded : AreEncoded s

  pub Heard-IsHeard :
      (trips : RoundTrips codec P) (sources : List String) (window : Duration) {s : Memory}
      → Heard codec (new_engine sources window) P s
      → IsHeard sources s
  unfolding new pending_events Dict.get
  Heard-IsHeard trips sources window start = record {
    valid = new-IsValid sources;
    encoded = λ id. tt;
  }
  Heard-IsHeard trips sources window (ingested {s} event now p r) =
      let k = Heard-IsHeard trips sources window r in
      record {
        valid = ingest-IsValid_of sources window codec s k.valid now event;
        encoded =
            ingest_cases codec memory_store (new_engine sources window) s event now
              (λ x. AreEncoded x.1) k.encoded k.encoded (λ m _. k.encoded)
              (λ payload named known encoded.
                let sub : IsSubmitted sources window codec s event now payload = record {
                  named = named;
                  known = sym (has-expected_sources sources window event.source) ∙ known;
                  encoded = encoded;
                } in
                subst (λ x. AreEncoded x.1)
                  (ingest-submit sources window codec s event now payload sub)
                  (submitted-AreEncoded trips sources window s k.valid k.encoded event now p payload
                    sub));
      }
  Heard-IsHeard trips sources window (swept {s} now r) =
      let k = Heard-IsHeard trips sources window r in
      record {
        valid = sweep-IsValid_of sources window codec s k.valid now;
        encoded = sweep-AreEncoded trips sources window s k.valid k.encoded now;
      }
