-- ===== src/Lifecycle/Events/Carried.antt =====
-- The events that a reconciled event of engine.go carries, over the memory store and a codec that
-- reads back what it writes.
use event_correlator_tool.Common.{
  String, true, false, some, List, [], ◌∷◌, map, ◌≡◌, refl, sym, ap, ◌∙◌, subst, contains, Every,
  Every-keep, ok,
}
use event_correlator_tool.Common.Sorting.Laws.{Every-sort}
use event_correlator_tool.Clock.{Time, Duration}
use event_correlator_tool.Model.{Bytes, TradeEvent, ReconciledEvent}
use event_correlator_tool.Store.{PendingTrade, sources_of}
use event_correlator_tool.Memory.{Memory, has_every_source, expected_events, is_duplicate, appended}
use event_correlator_tool.Memory.Selection.{expected_events-keep}
use event_correlator_tool.Memory.Sweep.{memory_store}
use event_correlator_tool.Engine.{Codec, new_engine, sort_events}
use event_correlator_tool.Engine.Actions.{ingest}
use event_correlator_tool.Engine.Break.{sort_events-eq-sort}
use event_correlator_tool.Engine.Reconciled.{build_reconciled-fields}
use event_correlator_tool.Lifecycle.Outcomes.{row, IsSubmitted, ingest-answers_reconciled}
use event_correlator_tool.Lifecycle.Events.{
  RoundTrips, Heard, IsEncoded, appended-Every, Heard-IsHeard,
}

module _ (codec : Codec) (P : TradeEvent → Type 0) where
  Every-decoded :
      (rows : List PendingTrade)
      → Every (IsEncoded codec P) rows
      → Every P (map (λ (r : PendingTrade). codec.unmarshal_event r.payload) rows)
  Every-decoded [] h = tt
  Every-decoded (r ∷ rows) (x, h) = (x.heard, Every-decoded rows h)

  decoded-sources :
      (rows : List PendingTrade)
      → Every (IsEncoded codec P) rows
      → map
          (λ (x : TradeEvent). x.source)
          (map (λ (r : PendingTrade). codec.unmarshal_event r.payload) rows)
        ≡ sources_of rows
  decoded-sources [] h = refl
  decoded-sources (r ∷ rows) (x, h) = λ i. x.source i ∷ decoded-sources rows h i

  -- In a state that a history of calls with events in `P` reaches, and with a codec that reads back
  -- what it writes of them, a new event in `P` that completes its trade is answered with a reconciled event
  -- whose events are all in `P` and come from its sources, one from each and in their order: none is
  -- made up, lost or listed under another source.
  pub reconciled-CarriesHeard :
      (trips : RoundTrips codec P) (sources : List String) (window : Duration) {s : Memory}
      (event : TradeEvent) (now : Time) (payload : Bytes)
      → Heard codec (new_engine sources window) P s
      → P event
      → IsSubmitted sources window codec s event now payload
      → is_duplicate s (row sources window codec s event now payload) ≡ false
      → has_every_source (appended s (row sources window codec s event now payload)) sources ≡ true
      → (r : ReconciledEvent) × ((ingest codec memory_store
            (new_engine sources window)
            s
            event
            now).0
          ≡ ok (record { status = "reconciled"; reconciled = some r }))
        × Every P r.events
        × (map (λ (x : TradeEvent). x.source) r.events ≡ r.sources)
        × ((a : String) → contains r.sources a ≡ contains sources a)
  reconciled-CarriesHeard trips sources window {s} event now payload reach p sub fresh complete =
      let k = Heard-IsHeard codec P trips sources window reach in
      let (r, next, ran, done) =
        ingest-answers_reconciled sources window codec s event now payload k.valid sub fresh
          complete in
      let (named, carried) = build_reconciled-fields codec _ now done.built in
      let rows : Every (IsEncoded codec P) (
          sort_events
            (expected_events (appended s (row sources window codec s event now payload)) sources)) =
        sorted-Every (appended s (row sources window codec s event now payload)) sources (
          appended-Every codec P trips sources window s k.valid k.encoded event now p payload
            sub) in
      (
        r,
        ap (λ x. x.0) ran,
        subst (Every P) (sym carried) (Every-decoded _ rows),
        ap (map (λ (x : TradeEvent). x.source)) carried ∙ decoded-sources _ rows ∙ sym named,
        done.sources_exact,
      )
    where
      sorted-Every :
          (l : List PendingTrade) (expected : List String)
          → Every (IsEncoded codec P) l
          → Every (IsEncoded codec P) (sort_events (expected_events l expected))
      sorted-Every l expected h =
          subst (Every (IsEncoded codec P)) (sym (sort_events-eq-sort (expected_events l expected)))
            (Every-sort _ (IsEncoded codec P) (expected_events l expected) (
              subst (Every (IsEncoded codec P)) (sym (expected_events-keep l expected))
                (Every-keep (IsEncoded codec P) _ l h)))
