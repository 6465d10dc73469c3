-- ===== src/Tests/Events.antt =====
-- The events that a reconciled event carries, at concrete data.
use event_correlator_tool.Common.{
  String, [], ◌∷◌, map, ◌≡◌, ◌⊎◌, inl, inr, refl, sym, ◌∙◌, ap, some, ok, contains, Every, eqb,
  if◌then◌else◌, string_discrete,
}
use event_correlator_tool.Common.Int.{pos}
use event_correlator_tool.Common.Dict
use event_correlator_tool.Model.{Bytes, TradeEvent, ReconciledEvent}
use event_correlator_tool.Memory.{
  Memory, new, pending_events, seen_sources, all_seen, has_every_source, is_duplicate, is_finalized,
  has_source, appended, lower_deadline, admit,
}
use event_correlator_tool.Memory
use event_correlator_tool.Memory.Sweep.{memory_store}
use event_correlator_tool.Engine.{Codec, new_engine}
use event_correlator_tool.Engine.Actions.{ingest, submit}
use event_correlator_tool.Lifecycle.Outcomes.{IsSubmitted}
use event_correlator_tool.Lifecycle.Events.{start, ingested}
use event_correlator_tool.Lifecycle.Events.Carried.{reconciled-CarriesHeard}
use event_correlator_tool.Tests.{sources, window, codec, solar, murex}
use event_correlator_tool.Tests.Lifecycle.{engine}

-- The quantity tells the two events apart.
abbrev told : Bytes → TradeEvent
told [] = murex
told (n ∷ bytes) = if eqb n 7 then solar else murex

abbrev telling : Codec
telling = record codec { unmarshal_event = told }

abbrev IsEither : TradeEvent → Type 0
IsEither event = (event ≡ solar) ⊎ (event ≡ murex)

inr-injective : {x y : Bytes} → ◌≡◌ {A = String ⊎ Bytes} (inr x) (inr y) → x ≡ y
inr-injective h = cc

read_either :
    (event : TradeEvent) (payload : Bytes)
    → IsEither event
    → telling.marshal_event event ≡ inr payload
    → told payload ≡ event
read_either event payload (inl e) h =
    sym (ap told (inr-injective h)) ∙ ap (λ (x : TradeEvent). told (x.quantity ∷ [])) e ∙ sym e
read_either event payload (inr e) h =
    sym (ap told (inr-injective h)) ∙ ap (λ (x : TradeEvent). told (x.quantity ∷ [])) e ∙ sym e

abbrev heard_once : Memory
heard_once = (ingest telling memory_store engine new solar (pos 3)).1

murex-IsSubmitted : IsSubmitted sources window telling heard_once murex (pos 5) (8 ∷ [])
unfolding contains string_discrete
murex-IsSubmitted = record { named = λ e. cc; known = refl; encoded = refl }

carried :
    (r : ReconciledEvent) × ((ingest telling memory_store
        (new_engine sources window)
        heard_once
        murex
        (pos 5)).0
      ≡ ok (record { status = "reconciled"; reconciled = some r }))
    × Every IsEither r.events
    × (map (λ (x : TradeEvent). x.source) r.events ≡ r.sources)
    × ((a : String) → contains r.sources a ≡ contains sources a)
unfolding ingest submit new_engine new Memory.ingest is_duplicate is_finalized has_source
    pending_events admit appended lower_deadline has_every_source seen_sources all_seen Dict.get
    Dict.set Dict.has Dict.set_of string_discrete
carried =
    reconciled-CarriesHeard telling IsEither (record { read = read_either }) sources window murex
      (pos 5) (8 ∷ []) (ingested solar (pos 3) (inl refl) start) (inr refl) murex-IsSubmitted refl
      refl
