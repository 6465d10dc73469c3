-- ===== src/Tests/Lifecycle.antt =====
-- The theorems on the engine over the memory store at concrete data.
use event_correlator_tool.Common.{
  some, inl, [], ◌∷◌, ◌≡◌, refl, subst, ok, contains, string_discrete,
}
use event_correlator_tool.Common.Int.{pos, ◌+ℤ◌}
use event_correlator_tool.Common.Dict
use event_correlator_tool.Clock.{add}
use event_correlator_tool.Model.{ReconciledEvent}
use event_correlator_tool.Memory.{
  Memory, new, pending_events, seen_sources, all_seen, has_every_source, is_duplicate, is_finalized,
  has_source, appended, lower_deadline, admit,
}
use event_correlator_tool.Memory.Invariant.{IsValid}
use event_correlator_tool.Memory.Sweep.{memory_store}
use event_correlator_tool.Memory
use event_correlator_tool.Engine.{Engine, new_engine}
use event_correlator_tool.Engine.Actions.{ingest, sweep, submit, audit_history}
use event_correlator_tool.Lifecycle.{Reach, start, ingested}
use event_correlator_tool.Lifecycle
use event_correlator_tool.Lifecycle.Safety.{Reach-IsValid}
use event_correlator_tool.Lifecycle.Outcomes.{IsSubmitted}
use event_correlator_tool.Lifecycle.History.{ReadsBack, reconciled-ReadsBack}
use event_correlator_tool.Tests.{sources, window, codec, solar, murex, row_of}

abbrev pub engine : Engine
engine = new_engine sources window

-- A store in which `solar` has reported.
abbrev holding : Memory
holding = record { events = ("t1", row_of "t1" "solar" (pos 13) ∷ []) ∷ []; audit = [] }

abbrev pub once : Memory
once = (ingest codec memory_store engine new solar (pos 3)).1

pub once-Reach : Reach codec engine once
once-Reach = ingested solar (pos 3) start

swept_once : IsValid sources (sweep codec memory_store engine once (pos 20)).1
swept_once = Reach-IsValid sources window codec (Lifecycle.swept (pos 20) once-Reach)

murex-IsSubmitted : (s : Memory) → IsSubmitted sources window codec s murex (pos 5) (8 ∷ [])
unfolding contains string_discrete
murex-IsSubmitted s = record { named = λ e. cc; known = refl; encoded = refl }

once-eq : once ≡ holding
unfolding ingest submit new_engine new Memory.ingest is_duplicate is_finalized has_source
    pending_events admit appended lower_deadline has_every_source seen_sources all_seen Dict.get
    Dict.set Dict.has Dict.set_of add ◌+ℤ◌ string_discrete
once-eq = refl

holding-IsValid : IsValid sources holding
holding-IsValid = subst (IsValid sources) once-eq (Reach-IsValid sources window codec once-Reach)

read_back :
    (r : ReconciledEvent) × ((ingest codec memory_store
        (new_engine sources window)
        holding
        murex
        (pos 5)).0
      ≡ ok (record { status = "reconciled"; reconciled = some r }))
    × ReadsBack sources window codec holding murex (pos 5) (8 ∷ []) r (
        audit_history codec memory_store
          (ingest codec memory_store (new_engine sources window) holding murex (pos 5)).1
          (record { trade_id = "t1"; outcome = ""; limit = pos 5 }))
unfolding is_duplicate is_finalized has_source pending_events appended lower_deadline
    has_every_source seen_sources all_seen Dict.get Dict.set Dict.has string_discrete
read_back =
    reconciled-ReadsBack sources window codec holding murex (pos 5) (8 ∷ []) holding-IsValid
      (murex-IsSubmitted holding) refl refl
      (record { trade_id = "t1"; outcome = ""; limit = pos 5 }) refl (inl refl)
