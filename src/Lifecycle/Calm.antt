-- ===== src/Lifecycle/Calm.antt =====
-- `Sweep` of engine.go in the states that a history reaches, and the panic of `buildBreak`.
use event_correlator_tool.Common.{
  ◌≤◌, String, none, List, [], ◌∷◌, ◌≡◌, ◌≢◌, refl, subst, ◌⊎◌, inl, inr, arith, length, ok,
}
use event_correlator_tool.Common.Lists.Counting.{length-le_of_Subset}
use event_correlator_tool.Common.Dict
use event_correlator_tool.Common.Dict.{Dict}
use event_correlator_tool.Common.Sorting.{sort_strings}
use event_correlator_tool.Clock.{Time, Duration}
use event_correlator_tool.Model.{BreakEvent}
use event_correlator_tool.Store.{PendingTrade, sources_of}
use event_correlator_tool.Memory.{Memory, pending_events}
use event_correlator_tool.Memory.Invariant.{IsValid, IsPart, pending_events-IsPart}
use event_correlator_tool.Memory.Sweep.{
  Loop, Round, next, stopped, swept, sweep_one, sweep_all, sweep_expired, memory_store,
}
use event_correlator_tool.Memory.Sweep.Claims.{store_of, sweep_one-IsValid}
use event_correlator_tool.Engine.{Codec, Engine, new_engine, audit_break}
use event_correlator_tool.Engine.Actions.{sweep, sweep_outcome}
use event_correlator_tool.Engine.Break.{build_break-none_iff}
use event_correlator_tool.Lifecycle.{Reach}
use event_correlator_tool.Lifecycle.Safety.{
  has-expected_sources, audit_break-IsAbout, Reach-IsValid,
}

Round-cases :
    {C : Type 0} (r : Round C) → ((l : Loop C) × (r ≡ next l)) ⊎ ((l : Loop C) × (r ≡ stopped l))
Round-cases (next l) = inl (l, refl)
Round-cases (stopped l) = inr (l, refl)

length-keys {ℓ} : {V : Type ℓ} (d : Dict V) → length (Dict.keys d) ≡ length d
unfolding Dict.keys
length-keys [] = refl
length-keys ((k, v) ∷ d) = omega (arith, length-keys d)

module _ (sources : List String) (window : Duration) (codec : Codec) (now : Time) where
  abbrev e : Engine
  e = new_engine sources window

  pub few_events :
      (id : String) (events : List PendingTrade)
      → IsPart sources id events
      → length (sources_of events) ≤ length e.expected_sources
  few_events id events p = omega (
    arith,
    length-keys e.expected_sources,
    length-le_of_Subset (sources_of events) (Dict.keys e.expected_sources) p.distinct
        (λ a m. rw (Dict.contains-keys, has-expected_sources) (p.known a m)),
  )

  pub length-sources_of : (events : List PendingTrade) → length (sources_of events) ≡ length events
  length-sources_of [] = refl
  length-sources_of (event ∷ events) = omega (arith, length-sources_of events)

  pub audit_break-ne-none :
      (id : String) (events : List PendingTrade) (built : Dict BreakEvent)
      → IsPart sources id events
      → audit_break codec e now id built events ≢ none
  unfolding audit_break
  audit_break-ne-none id events built p h = ground (
    arith,
    build_break-none_iff codec e id events now,
    few_events id events p,
    length-sources_of events,
  )

  sweep_one-ne-stopped :
      (l m : Loop (Dict BreakEvent)) (id : String)
      → IsValid sources l.store
      → sweep_one now (audit_break codec e now) l id ≢ stopped m
  unfolding sweep_one
  sweep_one-ne-stopped l m id v h = ground (
    arith,
    audit_break-ne-none id (pending_events l.store id) l.captured (pending_events-IsPart v id),
  )

  -- The loop goes on from each round, which leaves a valid store.
  pub sweep_all-eq-next :
      (ids : List String) (l : Loop (Dict BreakEvent))
      → IsValid sources l.store
      → (m : Loop (Dict BreakEvent)) × (sweep_all now (audit_break codec e now) l ids ≡ next m)
  unfolding sweep_all
  sweep_all-eq-next [] l v = (l, refl)
  sweep_all-eq-next (id ∷ ids) l v =
      elim (Round-cases (sweep_one now (audit_break codec e now) l id)) [
        | inr (m, h) ↦ absurd (sweep_one-ne-stopped l m id v h)
        | inl (m, h) ↦
            let kept =
              sweep_one-IsValid now (audit_break codec e now) (audit_break-IsAbout codec e now) l id
                v in
            let (r, ran) =
              sweep_all-eq-next ids m (subst (λ x. IsValid sources (store_of x)) h kept) in
            (r, rw (h, sweep_all) ran)
      ]

sweep_outcome-eq-ok :
    (r : Round (Dict BreakEvent)) {l : Loop (Dict BreakEvent)}
    → r ≡ next l
    → (breaks : List BreakEvent) × (sweep_outcome (swept r).result (swept r).captured ≡ ok breaks)
sweep_outcome-eq-ok (next m) h = (_, refl)
sweep_outcome-eq-ok (stopped m) h = cc

-- In a state that a history reaches, a sweep by the same engine returns its breaks: it neither
-- panics nor fails.
pub sweep_returns :
    (sources : List String) (window : Duration) (codec : Codec) {s : Memory} (now : Time)
    → Reach codec (new_engine sources window) s
    → (breaks : List BreakEvent) × ((sweep codec memory_store (new_engine sources window) s now).0
        ≡ ok breaks)
unfolding sweep sweep_expired
sweep_returns sources window codec {s} now r =
    let (l, ran) =
      sweep_all-eq-next sources window codec now (sort_strings (Dict.keys s.events))
        (record { store = s; expired = []; captured = [] })
        (Reach-IsValid sources window codec r) in
    sweep_outcome-eq-ok (sweep_all now _ _ _) ran
