-- ===== src/Engine/Reconciled.antt =====
-- `buildReconciled` of engine.go: when it panics, and what the event says.
use event_correlator_tool.Common.{
  map, ◌∙◌, ap, String, Bool, Option, none, some, List, [], ◌∷◌, ◌≡◌, ◌≢◌, ◌↔◌, inl, inr, refl,
  subst, sym, arith, List-cases, contains,
}
use event_correlator_tool.Common.Sorting.{sort, insert, IsAscending}
use event_correlator_tool.Clock.{Time}
use event_correlator_tool.Model.{TradeEvent, ReconciledEvent}
use event_correlator_tool.Store.{PendingTrade, sources_of}
use event_correlator_tool.Memory.Invariant.{AllNamed}
use event_correlator_tool.Engine.{
  Codec, sort_events, build_reconciled, reconciled_of, reconciled_entry, audit_reconciled,
}
use event_correlator_tool.Engine.Break.{
  sort_events-eq-sort, contains-sort_events, length-sort_events, sort_events-IsAscending,
}

-- What a reconciled event says of its trade.
pub record Sums (id : String) (events : List PendingTrade) (now : Time) (r : ReconciledEvent)
    : Type 0 where
  pub trade : r.trade_id ≡ id
  pub at : r.reconciled_at ≡ now
  pub sources : (a : String) → contains r.sources a ≡ contains (sources_of events) a
  pub sorted : IsAscending (λ (x : String). x) r.sources

module _ (id : String) (lt : PendingTrade → PendingTrade → Bool) where
  AllNamed-insert :
      (x : PendingTrade) (l : List PendingTrade)
      → x.trade_id ≡ id
      → AllNamed id l
      → AllNamed id (insert lt x l)
  unfolding insert
  AllNamed-insert x [] e h = (e, tt)
  AllNamed-insert x (y ∷ l) e h = ground (arith, AllNamed-insert x l e)

  AllNamed-sort : (l : List PendingTrade) → AllNamed id l → AllNamed id (sort lt l)
  unfolding sort
  AllNamed-sort [] h = tt
  AllNamed-sort (x ∷ l) h = AllNamed-insert x (sort lt l) h.0 (AllNamed-sort l h.1)

AllNamed-sort_events :
    (id : String) (events : List PendingTrade)
    → AllNamed id events
    → AllNamed id (sort_events events)
AllNamed-sort_events id events h =
    subst (AllNamed id) (sym (sort_events-eq-sort events)) (AllNamed-sort id _ events h)

module _ (codec : Codec) (events : List PendingTrade) (now : Time) where
  -- `buildReconciled` panics exactly when it is handed no event.
  pub build_reconciled-none_iff : (build_reconciled codec events now ≡ none) ↔ (events ≡ [])
  unfolding build_reconciled
  build_reconciled-none_iff = ground (arith, length-sort_events events)

  sort_events-nil : sort_events events ≡ [] → events ≡ []
  sort_events-nil e = ground (arith, length-sort_events events)

  reconciled_of-Sums :
      (id : String) (first : PendingTrade) (rest : List PendingTrade)
      → sort_events events ≡ first ∷ rest
      → AllNamed id events
      → Sums id events now (reconciled_of codec first (first ∷ rest) now)
  unfolding reconciled_of
  reconciled_of-Sums id first rest e named = record {
    trade = (subst (AllNamed id) e (AllNamed-sort_events id events named)).0;
    at = refl;
    sources = λ a.
        subst (λ l. contains (sources_of l) a ≡ contains (sources_of events) a) e
          (contains-sort_events events a);
    sorted =
        subst (λ l. IsAscending (λ (x : String). x) (sources_of l)) e
          (sort_events-IsAscending events);
  }

  -- From one or more events that all carry the trade's id, `buildReconciled` returns the slice
  -- sorted by source and an event of that trade, stamped with the given time, whose sources are
  -- exactly those of the events, in ascending order.
  pub build_reconciled-Sums :
      (id : String)
      → events ≢ []
      → AllNamed id events
      → (r : ReconciledEvent) × (build_reconciled codec events now ≡ some (sort_events events, r))
        × Sums id events now r
  build_reconciled-Sums id nonempty named = elim (List-cases (sort_events events)) [
    | inl e ↦ absurd (nonempty (sort_events-nil e))
    | inr (first, rest, e) ↦ (
      reconciled_of codec first (first ∷ rest) now,
      unfold build_reconciled in rw (e, build_reconciled),
      reconciled_of-Sums id first rest e named,
    )
  ]

none-ne-some {ℓ} : {A : Type ℓ} {a : A} → none ≢ some a
none-ne-some e = cc

some-injective {ℓ} : {A : Type ℓ} {a b : A} → some a ≡ some b → a ≡ b
some-injective e = cc

-- The sources and the events of the event are those of the sorted slice.
pub build_reconciled-fields :
    (codec : Codec) (events : List PendingTrade) (now : Time) {sorted : List PendingTrade}
    {r : ReconciledEvent}
    → build_reconciled codec events now ≡ some (sorted, r)
    → (r.sources ≡ sources_of sorted)
      × (r.events ≡ map (λ (row : PendingTrade). codec.unmarshal_event row.payload) sorted)
unfolding build_reconciled reconciled_of
build_reconciled-fields codec events now {sorted} {r} h = elim (List-cases (sort_events events)) [
  | inl e ↦ absurd (none-ne-some (rw (e, build_reconciled) at h))
  | inr (first, rest, e) ↦
      let ran : build_reconciled codec events now
          ≡ some (first ∷ rest, reconciled_of codec first (first ∷ rest) now) =
        rw (e, build_reconciled) refl in
      let q = some-injective (sym ran ∙ h) in
      (
        sym (ap (λ (x : List PendingTrade × ReconciledEvent). x.1.sources) q)
            ∙ ap (λ (x : List PendingTrade × ReconciledEvent). sources_of x.0) q,
        sym (ap (λ (x : List PendingTrade × ReconciledEvent). x.1.events) q)
            ∙ ap
                (λ (x : List PendingTrade × ReconciledEvent).
                  map (λ (row : PendingTrade). codec.unmarshal_event row.payload) x.0)
                q,
      )
]

pub audit_reconciled-some :
    (codec : Codec) (event : TradeEvent) (now : Time) (c : Option ReconciledEvent)
    (events : List PendingTrade) {sorted : List PendingTrade} {r : ReconciledEvent}
    → build_reconciled codec events now ≡ some (sorted, r)
    → audit_reconciled codec event now c events
      ≡ some (record {
        captured = some r;
        events = sorted;
        entry = reconciled_entry codec event now r;
      })
unfolding audit_reconciled
audit_reconciled-some codec event now c events e = rw (e, audit_reconciled)
