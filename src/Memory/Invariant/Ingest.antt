-- ===== src/Memory/Invariant/Ingest.antt =====
-- The store that `Ingest` of memory.go leaves, against the invariant.
use event_correlator_tool.Common.{
  String, true, false, List, [], ◌∷◌, ◌++◌, ◌≡◌, ◌≢◌, refl, subst₂, inl, inr, arith, contains,
  Distinct, Bool-cases, Option-cases,
}
use event_correlator_tool.Common.Dict
use event_correlator_tool.Common.Dict.{Dict}
use event_correlator_tool.Model.{AuditEntry}
use event_correlator_tool.Store.{PendingTrade, BuildAudit}
use event_correlator_tool.Memory.{
  Memory, pending_events, has_every_source, is_finalized, has_source, is_duplicate, appended,
  finish, admit, ingest,
}
use event_correlator_tool.Memory.Selection.{has_source-contains}
use event_correlator_tool.Memory.Invariant.{
  IsPart, IsWaiting, IsValid, IsAbout, is_finalized-snoc, once-snoc, snoc-ne-nil, IsPart-snoc,
  pending_events-IsPart,
}

module _ {expected : List String} {s : Memory} (v : IsValid expected s) where
  -- A trade that goes back to the store with one more event, or with none, keeps it valid.
  IsValid-set :
      (id : String) (events : List PendingTrade)
      → IsWaiting expected id events
      → is_finalized s.audit id ≡ false
      → IsValid expected (record s { events = Dict.set s.events id events })
  IsValid-set id events w open_trade = record {
    keys = Dict.keys-Distinct-set s.events id events v.keys;
    waiting = λ k es h. elim (Dict.get-set_cases s.events id k events h) [
      | inl (p, q) ↦ subst₂ (IsWaiting expected) p q w
      | inr old ↦ v.waiting k es old
    ];
    closed = λ k h. ground (arith, Dict.get-set s.events id k events, v.closed k h);
    once = v.once;
  }

  -- A trade that leaves for the audit log keeps the store valid, whatever was pending for it.
  pub IsValid-finalize :
      (id : String) (entry : AuditEntry) (d : Dict (List PendingTrade))
      → Distinct (Dict.keys d)
      → ((k : String) → id ≢ k → Dict.get d k ≡ Dict.get s.events k)
      → entry.trade_id ≡ id
      → is_finalized s.audit id ≡ false
      → IsValid expected (record { events = Dict.delete d id; audit = s.audit ++ entry ∷ [] })
  IsValid-finalize id entry d keys agree e open_trade = record {
    keys = Dict.keys-Distinct-delete d id keys;
    waiting = λ k es h. ground (arith, Dict.get-delete d id k, agree k, v.waiting k es);
    closed = λ k h.
        ground
          (arith, Dict.get-delete d id k, agree k, is_finalized-snoc s.audit entry k, v.closed k);
    once = once-snoc s.audit entry v.once (rw e open_trade);
  }

  -- So does a trade that is only dropped, as it is when the closure panics.
  pub IsValid-drop :
      (id : String) (d : Dict (List PendingTrade))
      → Distinct (Dict.keys d)
      → ((k : String) → id ≢ k → Dict.get d k ≡ Dict.get s.events k)
      → IsValid expected (record s { events = Dict.delete d id })
  IsValid-drop id d keys agree = record {
    keys = Dict.keys-Distinct-delete d id keys;
    waiting = λ k es h. ground (arith, Dict.get-delete d id k, agree k, v.waiting k es);
    closed = λ k h. ground (arith, Dict.get-delete d id k, agree k, v.closed k h);
    once = v.once;
  }

  module _ (trade : PendingTrade) (open_trade : is_finalized s.audit trade.trade_id ≡ false) where
    get-set_ne :
        (events : List PendingTrade) (k : String)
        → trade.trade_id ≢ k
        → Dict.get (Dict.set s.events trade.trade_id events) k ≡ Dict.get s.events k
    get-set_ne events k h = ground (arith, Dict.get-set s.events trade.trade_id k events)

    finish-IsValid :
        {C : Type 0} (events selected : List PendingTrade) (build : BuildAudit C) (c : C)
        → IsAbout trade.trade_id build
        → IsValid expected
            (finish
              (record s { events = Dict.set s.events trade.trade_id events })
              trade.trade_id
              selected
              build
              c).state
    unfolding finish
    finish-IsValid events selected build c about =
        let d = Dict.set s.events trade.trade_id events in
        let keys = Dict.keys-Distinct-set s.events trade.trade_id events v.keys in
        elim (Option-cases (build c selected)) [
          | inl e ↦ rw (e, finish) (IsValid-drop trade.trade_id d keys (get-set_ne events))
          | inr (b, e) ↦
              rw (e, finish)
                (IsValid-finalize trade.trade_id b.entry d keys (get-set_ne events)
                  (about c selected b e) open_trade)
        ]

    module _ (new_source : has_source (pending_events s trade.trade_id) trade.source ≡ false)
        (expected_source : contains expected trade.source ≡ true) where
      pub appended-IsPart : IsPart expected trade.trade_id (appended s trade)
      unfolding appended
      appended-IsPart =
          IsPart-snoc expected trade.trade_id (pending_events s trade.trade_id) _
            (pending_events-IsPart v trade.trade_id) refl
            (rw (← has_source-contains (pending_events s trade.trade_id) trade.source) new_source)
            expected_source

      admit-IsValid :
          {C : Type 0} (build : BuildAudit C) (c : C)
          → IsAbout trade.trade_id build
          → IsValid expected (admit s trade expected build c).state
      unfolding admit
      admit-IsValid build c about =
          elim (Bool-cases (has_every_source (appended s trade) expected)) [
            | inl e ↦ rw (e, admit) (finish-IsValid (appended s trade) _ build c about)
            | inr e ↦
                rw (e, admit)
                  (IsValid-set trade.trade_id (appended s trade)
                    (record {
                      part = appended-IsPart;
                      nonempty = unfold appended in snoc-ne-nil _ _;
                      incomplete = e;
                    })
                    open_trade)
          ]

pub not_duplicate :
    (s : Memory) (trade : PendingTrade)
    → is_duplicate s trade ≡ false
    → (is_finalized s.audit trade.trade_id ≡ false)
      × (has_source (pending_events s trade.trade_id) trade.source ≡ false)
unfolding is_duplicate
not_duplicate s trade e = ground arith

-- `Ingest` of an event from an expected source keeps the store valid if the entries that the
-- closure builds are about the event's trade: whether the event is refused, waits or completes its
-- trade, and also where the closure panics.
pub ingest-IsValid :
    {C : Type 0} (expected : List String) (s : Memory) (trade : PendingTrade) (build : BuildAudit C)
    (c : C)
    → IsValid expected s
    → contains expected trade.source ≡ true
    → IsAbout trade.trade_id build
    → IsValid expected (ingest s trade expected build c).state
unfolding ingest
ingest-IsValid expected s trade build c v k about = elim (Bool-cases (is_duplicate s trade)) [
  | inl e ↦ rw (e, ingest) v
  | inr e ↦
      let (open_trade, new_source) = not_duplicate s trade e in
      rw (e, ingest) (admit-IsValid v trade open_trade new_source k build c about)
]
