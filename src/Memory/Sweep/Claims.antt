-- ===== src/Memory/Sweep/Claims.antt =====
-- What `SweepExpired` of memory.go claims, and the store that it leaves.
use event_correlator_tool.Common.{
  String, true, false, ◌||◌, ◌&&◌, none, List, [], ◌∷◌, ◌≡◌, refl, inl, inr, arith, if◌then◌else◌,
  contains, Bool-cases, Option-cases, ok, ok-injective,
}
use event_correlator_tool.Common.Dict
use event_correlator_tool.Common.Dict.{Dict}
use event_correlator_tool.Common.Sorting.{sort_strings}
use event_correlator_tool.Common.Sorting.Laws.{contains-sort_strings}
use event_correlator_tool.Clock.{Time}
use event_correlator_tool.Store.{PendingTrade, BuildBreak}
use event_correlator_tool.Memory.{Memory, pending_events, is_finalized, is_due}
use event_correlator_tool.Memory.Invariant.{IsValid, IsAbout, is_finalized-snoc}
use event_correlator_tool.Memory.Invariant.Ingest.{IsValid-finalize, IsValid-drop}
use event_correlator_tool.Memory.Sweep.{
  Loop, Round, next, stopped, resume, swept, sweep_one, sweep_all, sweep_expired,
}

-- A trade that is due has pending events, so it is open.
due-is-open :
    {expected : List String} {s : Memory} (v : IsValid expected s) (now : Time) (id : String)
    → is_due now (pending_events s id) ≡ true
    → is_finalized s.audit id ≡ false
unfolding is_due pending_events
due-is-open {s} v now id due = ground (arith, v.closed id)

-- The store of a round, whether it goes on or stops.
abbrev pub store_of : {C : Type 0} → Round C → Memory
store_of (next l) = l.store
store_of (stopped l) = l.store

module _ {C : Type 0} (now : Time) (build : BuildBreak C)
    (about : (id : String) → IsAbout id (build id)) where
  pub sweep_one-IsValid :
      {expected : List String} (l : Loop C) (id : String)
      → IsValid expected l.store
      → IsValid expected (store_of (sweep_one now build l id))
  unfolding sweep_one
  sweep_one-IsValid l id v = elim (Bool-cases (is_due now (pending_events l.store id))) [
    | inr e ↦ rw (e, sweep_one) v
    | inl e ↦ elim (Option-cases (build id l.captured (pending_events l.store id))) [
      | inl none_built ↦
          rw (e, none_built, sweep_one) (IsValid-drop v id l.store.events v.keys (λ k _. refl))
      | inr (b, built) ↦
          rw (e, built, sweep_one)
            (IsValid-finalize v id b.entry l.store.events v.keys (λ k _. refl)
              (about id l.captured _ b built) (due-is-open v now id e))
    ]
  ]

  resume-IsValid :
      {expected : List String} (r : Round C) (rest : Loop C → Round C)
      → IsValid expected (store_of r)
      → ((l : Loop C) → IsValid expected l.store → IsValid expected (store_of (rest l)))
      → IsValid expected (store_of (resume r rest))
  resume-IsValid (next l) rest v h = h l v
  resume-IsValid (stopped l) rest v h = v

  pub sweep_all-IsValid :
      {expected : List String} (l : Loop C) (ids : List String)
      → IsValid expected l.store
      → IsValid expected (store_of (sweep_all now build l ids))
  unfolding sweep_all
  sweep_all-IsValid l [] v = v
  sweep_all-IsValid l (id ∷ ids) v =
      resume-IsValid (sweep_one now build l id) (λ l'. sweep_all now build l' ids)
        (sweep_one-IsValid l id v) (λ l' v'. sweep_all-IsValid l' ids v')

state-swept : {C : Type 0} (r : Round C) → (swept r).state ≡ store_of r
state-swept (next l) = refl
state-swept (stopped l) = refl

-- `SweepExpired` keeps the store valid, also where the closure panics, if the entries that the
-- closure builds are about the trade that it is called for.
pub sweep_expired-IsValid :
    {C : Type 0} (expected : List String) (s : Memory) (now : Time) (build : BuildBreak C) (c : C)
    → IsValid expected s
    → ((id : String) → IsAbout id (build id))
    → IsValid expected (sweep_expired s now build c).state
unfolding sweep_expired
sweep_expired-IsValid expected s now build c v about =
    rw state-swept (sweep_all-IsValid now build about _ _ v)

-- Where the loop runs to its end: what it takes out of the store, returns and logs, when it is
-- given the trades `ids`.
record HasClaimed {C : Type 0} (now : Time) (ids : List String) (l r : Loop C) : Type 0 where
  pending :
      (k : String)
      → Dict.get r.store.events k ≡ (
          if contains ids k && is_due now (pending_events l.store k)
          then none
          else Dict.get l.store.events k)
  claimed :
      (k : String)
      → Dict.has r.expired k
        ≡ ((contains ids k && is_due now (pending_events l.store k)) || Dict.has l.expired k)
  logged :
      (k : String)
      → is_finalized r.store.audit k ≡ (
          is_finalized l.store.audit k || (contains ids k && is_due now (pending_events l.store k)))

module _ {C : Type 0} (now : Time) (build : BuildBreak C)
    (about : (id : String) → IsAbout id (build id)) where
  sweep_one-HasClaimed :
      (l r : Loop C) (id : String)
      → sweep_one now build l id ≡ next r
      → HasClaimed now (id ∷ []) l r
  unfolding sweep_one contains
  sweep_one-HasClaimed l r id h = record {
    pending = λ k. ground (arith, Dict.get-delete l.store.events id k);
    claimed = λ k. grind (arith, Dict.has-set);
    logged = λ k. grind (arith, is_finalized-snoc, about);
  }

  HasClaimed-trans :
      (id : String) (ids : List String) (l m r : Loop C)
      → HasClaimed now (id ∷ []) l m
      → HasClaimed now ids m r
      → HasClaimed now (id ∷ ids) l r
  unfolding contains pending_events is_due
  HasClaimed-trans id ids l m r a b = record {
    pending = λ k. ground (arith, a.pending k, b.pending k);
    claimed = λ k. ground (arith, a.pending k, a.claimed k, b.claimed k);
    logged = λ k. ground (arith, a.pending k, a.logged k, b.logged k);
  }

  resume-eq-next :
      (r : Round C) (rest : Loop C → Round C) {l : Loop C}
      → resume r rest ≡ next l
      → (m : Loop C) × (r ≡ next m) × (rest m ≡ next l)
  resume-eq-next (next m) rest h = (m, refl, h)
  resume-eq-next (stopped m) rest h = cc

  sweep_all-HasClaimed :
      (ids : List String) (l r : Loop C)
      → sweep_all now build l ids ≡ next r
      → HasClaimed now ids l r
  unfolding sweep_all contains
  sweep_all-HasClaimed [] l r h = record {
    pending = λ k. ground arith;
    claimed = λ k. ground arith;
    logged = λ k. ground arith;
  }
  sweep_all-HasClaimed (id ∷ ids) l r h =
      let (m, first, others) =
        resume-eq-next (sweep_one now build l id) (λ l'. sweep_all now build l' ids) h in
      HasClaimed-trans id ids l m r (sweep_one-HasClaimed l m id first)
        (sweep_all-HasClaimed ids m r others)

swept-eq-ok :
    {C : Type 0} (r : Round C) {d : Dict (List PendingTrade)}
    → (swept r).result ≡ ok d
    → (l : Loop C) × (r ≡ next l) × (l.expired ≡ d)
swept-eq-ok (next l) h = (l, refl, ok-injective h)
swept-eq-ok (stopped l) h = cc

-- The loop meets every trade that is due.
pub keys_due :
    (now : Time) (s : Memory) (k : String)
    → (contains (sort_strings (Dict.keys s.events)) k && is_due now (pending_events s k))
      ≡ is_due now (pending_events s k)
unfolding pending_events is_due
keys_due now s k = ground (
  arith,
  contains-sort_strings (Dict.keys s.events) k,
  Dict.contains-keys s.events k,
  Dict.has-get s.events k,
)

-- Where `SweepExpired` returns, and its closure builds entries about the trade that it is called
-- for, it has taken exactly the trades that are due: it returns them, their pending events are gone
-- and they are finalized; whether any other trade is finalized, and its pending events, are as before.
pub sweep_expired_claims :
    {C : Type 0} (s : Memory) (now : Time) (build : BuildBreak C) (c : C)
    (expired : Dict (List PendingTrade))
    → ((id : String) → IsAbout id (build id))
    → (sweep_expired s now build c).result ≡ ok expired
    → (k : String)
    → (Dict.has expired k ≡ is_due now (pending_events s k))
      × (pending_events (sweep_expired s now build c).state k
          ≡ (if is_due now (pending_events s k) then [] else pending_events s k))
      × (is_finalized (sweep_expired s now build c).state.audit k
          ≡ (is_finalized s.audit k || is_due now (pending_events s k)))
unfolding sweep_expired
sweep_expired_claims s now build c expired about h k =
    let start : Loop _ = record { store = s; expired = []; captured = c } in
    let ids = sort_strings (Dict.keys s.events) in
    let (l, ran, same) = swept-eq-ok (sweep_all now build start ids) h in
    let claims = sweep_all-HasClaimed now build about ids start l ran in
    let due = keys_due now s k in
    rw (ran, sweep_expired)
      (
        unfold Dict.has in ground (arith, claims.claimed k, due, same),
        unfold pending_events in ground (arith, claims.pending k, due),
        ground (arith, claims.logged k, due),
      )
