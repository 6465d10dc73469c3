-- ===== src/Memory/Refines/Sweep.antt =====
-- The in-memory store (memory.go) against the ledger: `SweepExpired`, and the whole contract.
use event_correlator_tool.Common.{
  String, true, false, some, List, [], ◌∷◌, ◌++◌, ◌≡◌, ◌≢◌, refl, sym, ◌∙◌, subst, inl, inr, arith,
  contains, Bool-cases, Option-cases,
}
use event_correlator_tool.Common.Dict
use event_correlator_tool.Common.Dict.{Dict}
use event_correlator_tool.Common.Sorting.{sort_strings}
use event_correlator_tool.Clock.{Time}
use event_correlator_tool.Store.{PendingTrade, Built, BuildBreak}
use event_correlator_tool.Memory.{Memory, new, pending_events, is_due, is_finalized}
use event_correlator_tool.Memory.Invariant.{
  IsValid, new-IsValid, pending_events-IsPart, is_finalized-snoc,
}
use event_correlator_tool.Memory.Sweep.{
  Loop, next, swept, sweep_one, sweep_all, sweep_expired, memory_store,
}
use event_correlator_tool.Memory.Sweep.Claims.{store_of, sweep_one-IsValid, keys_due}
use event_correlator_tool.Ledger
use event_correlator_tool.Ledger.{Ledger, close}
use event_correlator_tool.Ledger.Steps.{ledger_of-close}
use event_correlator_tool.Contract.{Serves, Swept, Contract}
use event_correlator_tool.Contract.Sweeping.{
  Claimed, Claimed-nil, Claimed-skip, Claimed-cons, sweep_some-all,
}
use event_correlator_tool.Memory.Refines.Audit.{get_audit-Audits}
use event_correlator_tool.Memory.Refines.{view, exact, ingest-Ingested}

module _ (expected : List String) {C : Type 0} (now : Time) (build : BuildBreak C)
    (serves : (id : String) → Serves expected id (build id)) where
  module _ (l : Loop C) (id : String) (v : IsValid expected l.store) where
    abbrev claimed : List PendingTrade
    claimed = pending_events l.store id

    abbrev after : Built C → Loop C
    after b = record {
      store = record {
        events = Dict.delete l.store.events id;
        audit = l.store.audit ++ b.entry ∷ [];
      };
      expired = Dict.set l.expired id b.events;
      captured = b.captured;
    }

    claimed-ne-nil : is_due now claimed ≡ true → claimed ≢ []
    unfolding is_due
    claimed-ne-nil due e = cc

    view-after :
        (b : Built C) → b.entry.trade_id ≡ id → view (after b).store ≡ close (view l.store) id
    view-after b about =
        ledger_of-close (pending_events l.store) (pending_events (after b).store) l.store.audit id
          (after b).store.audit
          (λ k. unfold pending_events in ground (arith, Dict.get-delete l.store.events id k))
          (λ k. ground (arith, is_finalized-snoc l.store.audit b.entry k, about))

    round-idle : is_due now claimed ≡ false → sweep_one now build l id ≡ next l
    unfolding sweep_one
    round-idle h = rw (h, sweep_one) refl

    round-due :
        is_due now claimed ≡ true
        → (b : Built C) × (build id l.captured claimed ≡ some b)
          × (sweep_one now build l id ≡ next (after b))
    unfolding sweep_one
    round-due due = elim (Option-cases (build id l.captured claimed)) [
      | inl e ↦ absurd (
          (serves id).returns l.captured claimed (claimed-ne-nil due) (pending_events-IsPart v id)
            e)
      | inr (b, e) ↦ (b, e, rw (due, e, sweep_one) refl)
    ]

  record HasRun (ids : List String) (l r : Loop C) : Type 0 where
    ran : sweep_all now build l ids ≡ next r
    kept : IsValid expected r.store
    claims :
        Claimed expected now build ids
          (view l.store)
          (view r.store)
          l.captured
          r.captured
          l.expired
          r.expired

  runs : (ids : List String) (l : Loop C) → IsValid expected l.store → (r : Loop C) × HasRun ids l r
  unfolding sweep_all
  runs [] l v = (
    l,
    record {
      ran = refl;
      kept = v;
      claims = Claimed-nil expected now build (view l.store) l.captured l.expired;
    },
  )
  runs (id ∷ ids) l v = elim (Bool-cases (is_due now (pending_events l.store id))) [
    | inr idle ↦
        let (r, h) = runs ids l v in
        (
          r,
          record {
            ran = rw (round-idle l id v idle, sweep_all) h.ran;
            kept = h.kept;
            claims = Claimed-skip expected now build id ids (view l.store) idle h.claims;
          },
        )
    | inl due ↦
        let (b, e, round) = round-due l id v due in
        let m = after l id v b in
        let kept =
          subst (λ x. IsValid expected (store_of x)) round
            (sweep_one-IsValid now build (λ k. (serves k).about) l id v) in
        let (r, h) = runs ids m kept in
        (
          r,
          record {
            ran = rw (round, sweep_all) h.ran;
            kept = h.kept;
            claims =
                Claimed-cons expected now build id ids (view l.store) (pending_events l.store id) b
                  b.events due (claimed-ne-nil l id v due) (pending_events-IsPart v id) (λ a. refl)
                  e
                  (subst
                    (λ x.
                      Claimed expected now build ids x (view r.store) b.captured r.captured
                        (Dict.set l.expired id b.events) r.expired)
                    (view-after l id v b ((serves id).about l.captured _ b e)) h.claims);
          },
        )
  ]

  -- `SweepExpired` of the memory store takes the ledger's step, in a valid store, if the closure is
  -- about the trade that it is called for and returns for parts of it: it returns, the trades that are
  -- due are closed and returned and no others, the closure is called once for each of them, with
  -- events of exactly the sources that have reported, and the store stays valid.
  pub sweep_expired-Swept :
      (s : Memory) (c : C)
      → IsValid expected s
      → Swept (IsValid expected) view expected (view s) now build c (sweep_expired s now build c)
  unfolding sweep_expired Dict.has Dict.keys
  sweep_expired-Swept s c v =
      let ids = sort_strings (Dict.keys s.events) in
      let (r, h) = runs ids (record { store = s; expired = []; captured = c }) v in
      subst (λ x. Swept (IsValid expected) view expected (view s) now build c (swept x)) (sym h.ran)
        (record {
          expired = r.expired;
          returned = refl;
          kept = h.kept;
          moved = h.claims.moved ∙ sweep_some-all expected now build ids (view s) (keys_due now s);
          distinct = h.claims.distinct tt;
          listed = λ k. h.claims.listed k ∙ keys_due now s k;
          claims = h.claims.claims;
          claimed_once = h.claims.claimed_once;
          claimed = λ k. h.claims.claimed k ∙ keys_due now s k;
          parts = h.claims.parts;
          ran = h.claims.ran;
        })

pub new-blank : view new ≡ Ledger.empty
unfolding new pending_events Dict.get contains is_due is_finalized
new-blank = refl

-- memory.Store as a store that keeps the contract, with the ledger of its pending events and of its
-- audit log
abbrev pub memory_contract : (expected : List String) → Contract memory_store expected
memory_contract expected = record {
  IsOk = IsValid expected;
  view = view;
  start = new;
  started = new-IsValid expected;
  blank = new-blank;
  rounded = exact;
  ingests =
      λ s trade build c v known serves. ingest-Ingested s trade expected build c v known serves;
  sweeps = λ s now build c v serves. sweep_expired-Swept expected now build serves s c v;
  audits = λ s f v low high. get_audit-Audits s f low;
}
