-- ===== src/Postgres/Refines/Sweep.antt =====
-- `SweepExpired` of postgres.go against the ledger, and the whole contract, with a server that suits
-- it.
use event_correlator_tool.Common.{
  String, true, not, ◌&&◌, none, some, Option, List, [], ◌∷◌, ◌≡◌, ◌≢◌, refl, sym, ◌∙◌, ap, subst,
  subst₂, arith, contains, Bool-cases, Option-cases, inl, inr,
}
use event_correlator_tool.Common.Dict
use event_correlator_tool.Common.Dict.{Dict}
use event_correlator_tool.Common.Sorting.Unique.{contains_of_perm}
use event_correlator_tool.Clock.{Time}
use event_correlator_tool.Store.{PendingTrade, BuildBreak}
use event_correlator_tool.Memory.{is_due, is_finalized}
use event_correlator_tool.Ledger
use event_correlator_tool.Ledger.{Ledger, close}
use event_correlator_tool.Contract.{Serves, Swept, Contract}
use event_correlator_tool.Contract.Sweeping.{
  Claimed, Claimed-nil, Claimed-skip, Claimed-cons, sweep_some-all,
}
use event_correlator_tool.Postgres.{Tables, Server}
use event_correlator_tool.Postgres.Client.{Database, opened, call_of, postgres_store}
use event_correlator_tool.Postgres.Queries.{rows_of}
use event_correlator_tool.Postgres.Sweep.{expired_ids, claim_all, sweep_expired}
use event_correlator_tool.Postgres.Quiet.{
  View, Ends, Gives-Ends, Ends-bind, Ends-weaken, pure-Gives,
}
use event_correlator_tool.Postgres.Quiet.Sweep.{
  found, claimed, sweep_expired-Ends, claim_expired-skips, claim_expired-claims,
}
use event_correlator_tool.Postgres.Refines.{
  Suits, view_of, IsTidy, by_source-sources, by_source-is_due, by_source-IsPart,
}
use event_correlator_tool.Postgres.Refines.Ingest.{IsTidy-delete, view_of-close}
use event_correlator_tool.Postgres.Refines.Answers.{view, IsOk, Ends-call, ingest-takes_step}
use event_correlator_tool.Postgres.Refines.Audit.{get_audit-Audits}
use event_correlator_tool.Postgres.Refines.Due.{is_skipped-eq, expired_ids-eq}

module _ (server : Server) (kept : Time → Time) (suits : Suits server kept) (expected : List String)
    {C : Type 0} (now : Time) (build : BuildBreak C)
    (serves : (id : String) → Serves expected id (build id)) where
  -- What the loop leaves
  abbrev Claims :
      List String → Dict (List PendingTrade) → View C → Dict (List PendingTrade) → View C → Type 0
  Claims ids expired v expired' w =
      IsTidy kept expected w.committed
      × Claimed expected now build ids (view_of v.committed) (view_of w.committed) v.captured
          w.captured expired expired'

  due-claimed :
      (v : View C) (id : String)
      → is_due now (claimed server suits.quiet suits.grants now build v id)
        ≡ is_due now (rows_of id v.committed.pending)
  due-claimed v id = by_source-is_due server kept suits.stores (rows_of id v.committed.pending) now

  claimed-ne-nil : (rows : List PendingTrade) → is_due now rows ≡ true → rows ≢ []
  unfolding is_due
  claimed-ne-nil rows due e = cc

  -- The map of the loop after a trade
  abbrev after_trade :
      Dict (List PendingTrade) → String → Option (List PendingTrade) → Dict (List PendingTrade)
  after_trade expired id none = expired
  after_trade expired id (some events) = Dict.set expired id events

  loop-Ends :
      (ids : List String) (expired : Dict (List PendingTrade)) (v : View C)
      → IsTidy kept expected v.committed
      → Ends (claim_all server now build ids expired) v (Claims ids expired v)
  unfolding claim_all
  loop-Ends [] expired v tidy =
      Gives-Ends (pure-Gives expired v)
        (tidy, Claimed-nil expected now build (view_of v.committed) v.captured expired)
  loop-Ends (id ∷ ids) expired v tidy =
      let events = claimed server suits.quiet suits.grants now build v id in
      elim (Bool-cases (is_due now (rows_of id v.committed.pending))) [
        | inr idle ↦
            Ends-bind _
              (claim_expired-skips server suits.quiet suits.grants now build v id
                (is_skipped-eq now _ ∙ ap not (due-claimed v id ∙ idle)))
              (λ a w (skipped, captured, same).
                subst
                  (λ o.
                    Ends (claim_all server now build ids (after_trade expired id o)) w
                      (Claims (id ∷ ids) expired v))
                  (sym skipped)
                  (Ends-weaken
                    (loop-Ends ids expired w (subst (IsTidy kept expected) (sym same) tidy))
                    (λ d x (t, h). (
                      t,
                      Claimed-skip expected now build id ids (view_of v.committed) idle (
                          subst₂
                            (λ c u.
                              Claimed expected now build ids (view_of u) (view_of x.committed) c
                                x.captured expired d)
                            captured same h),
                    ))))
        | inl due ↦
            let nonempty = claimed-ne-nil events (due-claimed v id ∙ due) in
            let part = by_source-IsPart server kept suits.stores expected v.committed id tidy in
            elim (Option-cases (build id v.captured events)) [
              | inl e ↦ absurd ((serves id).returns v.captured events nonempty part e)
              | inr (b, e) ↦
                  Ends-bind _
                    (claim_expired-claims server suits.quiet suits.grants now build v id b
                      (is_skipped-eq now _ ∙ ap not (due-claimed v id ∙ due)) e)
                    (λ a w (taken, captured, rows, n, log).
                      subst
                        (λ o.
                          Ends (claim_all server now build ids (after_trade expired id o)) w
                            (Claims (id ∷ ids) expired v))
                        (sym taken)
                        (Ends-weaken
                          (loop-Ends ids (Dict.set expired id b.events) w (
                            IsTidy-delete server kept suits.stores v.committed w.committed id rows
                              tidy))
                          (λ d x (t, h). (
                            t,
                            Claimed-cons expected now build id ids (view_of v.committed) events b
                                b.events due nonempty part
                                (by_source-sources server kept suits.stores
                                  (rows_of id v.committed.pending))
                                e
                                (subst₂
                                  (λ c l.
                                    Claimed expected now build ids l (view_of x.committed) c
                                      x.captured (Dict.set expired id b.events) d)
                                  captured
                                  (view_of-close server kept suits.stores v.committed w.committed id
                                    n b.entry rows log ((serves id).about v.captured events b e))
                                  h),
                          ))))
            ]
      ]

  found-due :
      (v : View C) (k : String)
      → (contains (found server suits.quiet suits.grants now build v) k
          && (view_of v.committed).due k now)
        ≡ (view_of v.committed).due k now
  found-due v k =
      ap (λ b. b && (view_of v.committed).due k now)
        (contains_of_perm k (suits.stores.ids_permuted (expired_ids now v.committed.pending))
          ∙ expired_ids-eq now v.committed.pending k)
      ∙ ground arith

  -- `SweepExpired` of postgres.go takes the ledger's step, with a server that suits the contract and in
  -- tidy tables, if the closure is about the trade that it is called for and returns for parts of it:
  -- it returns, the trades that are due are closed and returned and no others, the closure is called
  -- once for each of them, with events of exactly the sources that have reported, and the tables stay
  -- tidy.
  pub sweep-Swept :
      (d : Database) (c : C)
      → IsOk server kept suits expected d
      → Swept
          (IsOk server kept suits expected)
          view
          expected
          (view d)
          now
          build
          c
          (call_of (sweep_expired server now build (opened d c)))
  unfolding Dict.has Dict.keys
  sweep-Swept d c tidy =
      let v : View C = record { committed = d.committed; work = d.committed; captured = c } in
      let ids = found server suits.quiet suits.grants now build v in
      Ends-call (Swept (IsOk server kept suits expected) view expected (view d) now build c)
        (sweep_expired-Ends server suits.quiet suits.grants now build v (loop-Ends ids [] v tidy))
        (λ a w n (t, h). record {
          expired = a;
          returned = refl;
          kept = t;
          moved = h.moved ∙ sweep_some-all expected now build ids (view d) (found-due v);
          distinct = h.distinct tt;
          listed = λ k. h.listed k ∙ found-due v k;
          claims = h.claims;
          claimed_once = h.claimed_once;
          claimed = λ k. h.claimed k ∙ found-due v k;
          parts = h.parts;
          ran = h.ran;
        })
        d.requests

abbrev pub no_rows : Tables
no_rows = record { pending = []; audit = [] }

pub no_rows-blank : view_of no_rows ≡ Ledger.empty
unfolding contains is_due is_finalized
no_rows-blank = refl

-- postgres.Store as a store that keeps the contract, with the ledger of its committed rows and of its
-- audit log, and a server that suits it
abbrev pub postgres_contract :
    (server : Server) (kept : Time → Time)
    → Suits server kept
    → (expected : List String) → Contract (postgres_store server) expected
postgres_contract server kept suits expected = record {
  IsOk = IsOk server kept suits expected;
  view = view;
  start = record { requests = 0; committed = no_rows };
  started = record { keyed = tt; known = tt; rounded = tt };
  blank = no_rows-blank;
  rounded = kept;
  ingests = λ s trade build c good known serves.
      ingest-takes_step server kept suits expected trade build c s good known serves;
  sweeps =
      λ s now build c good serves. sweep-Swept server kept suits expected now build serves s c good;
  audits = λ s f good low high. get_audit-Audits server kept suits s f low high;
}
