-- ===== src/Postgres/Refines/Claims/Sweeping.antt =====
-- `SweepExpired` of postgres.go against the ledger, where any request may fail and any lock may be
-- missing.
use event_correlator_tool.Common.{
  String, ◌&&◌, ◌||◌, Option, none, some, List, [], ◌∷◌, ◌++◌, ◌≡◌, refl, sym, ◌∙◌, ap, subst,
  arith, contains, contains-append, Result, ok, err, panic, ok-injective,
}
use event_correlator_tool.Common.Dict
use event_correlator_tool.Common.Dict.{Dict}
use event_correlator_tool.Clock.{Time}
use event_correlator_tool.Store.{PendingTrade, BuildBreak}
use event_correlator_tool.Memory.Invariant.{IsAbout}
use event_correlator_tool.Ledger.{Ledger}
use event_correlator_tool.Contract.Sweeping.{sweep_some}
use event_correlator_tool.Contract.Sweeping.Unions.{sweep_some-nil, sweep_some-append}
use event_correlator_tool.Postgres.{Tables, Server, Connection, Action}
use event_correlator_tool.Postgres.Session.{follow, ◌>>=◌}
use event_correlator_tool.Postgres.Sweep.{claim_all, sweep_expired}
use event_correlator_tool.Postgres.Once
use event_correlator_tool.Postgres.Once.{
  Runs, Runs-then, Runs-weaken, query-Runs, read-Runs, scan-Runs,
}
use event_correlator_tool.Postgres.Once.Finishes.{Done}
use event_correlator_tool.Postgres.Refines.{Stores, view_of, IsTidy}
use event_correlator_tool.Postgres.Refines.Claims.{
  IsSwept, IsSweptSome, IsClaimed, claimed_by, unchanged, claim_expired-Finishes,
}

-- A sweep has closed some of the trades that were due, and nothing else; and if it returned, it returned
-- exactly the trades that it has closed.
pub record IsPartial {C : Type 0} (kept : Time → Time) (expected : List String) (l : Ledger)
    (now : Time) (call : Result (Dict (List PendingTrade)) × Connection C) : Type 0 where
  pub some_swept : IsSweptSome kept expected l now call.1.committed
  pub answered :
      (expired : Dict (List PendingTrade))
      → call.0 ≡ ok expired
      → (ids : List String) × IsSwept kept expected l now ids call.1.committed
        × ((k : String) → Dict.has expired k ≡ (contains ids k && l.due k now))

module _ (server : Server) (kept : Time → Time) (stores : Stores server kept)
    (expected : List String) {C : Type 0} (now : Time) (build : BuildBreak C)
    (about : (id : String) → IsAbout id (build id)) where
  -- What the loop has committed where it returns
  record Looped (l : Ledger) (expired expired' : Dict (List PendingTrade)) (u : Tables)
      : Type 0 where
    ids : List String
    swept : IsSwept kept expected l now ids u
    listed :
        (k : String) → Dict.has expired' k ≡ (Dict.has expired k || (contains ids k && l.due k now))

  -- Where the loop stands: no condition on the result after an error
  abbrev Leaves :
      Ledger → Dict (List PendingTrade) → Result (Dict (List PendingTrade)) × Connection C → Type 0
  Leaves l expired (ok expired', s) = Looped l expired expired' s.committed
  Leaves l expired (err e, s) = IsSweptSome kept expected l now s.committed
  Leaves l expired (panic, s) = IsSweptSome kept expected l now s.committed

  module _ (l : Ledger) (ids : List String) (u : Tables)
      (first : IsSwept kept expected l now ids u) where
    IsSwept-append :
        (more : List String) (w : Tables)
        → IsSwept kept expected (view_of u) now more w
        → IsSwept kept expected l now (ids ++ more) w
    IsSwept-append more w h = record {
      tidy = h.tidy;
      moved =
          h.moved ∙ ap (λ x. sweep_some more x now) first.moved ∙ sweep_some-append l now ids more;
    }

    IsSweptSome-append :
        (w : Tables)
        → IsSweptSome kept expected (view_of u) now w
        → IsSweptSome kept expected l now w
    IsSweptSome-append w h = record { ids = ids ++ h.ids; swept = IsSwept-append h.ids w h.swept }

    Looped-append :
        (expired between expired' : Dict (List PendingTrade)) (w : Tables)
        → ((k : String)
            → Dict.has between k ≡ (Dict.has expired k || (contains ids k && l.due k now)))
        → Looped (view_of u) between expired' w
        → Looped l expired expired' w
    Looped-append expired between expired' w listed h = record {
      ids = ids ++ h.ids;
      swept = IsSwept-append h.ids w h.swept;
      listed = λ k. ground (
        arith,
        h.listed k,
        listed k,
        contains-append ids h.ids k,
        ap (λ (x : Ledger). x.due k now) first.moved,
      );
    }

    Leaves-append :
        (expired between : Dict (List PendingTrade))
        (x : Result (Dict (List PendingTrade)) × Connection C)
        → ((k : String)
            → Dict.has between k ≡ (Dict.has expired k || (contains ids k && l.due k now)))
        → Leaves (view_of u) between x
        → Leaves l expired x
    Leaves-append expired between (ok expired', s) listed h =
        Looped-append expired between expired' s.committed listed h
    Leaves-append expired between (err e, s) listed h = IsSweptSome-append s.committed h
    Leaves-append expired between (panic, s) listed h = IsSweptSome-append s.committed h

  -- The map of the loop after a trade
  abbrev after_trade :
      Dict (List PendingTrade) → String → Option (List PendingTrade) → Dict (List PendingTrade)
  after_trade expired id none = expired
  after_trade expired id (some events) = Dict.set expired id events

  module _ (t : Tables) (tidy : IsTidy kept expected t) (id : String) where
    abbrev Claimed : Option (List PendingTrade) → Tables → Type 0
    Claimed = IsClaimed server kept stores expected now build about t tidy id

    after_trade-has :
        (expired : Dict (List PendingTrade)) (claimed : Option (List PendingTrade)) (u : Tables)
        → Claimed claimed u
        → (k : String)
        → Dict.has (after_trade expired id claimed) k
          ≡ (Dict.has expired k || (contains (claimed_by id claimed) k && (view_of t).due k now))
    unfolding contains
    after_trade-has expired none u h k = ground arith
    after_trade-has expired (some events) u h k =
        ground (arith, Dict.has-set expired id k events, h.due)

    -- The rest of the loop goes on from what a claim leaves.
    claimed-Leaves :
        (expired : Dict (List PendingTrade))
        (rest : Dict (List PendingTrade) → Action C (Dict (List PendingTrade)))
        → ((e : Dict (List PendingTrade)) (s : Connection C)
            → IsTidy kept expected s.committed
            → Leaves (view_of s.committed) e (rest e s))
        → (x : Result (Option (List PendingTrade)) × Connection C)
        → Done
            (λ u. u ≡ t)
            (IsSweptSome kept expected (view_of t) now)
            (unchanged server kept stores expected now build about t tidy)
            Claimed
            x
        → Leaves (view_of t) expired (follow x (λ c. rest (after_trade expired id c)))
    claimed-Leaves expired rest k (ok claimed, s) h =
        Leaves-append (view_of t) (claimed_by id claimed) s.committed h.swept expired
          (after_trade expired id claimed) _ (after_trade-has expired claimed s.committed h)
          (k (after_trade expired id claimed) s h.swept.tidy)
    claimed-Leaves expired rest k (err e, s) h = h
    claimed-Leaves expired rest k (panic, s) h = h

  loop-Leaves :
      (ids : List String) (expired : Dict (List PendingTrade)) (s : Connection C)
      → IsTidy kept expected s.committed
      → Leaves (view_of s.committed) expired (claim_all server now build ids expired s)
  unfolding claim_all contains ◌>>=◌
  loop-Leaves [] expired s tidy = record {
    ids = [];
    swept = record { tidy = tidy; moved = sym (sweep_some-nil (view_of s.committed) now) };
    listed = λ k. ground arith;
  }
  loop-Leaves (id ∷ ids) expired s tidy =
      claimed-Leaves s.committed tidy id expired (claim_all server now build ids) (loop-Leaves ids)
        _
        ((claim_expired-Finishes server kept stores expected now build about s.committed tidy id
            {Q = λ _. Unit}).done
          s refl tt)

  Leaves-IsPartial :
      (l : Ledger) (x : Result (Dict (List PendingTrade)) × Connection C)
      → Leaves l [] x
      → IsPartial kept expected l now x
  unfolding Dict.has
  Leaves-IsPartial l (ok expired, s) h = record {
    some_swept = record { ids = h.ids; swept = h.swept };
    answered = λ e same.
        (h.ids, h.swept, λ k. ap (λ d. Dict.has d k) (sym (ok-injective same)) ∙ h.listed k);
  }
  Leaves-IsPartial l (err e, s) h = record { some_swept = h; answered = λ e same. cc }
  Leaves-IsPartial l (panic, s) h = record { some_swept = h; answered = λ e same. cc }

  -- What comes before the loop changes no committed table.
  module _ (t : Tables) (tidy : IsTidy kept expected t) where
    record Begins (m : Action C (Dict (List PendingTrade))) : Type 0 where
      begins : (s : Connection C) → s.committed ≡ t → Leaves (view_of t) [] (m s)

    follow-Leaves :
        {A : Type 0} (x : Result A × Connection C) (f : A → Action C (Dict (List PendingTrade)))
        → Once.Leaves (λ u. u ≡ t) (λ _ _. Unit) x
        → ((a : A) → Begins (f a))
        → Leaves (view_of t) [] (follow x f)
    follow-Leaves (ok a, s) f h k = (k a).begins s h.0
    follow-Leaves (err e, s) f h k =
        unchanged server kept stores expected now build about t tidy s.committed h
    follow-Leaves (panic, s) f h k =
        unchanged server kept stores expected now build about t tidy s.committed h

    Begins-then :
        {A : Type 0} {m : Action C A} {f : A → Action C (Dict (List PendingTrade))}
        → Runs (λ u. u ≡ t) (λ _. Unit) m (λ _ _. Unit)
        → ((a : A) → Begins (f a))
        → Begins (m >>= f)
    unfolding ◌>>=◌
    Begins-then {m} {f} g h = record {
      begins = λ s same. follow-Leaves (m s) f (g.leaves s same tt) h;
    }

    claim_all-Begins : (ids : List String) → Begins (claim_all server now build ids [])
    claim_all-Begins ids = record {
      begins = λ s same.
          subst (λ u. Leaves (view_of u) [] (claim_all server now build ids [] s)) same
            (loop-Leaves ids [] s (subst (IsTidy kept expected) (sym same) tidy));
    }

    sweep_expired-Begins : Begins (sweep_expired server now build)
    unfolding sweep_expired
    sweep_expired-Begins = Begins-then (read-Runs (λ u. u ≡ t) server _ _) (λ rows.
        Begins-then
          (Runs-weaken (λ u. u ≡ t)
            (scan-Runs (λ u. u ≡ t) server {Q = λ _. Unit} "scan expired trade: " rows)
            (λ _ u _. tt))
          (λ ids. Begins-then (query-Runs (λ u. u ≡ t) server _ _ _ (λ n u q. q)) (λ _.
            Begins-then (query-Runs (λ u. u ≡ t) server _ _ _ (λ n u q. q))
              (λ _. claim_all-Begins ids))))

  -- Where any request may fail, a commit that reports an error may be done all the same, locks may be
  -- missing and the closure may panic, `SweepExpired` from tidy tables closes some of the trades that
  -- are due, as the ledger closes them, and nothing else, and leaves tidy tables; and where it returns,
  -- it returns exactly the trades that it has closed: if the server keeps what it stores and the
  -- closure is about the trade that it is called for.
  pub sweep_expired-IsPartial :
      (s : Connection C)
      → IsTidy kept expected s.committed
      → IsPartial kept expected (view_of s.committed) now (sweep_expired server now build s)
  sweep_expired-IsPartial s tidy =
      Leaves-IsPartial (view_of s.committed) _
        ((sweep_expired-Begins s.committed tidy).begins s refl)
