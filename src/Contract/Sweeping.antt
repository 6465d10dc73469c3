-- ===== src/Contract/Sweeping.antt =====
-- A sweep that goes through a list of trades one by one, on the ledger.
pub mod Unions
use event_correlator_tool.Common.{
  String, Bool, true, false, ◌&&◌, ◌||◌, some, List, [], ◌∷◌, ◌≡◌, ◌≢◌, refl, ◌∙◌, ap, arith,
  if◌then◌else◌, contains, Distinct,
}
use event_correlator_tool.Common.Dict
use event_correlator_tool.Common.Dict.{Dict}
use event_correlator_tool.Clock.{Time}
use event_correlator_tool.Store.{PendingTrade, sources_of, Built, BuildBreak}
use event_correlator_tool.Memory.Invariant.{IsPart}
use event_correlator_tool.Ledger
use event_correlator_tool.Ledger.{Ledger, close}
use event_correlator_tool.Contract.{Runs, AreParts}

-- Those of the trades that are due are closed.
abbrev pub sweep_some : List String → Ledger → Time → Ledger
sweep_some ids l now = record {
  reported = λ trade_id source.
      if contains ids trade_id && l.due trade_id now then false else l.reported trade_id source;
  due =
      λ trade_id t. if contains ids trade_id && l.due trade_id now then false else l.due trade_id t;
  closed = λ trade_id. l.closed trade_id || (contains ids trade_id && l.due trade_id now);
}

module _ (expected : List String) {C : Type 0} (now : Time) (build : BuildBreak C) where
  -- What the loop over `ids` has done between two ledgers, two states of the closure, and two
  -- states of the map that it returns.
  pub record Claimed (ids : List String) (l l' : Ledger) (c c' : C)
      (e e' : Dict (List PendingTrade)) : Type 0 where
    pub moved : l' ≡ sweep_some ids l now
    pub listed : (k : String) → Dict.has e' k ≡ (Dict.has e k || (contains ids k && l.due k now))
    pub distinct : Distinct (Dict.keys e) → Distinct (Dict.keys e')
    pub claims : List (String × List PendingTrade)
    pub claimed_once : Distinct (Dict.keys claims)
    pub claimed : (k : String) → Dict.has claims k ≡ (contains ids k && l.due k now)
    pub parts : AreParts expected l claims
    pub ran : Runs build c claims c'

  -- Where the loop's trades include each that is due, it is the ledger's sweep.
  pub sweep_some-all :
      (ids : List String) (l : Ledger)
      → ((k : String) → (contains ids k && l.due k now) ≡ l.due k now)
      → sweep_some ids l now ≡ Ledger.sweep l now
  unfolding Ledger.sweep
  sweep_some-all ids l h = λ i. record {
    reported = λ t a. if h t i then false else l.reported t a;
    due = λ t u. if h t i then false else l.due t u;
    closed = λ t. l.closed t || h t i;
  }

  pub Claimed-nil : (l : Ledger) (c : C) (e : Dict (List PendingTrade)) → Claimed [] l l c c e e
  unfolding contains Dict.keys Dict.has
  Claimed-nil l c e = record {
    moved =
        λ i. record { reported = l.reported; due = l.due; closed = λ t. or_false (l.closed t) i };
    listed = λ k. ground arith;
    distinct = λ h. h;
    claims = [];
    claimed_once = tt;
    claimed = λ k. refl;
    parts = tt;
    ran = refl;
  }
    where
      or_false : (b : Bool) → b ≡ (b || false)
      or_false b = ground arith

  module _ (id : String) (ids : List String) (l : Ledger) {l' : Ledger} {c c' : C}
      {e e' : Dict (List PendingTrade)} where
    pub Claimed-skip :
        l.due id now ≡ false → Claimed ids l l' c c' e e' → Claimed (id ∷ ids) l l' c c' e e'
    Claimed-skip idle h = record {
      moved = h.moved ∙ sweep_some-skip;
      listed = λ k. h.listed k ∙ ap (λ b. Dict.has e k || b) (same k);
      distinct = h.distinct;
      claims = h.claims;
      claimed_once = h.claimed_once;
      claimed = λ k. h.claimed k ∙ same k;
      parts = h.parts;
      ran = h.ran;
    }
      where
        same :
            (k : String) → (contains ids k && l.due k now) ≡ (contains (id ∷ ids) k && l.due k now)
        same k = unfold contains in ground (arith, idle)

        sweep_some-skip : sweep_some ids l now ≡ sweep_some (id ∷ ids) l now
        sweep_some-skip = λ i. record {
          reported = λ t a. if same t i then false else l.reported t a;
          due = λ t u. if same t i then false else l.due t u;
          closed = λ t. l.closed t || same t i;
        }

    pub Claimed-cons :
        (events : List PendingTrade) (b : Built C) (v : List PendingTrade)
        → l.due id now ≡ true
        → events ≢ []
        → IsPart expected id events
        → ((a : String) → contains (sources_of events) a ≡ l.reported id a)
        → build id c events ≡ some b
        → Claimed ids (close l id) l' b.captured c' (Dict.set e id v) e'
        → Claimed (id ∷ ids) l l' c c' e e'
    unfolding Dict.keys Dict.has contains
    Claimed-cons events b v due nonempty part reported built h = record {
      moved = h.moved ∙ moved_lem;
      listed = λ k. ground (arith, h.listed k, Dict.has-set e id k v, due);
      distinct = λ d. h.distinct (Dict.keys-Distinct-set e id v d);
      claims = (id, events) ∷ h.claims;
      claimed_once = (fresh, h.claimed_once);
      claimed = λ k. ground (arith, h.claimed k, due);
      parts = (
        (nonempty, part, reported),
        AreParts-of h.claims (λ k m a. ground (arith, h.claimed k, m)) h.parts,
      );
      ran = (b, built, h.ran);
    }
      where
        idle : (contains ids id && (close l id).due id now) ≡ false
        idle = ground arith

        fresh : contains (Dict.keys h.claims) id ≡ false
        fresh = Dict.contains-keys h.claims id ∙ h.claimed id ∙ idle

        moved_lem : sweep_some ids (close l id) now ≡ sweep_some (id ∷ ids) l now
        moved_lem = λ i. record {
          reported = λ t a. reported_lem t a i;
          due = λ t u. due_lem t u i;
          closed = λ t. closed_lem t i;
        }
          where
            reported_lem :
                (t a : String)
                → (sweep_some ids (close l id) now).reported t a
                  ≡ (sweep_some (id ∷ ids) l now).reported t a
            reported_lem t a = ground (arith, due)

            due_lem :
                (t : String) (u : Time)
                → (sweep_some ids (close l id) now).due t u ≡ (sweep_some (id ∷ ids) l now).due t u
            due_lem t u = ground (arith, due)

            closed_lem :
                (t : String)
                → (sweep_some ids (close l id) now).closed t
                  ≡ (sweep_some (id ∷ ids) l now).closed t
            closed_lem t = ground (arith, due)

        AreParts-of :
            (claims : List (String × List PendingTrade))
            → ((k : String)
                → Dict.has claims k ≡ true
                → (a : String) → (close l id).reported k a ≡ l.reported k a)
            → AreParts expected (close l id) claims
            → AreParts expected l claims
        AreParts-of [] f p = tt
        AreParts-of ((k, es) ∷ claims) f ((n, q, r), p) = (
          (n, q, λ a. r a ∙ f k (ground arith) a),
          AreParts-of claims (λ j m. f j (ground (arith, m))) p,
        )
