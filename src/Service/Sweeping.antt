-- ===== src/Service/Sweeping.antt =====
-- `Sweep` of engine.go over any store that keeps the contract.
use event_correlator_tool.Common.{
  String, true, false, not, ◌&&◌, some, List, [], ◌∷◌, map, ◌≡◌, refl, sym, ◌∙◌, ap, subst, arith,
  contains, Distinct, Every, Bool-cases, inl, inr, Result, ok, ◌==◌, str_lt,
}
use event_correlator_tool.Common.Sorting.{sort, sort_func, IsAscending}
use event_correlator_tool.Common.Sorting.Laws.{
  contains-sort, Distinct-sort, Every-sort, sort-IsAscending, IsAscending-map,
}
use event_correlator_tool.Common.Dict
use event_correlator_tool.Common.Dict.{Dict}
use event_correlator_tool.Clock.{Time, Duration}
use event_correlator_tool.Model.{BreakEvent}
use event_correlator_tool.Store.{PendingTrade, sources_of, Built, Store}
use event_correlator_tool.Memory.Invariant.{IsPart}
use event_correlator_tool.Engine.{Codec, Engine, new_engine, audit_break}
use event_correlator_tool.Engine.Actions.{no_break, sort_breaks, sweep_outcome, sweep}
use event_correlator_tool.Engine.Break.{build_break-Reports, is_negative-compare_strings}
use event_correlator_tool.Lifecycle.Safety.{has-expected_sources}
use event_correlator_tool.Lifecycle.Calm.{few_events, length-sources_of}
use event_correlator_tool.Ledger
use event_correlator_tool.Ledger.{Ledger}
use event_correlator_tool.Contract.{Runs, AreParts, Contract}
use event_correlator_tool.Service.{audit_break-Serves}
use mathlib.Core.Option

-- What a break says of a trade of the ledger
pub record IsBreak (sources : List String) (l : Ledger) (now : Time) (id : String) (b : BreakEvent)
    : Type 0 where
  pub trade : b.trade_id ≡ id
  pub detected : b.detected_at ≡ now
  pub received : (a : String) → contains b.received_sources a ≡ l.reported id a
  pub missing :
      (a : String) → contains b.missing_sources a ≡ (contains sources a && not (l.reported id a))
  pub received_sorted : IsAscending (λ (x : String). x) b.received_sources
  pub missing_sorted : IsAscending (λ (x : String). x) b.missing_sources

abbrev pub traded : List BreakEvent → List String
traded = map (λ (b : BreakEvent). b.trade_id)

-- Sorting breaks is sorting them by trade.
sort_breaks-eq-sort :
    (breaks : List BreakEvent)
    → sort_breaks breaks ≡ sort (λ a b. str_lt a.trade_id b.trade_id) breaks
unfolding sort_breaks sort_func
sort_breaks-eq-sort breaks =
    ap (λ lt. sort lt breaks) (λ i a b. is_negative-compare_strings a.trade_id b.trade_id i)

module _ (sources : List String) (window : Duration) (codec : Codec) (now : Time) (l : Ledger) where
  abbrev e : Engine
  e = new_engine sources window

  -- The closure keeps a break of the trade.
  one_kept :
      (id : String) (events : List PendingTrade) (c : Dict BreakEvent) (b : Built (Dict BreakEvent))
      → IsPart sources id events
      → ((a : String) → contains (sources_of events) a ≡ l.reported id a)
      → audit_break codec e now id c events ≡ some b
      → (brk : BreakEvent) × (b.captured ≡ Dict.set c id brk) × IsBreak sources l now id brk
  unfolding audit_break
  one_kept id events c b part reported h =
      let (brk, built, said) = build_break-Reports codec e id events now (
        omega (
          arith,
          few_events sources window codec now id events part,
          length-sources_of sources window codec now events,
        )) in
      (
        brk,
        ground arith,
        record {
          trade = said.trade;
          detected = said.detected;
          received = λ a. said.received a ∙ reported a;
          missing = λ a.
              ground (arith, said.missing a, has-expected_sources sources window a, reported a);
          received_sorted = said.received_sorted;
          missing_sorted = said.missing_sorted;
        },
      )

  -- The closure keeps a break of each claimed trade.
  breaks_kept :
      (claims : List (String × List PendingTrade)) (c c' : Dict BreakEvent)
      → Runs (audit_break codec e now) c claims c'
      → AreParts sources l claims
      → Distinct (Dict.keys claims)
      → (k : String)
      → (Dict.has claims k ≡ true
          → (b : BreakEvent) × (Dict.get c' k ≡ some b) × IsBreak sources l now k b)
        × (Dict.has claims k ≡ false → Dict.get c' k ≡ Dict.get c k)
  unfolding Dict.has Dict.keys
  breaks_kept [] c c' h p d k = (λ m. cc, λ m. ap (λ x. Dict.get x k) h)
  breaks_kept ((id, events) ∷ claims) c c' (b, built, ran) (((n, part, reported), p)) (new, d) k =
      let (brk, kept, said) = one_kept id events c b part reported built in
      let (in_rest, not_in_rest) = breaks_kept claims b.captured c' ran p d k in
      let got = ap (λ x. Dict.get x k) kept ∙ Dict.get-set c id k brk in
      elim (Bool-cases (Dict.has claims k)) [
        | inl m ↦ (λ x. in_rest m, λ x. ground arith)
        | inr m ↦ elim (Bool-cases (id == k)) [
          | inl same ↦ (
            λ x. (
              brk,
              not_in_rest m ∙ got ∙ ground arith,
              subst (λ i. IsBreak sources l now i brk) (ground arith) said,
            ),
            λ x. ground arith,
          )
          | inr other ↦ (λ x. ground arith, λ x. not_in_rest m ∙ got ∙ ground arith)
        ]
      ]

  abbrev listed_of : Dict BreakEvent → List String → List BreakEvent
  listed_of built = map (λ id. Option.get_or (Dict.get built id) no_break)

  listed-Every :
      (built : Dict BreakEvent) (ids : List String)
      → ((k : String)
          → contains ids k ≡ true
          → (b : BreakEvent) × (Dict.get built k ≡ some b) × IsBreak sources l now k b)
      → (traded (listed_of built ids) ≡ ids)
        × Every (λ b. IsBreak sources l now b.trade_id b) (listed_of built ids)
  unfolding contains
  listed-Every built [] h = (refl, tt)
  listed-Every built (id ∷ ids) h =
      let (b, got, said) = h id (ground arith) in
      let (same, rest) = listed-Every built ids (λ k m. h k (ground arith)) in
      let is_b : Option.get_or (Dict.get built id) no_break ≡ b = rw got refl in
      (
        rw (is_b, said.trade, same) refl,
        (
          subst (λ x. IsBreak sources l now x.trade_id x) (sym is_b)
              (subst (λ i. IsBreak sources l now i b) (sym said.trade) said),
          rest,
        ),
      )

  -- The breaks of a sweep: one for each trade that is due, in ascending order of the trades.
  pub record AreBreaks (breaks : List BreakEvent) : Type 0 where
    pub exact : (k : String) → contains (traded breaks) k ≡ l.due k now
    pub once : Distinct (traded breaks)
    pub sorted : IsAscending (λ (x : String). x) (traded breaks)
    pub each : Every (λ b. IsBreak sources l now b.trade_id b) breaks

  sort_breaks-AreBreaks :
      (breaks : List BreakEvent)
      → ((k : String) → contains (traded breaks) k ≡ l.due k now)
      → Distinct (traded breaks)
      → Every (λ b. IsBreak sources l now b.trade_id b) breaks
      → AreBreaks (sort_breaks breaks)
  sort_breaks-AreBreaks breaks exact once each = rw sort_breaks-eq-sort (record {
    exact = λ k. contains-sort _ (λ (b : BreakEvent). b.trade_id) breaks k ∙ exact k;
    once = Distinct-sort _ (λ (b : BreakEvent). b.trade_id) breaks once;
    sorted = IsAscending-map _ _ (sort-IsAscending (λ (b : BreakEvent). b.trade_id) breaks);
    each = Every-sort _ _ breaks each;
  })

module _ (codec : Codec) (store : Store) (sources : List String) (window : Duration)
    (k : Contract store sources) where
  -- What a sweep leaves
  pub record Sweeps (s : store.State) (now : Time) (call : Result (List BreakEvent) × store.State)
      : Type 0 where
    pub breaks : List BreakEvent
    pub returned : call.0 ≡ ok breaks
    pub said : AreBreaks sources window codec now (k.view s) breaks
    pub kept : k.IsOk call.1
    pub moved : k.view call.1 ≡ Ledger.sweep (k.view s) now

  -- Over any store that keeps the contract, and in a state of its, `Sweep` returns exactly one break
  -- for each trade that is due, in ascending order of the trades: it has the time of the call, lists
  -- as received the sources that have reported and as missing the other expected ones. The store
  -- takes the ledger's step.
  pub sweep-Sweeps :
      (s : store.State) (now : Time)
      → k.IsOk s
      → Sweeps s now (sweep codec store (new_engine sources window) s now)
  unfolding sweep Dict.has
  sweep-Sweeps s now good =
      let call = store.sweep_expired s now (audit_break codec (new_engine sources window) now) [] in
      let done =
        k.sweeps s now (audit_break codec (new_engine sources window) now) [] good
          (audit_break-Serves codec sources now window) in
      let ids = Dict.keys done.expired in
      let kept =
        breaks_kept sources window codec now (k.view s) done.claims [] call.captured done.ran
          done.parts done.claimed_once in
      let (same, each) = listed-Every sources window codec now (k.view s) call.captured ids (λ t m.
        (kept t).0
          (done.claimed t ∙ sym (done.listed t) ∙ sym (Dict.contains-keys done.expired t) ∙ m)) in
      record {
        breaks = sort_breaks (listed_of sources window codec now (k.view s) call.captured ids);
        returned = ap (λ r. sweep_outcome r call.captured) done.returned;
        said =
            sort_breaks-AreBreaks sources window codec now (k.view s) _
              (λ t. ap (λ x. contains x t) same ∙ Dict.contains-keys done.expired t ∙ done.listed t)
              (subst Distinct (sym same) done.distinct) each;
        kept = done.kept;
        moved = done.moved;
      }
