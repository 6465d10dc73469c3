-- ===== src/Memory/Invariant.antt =====
-- The invariant of a memory store (memory.go) that serves one set of expected sources.
use event_correlator_tool.Common.{
  String, Bool, true, false, ◌||◌, Option, none, some, List, [], ◌∷◌, ◌++◌, map, ◌≡◌, ◌≢◌, refl,
  subst₂, inl, inr, arith, ◌==◌, contains, contains-append, Distinct, Every, Subset, if◌then◌else◌,
  Bool-cases, Option-cases, Result, ok, panic,
}
pub mod Ingest
use mathlib.Core.List.{map-append}
use event_correlator_tool.Common.Dict
use event_correlator_tool.Common.Dict.{Dict}
use event_correlator_tool.Model.{AuditEntry}
use event_correlator_tool.Store.{PendingTrade, sources_of, Built, BuildAudit}
use event_correlator_tool.Memory.{
  Memory, new, pending_events, has_every_source, expected_events, is_finalized, has_source,
  appended, finish, admit, ingest,
}
use event_correlator_tool.Memory.Selection.{has_source-contains}

-- Every event carries this trade's id.
abbrev pub AllNamed : String → List PendingTrade → Type 0
AllNamed id = Every (λ (event : PendingTrade). event.trade_id ≡ id)

-- Events of one trade, from expected sources that differ from one another.
pub record IsPart (expected : List String) (id : String) (events : List PendingTrade) : Type 0 where
  pub named : AllNamed id events
  pub distinct : Distinct (sources_of events)
  pub known : Subset (sources_of events) expected

-- The events of a trade that waits: one from each of some, but not all, of the expected sources.
pub record IsWaiting (expected : List String) (id : String) (events : List PendingTrade)
    : Type 0 where
  pub part : IsPart expected id events
  pub nonempty : events ≢ []
  pub incomplete : has_every_source events expected ≡ false

pub record IsValid (expected : List String) (s : Memory) : Type 0 where
  pub keys : Distinct (Dict.keys s.events)
  pub waiting :
      (id : String) (events : List PendingTrade)
      → Dict.get s.events id ≡ some events
      → IsWaiting expected id events
  -- a trade with an audit entry has no pending events
  pub closed : (id : String) → is_finalized s.audit id ≡ true → Dict.get s.events id ≡ none
  -- and one audit entry only
  pub once : Distinct (map (λ (entry : AuditEntry). entry.trade_id) s.audit)

-- The entries that a closure builds are about the trade that it was called for.
abbrev pub IsAbout : {C : Type 0} → String → BuildAudit C → Type 0
IsAbout {C} id build =
    (c : C) (events : List PendingTrade) (b : Built C)
    → build c events ≡ some b
    → b.entry.trade_id ≡ id

Distinct-snoc :
    (xs : List String) (a : String) → Distinct xs → contains xs a ≡ false → Distinct (xs ++ a ∷ [])
unfolding contains
Distinct-snoc [] a h k = (refl, tt)
Distinct-snoc (x ∷ xs) a (new, h) k =
    ground (arith, Distinct-snoc xs a h, contains-append xs (a ∷ []) x)

module _ (events : List PendingTrade) (event : PendingTrade) where
  pub sources_of-snoc : sources_of (events ++ event ∷ []) ≡ sources_of events ++ event.source ∷ []
  sources_of-snoc = map-append _ events (event ∷ [])

is_finalized-contains :
    (audit : List AuditEntry) (id : String)
    → is_finalized audit id ≡ contains (map (λ (entry : AuditEntry). entry.trade_id) audit) id
unfolding is_finalized contains
is_finalized-contains [] id = refl
is_finalized-contains (entry ∷ audit) id = ground (arith, is_finalized-contains audit id)

pub is_finalized-snoc :
    (audit : List AuditEntry) (entry : AuditEntry) (id : String)
    → is_finalized (audit ++ entry ∷ []) id ≡ (is_finalized audit id || entry.trade_id == id)
unfolding is_finalized
is_finalized-snoc [] entry id = ground arith
is_finalized-snoc (e ∷ audit) entry id = ground (arith, is_finalized-snoc audit entry id)

AllNamed-snoc :
    (id : String) (events : List PendingTrade) (event : PendingTrade)
    → AllNamed id events
    → event.trade_id ≡ id
    → AllNamed id (events ++ event ∷ [])
AllNamed-snoc id [] event h e = (e, tt)
AllNamed-snoc id (x ∷ events) event h e = (h.0, AllNamed-snoc id events event h.1 e)

-- The ids of the audit log stay distinct when a trade that it lacks is added.
pub once-snoc :
    (audit : List AuditEntry) (entry : AuditEntry)
    → Distinct (map (λ (e : AuditEntry). e.trade_id) audit)
    → is_finalized audit entry.trade_id ≡ false
    → Distinct (map (λ (e : AuditEntry). e.trade_id) (audit ++ entry ∷ []))
once-snoc audit entry h k =
    rw (map-append)
      (Distinct-snoc _ entry.trade_id h (rw (← is_finalized-contains audit entry.trade_id) k))

snoc-ne-nil {ℓ} : {A : Type ℓ} (xs : List A) (x : A) → xs ++ x ∷ [] ≢ []
snoc-ne-nil [] x e = cc
snoc-ne-nil (y ∷ xs) x e = cc

IsPart-snoc :
    (expected : List String) (id : String) (events : List PendingTrade) (event : PendingTrade)
    → IsPart expected id events
    → event.trade_id ≡ id
    → contains (sources_of events) event.source ≡ false
    → contains expected event.source ≡ true
    → IsPart expected id (events ++ event ∷ [])
unfolding contains
IsPart-snoc expected id events event p e new k = record {
  named = AllNamed-snoc id events event p.named e;
  distinct = rw (sources_of-snoc events event) (Distinct-snoc _ event.source p.distinct new);
  known = λ a m. ground (
    arith,
    rw (sources_of-snoc events event) at m,
    contains-append (sources_of events) (event.source ∷ []) a,
    p.known a,
  );
}

module _ {expected : List String} {s : Memory} (v : IsValid expected s) where
  pub pending_events-IsPart : (id : String) → IsPart expected id (pending_events s id)
  unfolding pending_events contains
  pending_events-IsPart id = elim (Option-cases (Dict.get s.events id)) [
    | inl e ↦ rw (e, pending_events) (record { named = tt; distinct = tt; known = λ a m. cc })
    | inr (events, e) ↦ rw (e, pending_events) (v.waiting id events e).part
  ]

-- A new store is valid.
pub new-IsValid : (expected : List String) → IsValid expected new
unfolding new Dict.get Dict.keys is_finalized
new-IsValid expected = record { keys = tt; waiting = λ id es h. cc; closed = λ id h. cc; once = tt }
