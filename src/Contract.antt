-- ===== src/Contract.antt =====
-- The contract between the engine and a store (go/toolsets/event-correlator/src/internal/store/store.go):
-- each call takes the store's ledger one step, hands the closure the right events once, and returns.
pub mod Sweeping
pub mod Histories
pub mod Auditing
use event_correlator_tool.Common.{
  ℕ, String, Bool, true, false, Option, none, some, List, [], ◌∷◌, ◌≡◌, ◌≢◌, Result, ok, contains,
  Distinct, Every, length, ◌==◌, ◌&&◌, ◌||◌, ◌≤◌,
}
use event_correlator_tool.Common.Int.{pos, pos_part, ◌≤ℤ◌}
use event_correlator_tool.Model.{AuditEntry}
use event_correlator_tool.Common.Dict
use event_correlator_tool.Common.Dict.{Dict}
use event_correlator_tool.Clock.{Time}
use event_correlator_tool.Store.{
  PendingTrade, sources_of, IngestResult, Built, BuildAudit, BuildBreak, Call, Store, AuditFilter,
}
use event_correlator_tool.Memory.Invariant.{IsPart, IsAbout}
use event_correlator_tool.Ledger
use event_correlator_tool.Ledger.{Ledger, Report, Answer, duplicate, pending, reconciled}
use event_correlator_tool.Ledger.Rows.{report_of}

-- What a store may ask of a closure: its entry is about the trade, and it returns where it is handed
-- one event or more of the trade, from different expected sources.
pub record Serves {C : Type 0} (expected : List String) (id : String) (build : BuildAudit C)
    : Type 0 where
  pub about : IsAbout id build
  pub returns :
      (c : C) (events : List PendingTrade)
      → events ≢ []
      → IsPart expected id events
      → build c events ≢ none

-- The closure was called once, with one event of the trade from every expected source.
pub record Handed {C : Type 0} (expected : List String) (id : String) (build : BuildAudit C)
    (c c' : C) : Type 0 where
  pub events : List PendingTrade
  pub nonempty : events ≢ []
  pub part : IsPart expected id events
  pub exact : (a : String) → contains (sources_of events) a ≡ contains expected a
  pub built : Built C
  pub ran : build c events ≡ some built
  pub after : c' ≡ built.captured

-- What the closure of an ingestion has seen
abbrev pub Captures : {C : Type 0} → Answer → List String → String → BuildAudit C → C → C → Type 0
Captures duplicate expected id build c c' = c' ≡ c
Captures pending expected id build c c' = c' ≡ c
Captures reconciled expected id build c c' = Handed expected id build c c'

abbrev pub is_new : Answer → Bool
is_new duplicate = false
is_new pending = true
is_new reconciled = true

-- The closure's calls of a sweep, one after the other
abbrev pub Runs : {C : Type 0} → BuildBreak C → C → List (String × List PendingTrade) → C → Type 0
Runs build c [] c' = c' ≡ c
Runs {C} build c ((id, events) ∷ claims) c' =
    (b : Built C) × (build id c events ≡ some b) × Runs build b.captured claims c'

-- Each claim has events of its trade, from the sources that have reported.
abbrev pub AreParts : List String → Ledger → List (String × List PendingTrade) → Type 0
AreParts expected l [] = Unit
AreParts expected l ((id, events) ∷ claims) =
    ((events ≢ [])
      × IsPart expected id events
      × ((a : String) → contains (sources_of events) a ≡ l.reported id a))
    × AreParts expected l claims

module _ {S : Type 0} (IsOk : S → Type 0) (view : S → Ledger) (expected : List String)
    {C : Type 0} where
  -- An ingestion for the trade `id` has taken the ledger's step, with its answer.
  pub record Ingested (step : Answer × Ledger) (id : String) (build : BuildAudit C) (c : C)
      (call : Call S C IngestResult) : Type 0 where
    pub result : IngestResult
    pub returned : call.result ≡ ok result
    pub kept : IsOk call.state
    pub moved : view call.state ≡ step.1
    pub inserted : result.inserted ≡ is_new step.0
    pub captured : Captures step.0 expected id build c call.captured

  -- A sweep from the ledger `l` has taken the ledger's step.
  pub record Swept (l : Ledger) (now : Time) (build : BuildBreak C) (c : C)
      (call : Call S C (Dict (List PendingTrade))) : Type 0 where
    pub expired : Dict (List PendingTrade)
    pub returned : call.result ≡ ok expired
    pub kept : IsOk call.state
    pub moved : view call.state ≡ Ledger.sweep l now
    pub distinct : Distinct (Dict.keys expired)
    pub listed : (k : String) → Dict.has expired k ≡ l.due k now
    pub claims : List (String × List PendingTrade)
    pub claimed_once : Distinct (Dict.keys claims)
    pub claimed : (k : String) → Dict.has claims k ≡ l.due k now
    pub parts : AreParts expected l claims
    pub ran : Runs build c claims call.captured

-- Whether an entry passes a filter
abbrev pub is_chosen : AuditFilter → AuditEntry → Bool
is_chosen f entry =
    (f.trade_id == "" || entry.trade_id == f.trade_id)
    && (f.outcome == "" || entry.outcome == f.outcome)

-- What a query of the audit log returns: entries that pass the filter, of closed trades, as many as the
-- limit allows; and some, where the filter asks for a trade that is closed, with any outcome.
pub record Audits (l : Ledger) (f : AuditFilter) (r : Result (List AuditEntry)) : Type 0 where
  pub entries : List AuditEntry
  pub returned : r ≡ ok entries
  pub chosen : Every (λ e. is_chosen f e ≡ true) entries
  pub closed : Every (λ (e : AuditEntry). l.closed e.trade_id ≡ true) entries
  pub few : length entries ≤ pos_part f.limit
  pub found : f.outcome ≡ "" → l.closed f.trade_id ≡ true → entries ≢ []

-- A store that keeps the contract, for one list of expected sources
pub record Contract (store : Store) (expected : List String) : Type 1 where
  pub IsOk : store.State → Type 0
  pub view : store.State → Ledger
  -- a new store
  pub start : store.State
  pub started : IsOk start
  pub blank : view start ≡ Ledger.empty
  -- how the store rounds a deadline
  pub rounded : Time → Time
  pub ingests :
      {C : Type 0} (s : store.State) (trade : PendingTrade) (build : BuildAudit C) (c : C)
      → IsOk s
      → contains expected trade.source ≡ true
      → Serves expected trade.trade_id build
      → Ingested IsOk view expected
          (Ledger.ingest expected (view s) (report_of rounded trade))
          trade.trade_id
          build
          c
          (store.ingest s trade expected build c)
  pub sweeps :
      {C : Type 0} (s : store.State) (now : Time) (build : BuildBreak C) (c : C)
      → IsOk s
      → ((id : String) → Serves expected id (build id))
      → Swept IsOk view expected (view s) now build c (store.sweep_expired s now build c)
  pub audits :
      (s : store.State) (f : AuditFilter)
      → IsOk s
      → pos 1 ≤ℤ f.limit
      → f.limit ≤ℤ pos 500
      → Audits (view s) f (store.get_audit s f)
