-- ===== src/Memory/Sweep.antt =====
-- `SweepExpired` and `GetAudit` of memory.go, and the store that the methods make up.
pub mod Claims
pub mod History
use event_correlator_tool.Common.{
  ℕ, zero, suc, String, Bool, true, false, not, ◌&&◌, Option, none, some, List, [], ◌∷◌, ◌++◌, ◌==◌,
  if◌then◌else◌, Result, ok, panic,
}
use event_correlator_tool.Common.Int.{ℤ, pos, leb_ℤ, pos_part}
use event_correlator_tool.Common.Dict
use event_correlator_tool.Common.Dict.{Dict}
use event_correlator_tool.Common.Sorting.{sort_strings}
use event_correlator_tool.Clock.{Time}
use event_correlator_tool.Model.{AuditEntry}
use event_correlator_tool.Store.{PendingTrade, AuditFilter, BuildBreak, Call, Store}
use event_correlator_tool.Memory.{Memory, pending_events, is_due, ingest}
use mathlib.Core.List.{reverse}

-- The variables of the loop of `SweepExpired`.
pub record Loop (C : Type 0) : Type 0 where
  pub store : Memory
  pub expired : Dict (List PendingTrade)
  pub captured : C

-- A round of the loop: it goes on, or `buildAudit` panics in the state that it finds.
pub data Round (C : Type 0) : Type 0 where
  next : Loop C → Round C
  stopped : Loop C → Round C

-- A panic ends the loop.
abbrev pub resume : {C : Type 0} → Round C → (Loop C → Round C) → Round C
resume (next l) rest = rest l
resume (stopped l) rest = stopped l

-- One round. `expired[tradeID]` is the slice that `buildAudit` was handed.
unfoldable pub sweep_one : {C : Type 0} → Time → BuildBreak C → Loop C → String → Round C
sweep_one now build l trade_id =
    let claimed = pending_events l.store trade_id in
    if is_due now claimed
    then (let events = Dict.delete l.store.events trade_id in
        elim (build trade_id l.captured claimed) [
          | none ↦ stopped (record {
            store = record l.store { events = events };
            expired = Dict.set l.expired trade_id claimed;
            captured = l.captured;
          })
          | some b ↦ next (record {
            store = record { events = events; audit = l.store.audit ++ b.entry ∷ [] };
            expired = Dict.set l.expired trade_id b.events;
            captured = b.captured;
          })
        ])
    else next l

unfoldable pub sweep_all : {C : Type 0} → Time → BuildBreak C → Loop C → List String → Round C
sweep_all now build l [] = next l
sweep_all now build l (trade_id ∷ trade_ids) =
    resume (sweep_one now build l trade_id) (λ l'. sweep_all now build l' trade_ids)

-- What `SweepExpired` returns after its loop.
abbrev pub swept : {C : Type 0} → Round C → Call Memory C (Dict (List PendingTrade))
swept (next l) = record { result = ok l.expired; state = l.store; captured = l.captured }
swept (stopped l) = record { result = panic; state = l.store; captured = l.captured }

unfoldable pub sweep_expired :
    {C : Type 0} → Memory → Time → BuildBreak C → C → Call Memory C (Dict (List PendingTrade))
sweep_expired s now build c = swept (
    sweep_all now build (record { store = s; expired = []; captured = c })
      (sort_strings (Dict.keys s.events)))

-- The two `continue`s of `GetAudit`.
unfoldable pub is_selected : AuditFilter → AuditEntry → Bool
is_selected f entry =
    not (not (f.trade_id == "") && not (entry.trade_id == f.trade_id))
    && not (not (f.outcome == "") && not (entry.outcome == f.outcome))

-- The default of `GetAudit`.
unfoldable pub limit_of : ℤ → ℕ
limit_of limit = if leb_ℤ limit (pos 0) then 100 else pos_part limit

-- The loop of `GetAudit`, from the newest entry on; the number is `limit - len(result)`.
unfoldable pub collect : AuditFilter → ℕ → List AuditEntry → List AuditEntry
unfolding is_selected
collect f zero entries = []
collect f (suc room) [] = []
collect f (suc room) (entry ∷ entries) = elim (is_selected f entry) [
  | true ↦ entry ∷ collect f room entries
  | false ↦ collect f (suc room) entries
]

unfoldable pub get_audit : Memory → AuditFilter → Result (List AuditEntry)
get_audit s f = ok (collect f (limit_of f.limit) (reverse s.audit))

-- memory.Store as a `store.Store`
abbrev pub memory_store : Store
memory_store = record {
  State = Memory;
  ingest = λ s trade expected build c. ingest s trade expected build c;
  sweep_expired = λ s now build c. sweep_expired s now build c;
  get_audit = get_audit;
}
