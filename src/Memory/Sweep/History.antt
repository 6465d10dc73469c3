-- ===== src/Memory/Sweep/History.antt =====
-- `GetAudit` of memory.go against a filter of the reversed log.
use event_correlator_tool.Common.{
  ℕ, zero, suc, true, List, [], ◌∷◌, ◌≡◌, ◌↔◌, ◌⊎◌, refl, arith, keep, take, ok,
}
use event_correlator_tool.Model.{AuditEntry}
use event_correlator_tool.Store.{AuditFilter}
use event_correlator_tool.Memory.{Memory}
use event_correlator_tool.Memory.Sweep.{is_selected, limit_of, collect, get_audit}
use mathlib.Core.List.{reverse}

collect-eq-take :
    (f : AuditFilter) (n : ℕ) (entries : List AuditEntry)
    → collect f n entries ≡ take n (keep (is_selected f) entries)
unfolding collect
collect-eq-take f zero entries = refl
collect-eq-take f (suc n) [] = refl
collect-eq-take f (suc n) (entry ∷ entries) =
    ground (arith, collect-eq-take f n entries, collect-eq-take f (suc n) entries)

-- `GetAudit` returns the newest entries that pass the filter, newest first: as many as the limit
-- allows, which is 100 where the filter's limit is not positive.
pub get_audit-eq-take :
    (s : Memory) (f : AuditFilter)
    → get_audit s f ≡ ok (take (limit_of f.limit) (keep (is_selected f) (reverse s.audit)))
unfolding get_audit
get_audit-eq-take s f = rw (collect-eq-take f (limit_of f.limit) (reverse s.audit))

-- An entry passes the filter exactly when each field of the filter is empty or the entry's own.
pub is_selected_iff :
    (f : AuditFilter) (entry : AuditEntry)
    → (is_selected f entry ≡ true) ↔ (
        ((f.trade_id ≡ "") ⊎ (entry.trade_id ≡ f.trade_id))
        × ((f.outcome ≡ "") ⊎ (entry.outcome ≡ f.outcome)))
unfolding is_selected
is_selected_iff f entry = ground arith
