-- ===== src/Tests/Memory.antt =====
-- The theorems on the memory store at concrete data.
use event_correlator_tool.Common.{[], ◌∷◌, ◌≡◌, ok, keep, take}
use event_correlator_tool.Common.Int.{pos}
use event_correlator_tool.Store.{AuditFilter}
use event_correlator_tool.Memory.{Memory}
use event_correlator_tool.Memory.Sweep.{is_selected, limit_of, get_audit}
use event_correlator_tool.Memory.Sweep.History.{get_audit-eq-take}
use mathlib.Core.List.{reverse}
use event_correlator_tool.Tests.{row_of, entry_of}

abbrev holding : Memory
holding = record {
  events =
      ("t1", row_of "t1" "solar" (pos 9) ∷ []) ∷ ("t2", row_of "t2" "solar" (pos 20) ∷ []) ∷ [];
  audit = entry_of "t0" "reconciled" ∷ [];
}

abbrev filter : AuditFilter
filter = record { trade_id = "t0"; outcome = ""; limit = pos 5 }

history :
    get_audit holding filter
    ≡ ok (take (limit_of (pos 5)) (keep (is_selected filter) (reverse holding.audit)))
history = get_audit-eq-take holding filter
