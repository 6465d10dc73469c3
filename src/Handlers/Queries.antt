-- ===== src/Handlers/Queries.antt =====
-- The checks of `getAuditHistory` of main.go.
use event_correlator_tool.Common.{◌≡◌, ◌⊎◌, arith, ok}
use event_correlator_tool.Common.Int.{pos, ◌≤ℤ◌}
use event_correlator_tool.Store.{AuditFilter}
use event_correlator_tool.Handlers.{GetAuditHistoryParams, filter_of}

-- A query that reaches the store asks for one of the two outcomes or for both, and for 1 to 500
-- entries.
pub filter_of-range :
    (p : GetAuditHistoryParams) (f : AuditFilter)
    → filter_of p ≡ ok f
    → ((f.outcome ≡ "") ⊎ (f.outcome ≡ "reconciled") ⊎ (f.outcome ≡ "break"))
      × (pos 1 ≤ℤ f.limit)
      × (f.limit ≤ℤ pos 500)
unfolding filter_of
filter_of-range p f h = ground arith
