-- ===== src/Contract/Auditing.antt =====
-- Queries of an audit log as the contract asks for them.
use event_correlator_tool.Common.{
  ℕ, ◌<◌, ◌≤◌, String, Bool, true, false, ◌||◌, List, [], ◌∷◌, keep, take, length-take, take-ne-nil,
  Every, Every-take, ◌≡◌, ◌≢◌, refl, arith, ok,
}
use event_correlator_tool.Common.Int.{pos_part}
use event_correlator_tool.Model.{AuditEntry}
use event_correlator_tool.Store.{AuditFilter}
use event_correlator_tool.Memory.{is_finalized}
use event_correlator_tool.Ledger.{Ledger}
use event_correlator_tool.Contract.{is_chosen, Audits}

-- Whether some entry passes a test
abbrev pub is_any : (AuditEntry → Bool) → List AuditEntry → Bool
is_any p [] = false
is_any p (entry ∷ entries) = p entry || is_any p entries

pub keep-ne-nil :
    (p : AuditEntry → Bool) (entries : List AuditEntry)
    → is_any p entries ≡ true
    → keep p entries ≢ []
keep-ne-nil p [] h = cc
keep-ne-nil p (entry ∷ entries) h = ground (arith, keep-ne-nil p entries)

pub keep-Every :
    (p : AuditEntry → Bool) (entries : List AuditEntry)
    → Every (λ (e : AuditEntry). p e ≡ true) (keep p entries)
keep-Every p [] = tt
keep-Every p (entry ∷ entries) = ground (arith, keep-Every p entries)

-- A closed trade has an entry that passes the filter for it.
pub finalized-is_any :
    (f : AuditFilter) (entries : List AuditEntry)
    → f.outcome ≡ ""
    → is_finalized entries f.trade_id ≡ true
    → is_any (is_chosen f) entries ≡ true
unfolding is_finalized
finalized-is_any f [] h k = cc
finalized-is_any f (entry ∷ entries) h k = ground (arith, finalized-is_any f entries h)

-- Each entry's trade is finalized.
finalized-of :
    (p : String → Bool) (entries : List AuditEntry)
    → ((id : String) → is_finalized entries id ≡ true → p id ≡ true)
    → Every (λ (e : AuditEntry). p e.trade_id ≡ true) entries
unfolding is_finalized
finalized-of p [] h = tt
finalized-of p (entry ∷ entries) h = (
  h entry.trade_id (unfold is_finalized in ground arith),
  finalized-of p entries (λ id m. h id (unfold is_finalized in ground (arith, m))),
)

pub finalized-Every :
    (entries : List AuditEntry)
    → Every (λ (e : AuditEntry). is_finalized entries e.trade_id ≡ true) entries
finalized-Every entries = finalized-of (is_finalized entries) entries (λ id m. m)

-- The first entries of a list, which has those of closed trades that pass the filter
pub Audits-take :
    (l : Ledger) (f : AuditFilter) (n : ℕ) (entries : List AuditEntry)
    → 0 < n
    → n ≤ pos_part f.limit
    → Every (λ e. is_chosen f e ≡ true) entries
    → Every (λ (e : AuditEntry). l.closed e.trade_id ≡ true) entries
    → (f.outcome ≡ "" → l.closed f.trade_id ≡ true → entries ≢ [])
    → Audits l f (ok (take n entries))
Audits-take l f n entries some few chosen closed found = record {
  entries = take n entries;
  returned = refl;
  chosen = Every-take _ n entries chosen;
  closed = Every-take _ n entries closed;
  few = omega (arith, length-take n entries);
  found = λ h k. take-ne-nil n entries some (found h k);
}
