-- ===== src/Memory/Refines/Audit.antt =====
-- `GetAudit` of memory.go against the ledger.
use event_correlator_tool.Common.{
  Bool, ◌||◌, List, [], ◌∷◌, keep, take, Every, Every-keep, ◌≡◌, refl, sym, ◌∙◌, subst, arith, ok,
}
use event_correlator_tool.Common.Int.{pos, ◌≤ℤ◌}
use event_correlator_tool.Model.{AuditEntry}
use event_correlator_tool.Store.{AuditFilter}
use event_correlator_tool.Memory.{Memory}
use event_correlator_tool.Memory.Sweep.{is_selected, limit_of, get_audit}
use event_correlator_tool.Memory.Sweep.History.{get_audit-eq-take}
use event_correlator_tool.Memory.Refines.{view}
use event_correlator_tool.Contract.{is_chosen, Audits}
use event_correlator_tool.Contract.Auditing.{
  is_any, keep-ne-nil, keep-Every, finalized-is_any, finalized-Every, Audits-take,
}
use mathlib.Core.List.{reverse_aux}
use mathlib.Core.Path.{fun_ext}

is_any-reverse_aux :
    (p : AuditEntry → Bool) (entries acc : List AuditEntry)
    → is_any p (reverse_aux entries acc) ≡ (is_any p entries || is_any p acc)
is_any-reverse_aux p [] acc = refl
is_any-reverse_aux p (entry ∷ entries) acc =
    is_any-reverse_aux p entries (entry ∷ acc) ∙ ground arith

Every-reverse_aux {κ} :
    (P : AuditEntry → Type κ) (entries acc : List AuditEntry)
    → Every P entries
    → Every P acc
    → Every P (reverse_aux entries acc)
Every-reverse_aux P [] acc h k = k
Every-reverse_aux P (entry ∷ entries) acc h k =
    Every-reverse_aux P entries (entry ∷ acc) h.1 (h.0, k)

is_selected-eq : (f : AuditFilter) → is_selected f ≡ is_chosen f
unfolding is_selected
is_selected-eq f = fun_ext (λ entry. ground arith)

-- `GetAudit` of the memory store returns entries that pass the filter, of closed trades, as many as the
-- limit allows, and some where the filter asks for a closed trade with any outcome.
pub get_audit-Audits :
    (s : Memory) (f : AuditFilter) → pos 1 ≤ℤ f.limit → Audits (view s) f (get_audit s f)
unfolding limit_of
get_audit-Audits s f h =
    let log = reverse_aux s.audit [] in
    subst (Audits (view s) f) (sym (get_audit-eq-take s f)) (
      subst (λ p. Audits (view s) f (ok (take (limit_of f.limit) (keep p log))))
        (sym (is_selected-eq f))
        (Audits-take (view s) f (limit_of f.limit) (keep (is_chosen f) log) (ground arith)
          (ground arith) (keep-Every (is_chosen f) log)
          (Every-keep _ (is_chosen f) log
            (Every-reverse_aux _ s.audit [] (finalized-Every s.audit) tt))
          (λ any_outcome closed. keep-ne-nil (is_chosen f) log (
            is_any-reverse_aux (is_chosen f) s.audit []
            ∙ ground (arith, finalized-is_any f s.audit any_outcome closed)))))
