-- ===== src/Postgres/Refines/Audit.antt =====
-- `GetAudit` of postgres.go against the ledger, with a server that suits it.
use event_correlator_tool.Common.{List, [], ◌∷◌, keep, take, Every-keep, sym, ap, subst, arith}
use event_correlator_tool.Common.Int.{pos, pos_part, ◌≤ℤ◌}
use event_correlator_tool.Common.Sorting.Unique.{Every-perm, nil_of_perm}
use event_correlator_tool.Clock.{Time}
use event_correlator_tool.Model.{AuditEntry}
use event_correlator_tool.Store.{AuditFilter}
use event_correlator_tool.Postgres.{Server}
use event_correlator_tool.Postgres.Client.{Database, opened}
use event_correlator_tool.Postgres.Queries.{limit_of, matches, read_entries, get_audit}
use event_correlator_tool.Postgres.Quiet.{
  View, Gives, Gives-then, pure-Gives, query-Gives, read-Gives, check-Gives,
}
use event_correlator_tool.Postgres.Refines.{Suits}
use event_correlator_tool.Postgres.Refines.Answers.{view}
use event_correlator_tool.Contract.{Audits}
use event_correlator_tool.Contract.Auditing.{
  keep-ne-nil, keep-Every, finalized-is_any, finalized-Every, Audits-take,
}
use mathlib.Core.List.Permᴰ

module _ (server : Server) (kept : Time → Time) (suits : Suits server kept) where
  read_entries-Gives :
      {C : Type 0} (rows : List AuditEntry) (v : View C) → Gives (read_entries server rows) v rows v
  unfolding read_entries
  read_entries-Gives [] v = pure-Gives [] v
  read_entries-Gives (row ∷ rows) v = Gives-then _ (query-Gives server suits.quiet _ (λ t. row) v) (
      Gives-then _ (check-Gives _ _ (suits.decodes row.sources) v)
        (Gives-then _ (read_entries-Gives rows v) (pure-Gives (row ∷ rows) v)))

  abbrev selected : Database → AuditFilter → List AuditEntry
  selected d f = server.newest_first (keep (matches f) d.committed.audit)

  get_audit-Gives :
      {C : Type 0} (f : AuditFilter) (v : View C)
      → Gives
          (get_audit server f)
          v
          (take
            (pos_part (limit_of f.limit))
            (server.newest_first (keep (matches f) v.committed.audit)))
          v
  unfolding get_audit
  get_audit-Gives f v =
      Gives-then _
        (read-Gives server suits.quiet _
          (λ t. take (pos_part (limit_of f.limit)) (server.newest_first (keep (matches f) t.audit)))
          v)
        (Gives-then _ (read_entries-Gives _ v) (query-Gives server suits.quiet _ (λ t. _) v))

  -- With a server that suits the contract, `GetAudit` of the PostgreSQL store returns entries that pass
  -- the filter, of closed trades, as many as the limit allows, and some where the filter asks for a
  -- closed trade with any outcome, for limits from 1 to 500.
  pub get_audit-Audits :
      (d : Database) (f : AuditFilter)
      → pos 1 ≤ℤ f.limit
      → f.limit ≤ℤ pos 500
      → Audits (view d) f (get_audit server f (opened d tt)).0
  unfolding limit_of
  get_audit-Audits d f low high =
      let log = d.committed.audit in
      let permuted = suits.entries_permuted (keep (matches f) log) in
      let back = Permᴰ.symm permuted in
      let (n, ran) =
        (get_audit-Gives f
            (record { committed = d.committed; work = d.committed; captured = tt })).runs
          d.requests in
      subst (Audits (view d) f) (sym (ap (λ x. x.0) ran)) (
        Audits-take (view d) f (pos_part (limit_of f.limit)) (selected d f) (ground arith)
          (ground arith) (Every-perm _ back (keep-Every (matches f) log))
          (Every-perm _ back (Every-keep _ (matches f) log (finalized-Every log)))
          (λ any_outcome closed e.
            keep-ne-nil (matches f) log (finalized-is_any f log any_outcome closed)
              (nil_of_perm back e)))
