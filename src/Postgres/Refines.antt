-- ===== src/Postgres/Refines.antt =====
-- The rows of postgres.go against the ledger: what is supposed of the server, the states of the
-- store, and the rows of one trade.
pub mod Ingest
pub mod Answers
pub mod Due
pub mod Calm
pub mod Claims
pub mod Sessions
pub mod Faults
pub mod Audit
pub mod Sweep
use event_correlator_tool.Common.{
  none, Every-keep, ℕ, String, Bool, true, false, not, ◌&&◌, ◌||◌, List, [], ◌∷◌, ◌++◌, map, keep,
  ◌≡◌, refl, sym, ◌∙◌, ap, subst, arith, ◌==◌, if◌then◌else◌, contains, Every, Distinct,
}
use event_correlator_tool.Common.Int.{leb_ℤ}
use event_correlator_tool.Common.Sorting.Unique.{contains-perm, Distinct-perm, Every-perm}
use event_correlator_tool.Clock.{Time}
use event_correlator_tool.Model.{AuditEntry}
use event_correlator_tool.Store.{PendingTrade, sources_of}
use event_correlator_tool.Memory.{is_due}
use event_correlator_tool.Memory.Invariant.{AllNamed, IsPart}
use event_correlator_tool.Ledger.{Ledger}
use event_correlator_tool.Ledger.Rows.{ledger_of, IsRounding, AreKept, is_due-perm}
use event_correlator_tool.Postgres.{Tables, Server}
use event_correlator_tool.Postgres.Queries.{rows_of}
use event_correlator_tool.Postgres.Ingest.{conflicts}
use event_correlator_tool.Postgres.Rows.Keys.{AreKeyed, KeepsKeys}
use event_correlator_tool.Postgres.Quiet.{IsQuiet}
use mathlib.Core.List.{Permᴰ}
use mathlib.Core.List.Permᴰ

-- A server whose `ORDER BY` permutes the rows, and that keeps of a row its trade, its source and, up
-- to rounding, its deadline
pub record Stores (server : Server) (kept : Time → Time) : Type 0 where
  pub rows_permuted : (rows : List PendingTrade) → Permᴰ (server.by_source rows) rows
  pub ids_permuted : (ids : List String) → Permᴰ (server.by_trade ids) ids
  pub keys : KeepsKeys server
  pub rounds : IsRounding kept
  pub deadlines : (row : PendingTrade) → (server.stored row).deadline ≡ kept row.deadline
  pub logs : (n : ℕ) (entry : AuditEntry) → (server.recorded n entry).trade_id ≡ entry.trade_id

-- Such a server that reports no error, gives each lock that is asked for, permutes the audit entries
-- that it orders, and whose audit entries decode
pub record Suits (server : Server) (kept : Time → Time) : Type 0 where
  pub stores : Stores server kept
  pub quiet : IsQuiet server
  pub grants : (n : ℕ) → server.granted n ≡ true
  pub decodes : (sources : List String) → server.unmarshal_error sources ≡ none
  pub entries_permuted : (entries : List AuditEntry) → Permᴰ (server.newest_first entries) entries

abbrev pub view_of : Tables → Ledger
view_of t = ledger_of (λ id. rows_of id t.pending) t.audit

-- Tables that the store leaves when it serves one set of expected sources
pub record IsTidy (kept : Time → Time) (expected : List String) (t : Tables) : Type 0 where
  pub keyed : AreKeyed t.pending
  pub known : Every (λ (row : PendingTrade). contains expected row.source ≡ true) t.pending
  pub rounded : AreKept kept t.pending

-- A conflict is a row of the trade with the source.
pub conflicts-eq :
    (trade : PendingTrade) (rows : List PendingTrade)
    → conflicts trade rows ≡ contains (sources_of (rows_of trade.trade_id rows)) trade.source
unfolding conflicts contains
conflicts-eq trade [] = refl
conflicts-eq trade (row ∷ rows) = ground (arith, conflicts-eq trade rows)

pub rows_of-snoc :
    (id : String) (rows : List PendingTrade) (row : PendingTrade) (trade : String)
    → row.trade_id ≡ trade
    → rows_of id (rows ++ row ∷ [])
      ≡ (if id == trade then rows_of id rows ++ row ∷ [] else rows_of id rows)
rows_of-snoc id [] row trade e = ground arith
rows_of-snoc id (r ∷ rows) row trade e = ground (arith, rows_of-snoc id rows row trade e)

-- What is left without the rows of a trade
pub rows_of-delete :
    (id trade : String) (rows : List PendingTrade)
    → rows_of id (keep (λ row. not (row.trade_id == trade)) rows)
      ≡ (if id == trade then [] else rows_of id rows)
rows_of-delete id trade [] = ground arith
rows_of-delete id trade (r ∷ rows) = ground (arith, rows_of-delete id trade rows)

rows_of-AllNamed : (id : String) (rows : List PendingTrade) → AllNamed id (rows_of id rows)
rows_of-AllNamed id [] = tt
rows_of-AllNamed id (row ∷ rows) = ground (arith, rows_of-AllNamed id rows)

rows_of-Distinct :
    (id : String) (rows : List PendingTrade)
    → AreKeyed rows
    → Distinct (sources_of (rows_of id rows))
rows_of-Distinct id [] h = tt
rows_of-Distinct id (row ∷ rows) (new, h) =
    ground (arith, rows_of-Distinct id rows h, conflicts-eq row rows)

known-contains :
    (expected : List String) (rows : List PendingTrade)
    → Every (λ (row : PendingTrade). contains expected row.source ≡ true) rows
    → (a : String) → contains (sources_of rows) a ≡ true
    → contains expected a ≡ true
unfolding contains
known-contains expected [] h a m = cc
known-contains expected (row ∷ rows) (x, h) a m = ground (arith, known-contains expected rows h a)

module _ (server : Server) (kept : Time → Time) (stores : Stores server kept) where
  pub by_source-sources :
      (rows : List PendingTrade) (a : String)
      → contains (sources_of (server.by_source rows)) a ≡ contains (sources_of rows) a
  by_source-sources rows a =
      contains-perm (λ (row : PendingTrade). row.source) a (stores.rows_permuted rows)

  pub by_source-is_due :
      (rows : List PendingTrade) (now : Time) → is_due now (server.by_source rows) ≡ is_due now rows
  by_source-is_due rows now = is_due-perm now (stores.rows_permuted rows)

  -- The events of a trade, as they are read, fit the closure.
  pub by_source-IsPart :
      (expected : List String) (t : Tables) (id : String)
      → IsTidy kept expected t
      → IsPart expected id (server.by_source (rows_of id t.pending))
  by_source-IsPart expected t id h =
      let p = stores.rows_permuted (rows_of id t.pending) in
      let q = Permᴰ.symm p in
      record {
        named = Every-perm _ q (rows_of-AllNamed id t.pending);
        distinct =
            Distinct-perm (λ (row : PendingTrade). row.source) q
              (rows_of-Distinct id t.pending h.keyed);
        known = λ a m.
            known-contains expected (rows_of id t.pending) (Every-keep _ _ t.pending h.known) a
              (sym (by_source-sources (rows_of id t.pending) a) ∙ m);
      }
