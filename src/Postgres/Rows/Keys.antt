-- ===== src/Postgres/Rows/Keys.antt =====
-- The primary key of `pending_events` in postgres.go: one row for a trade and a source.
use event_correlator_tool.Common.{
  ℕ, String, List, [], ◌∷◌, ◌++◌, ◌≡◌, refl, ◌∙◌, arith, Bool, false, ◌||◌, ◌&&◌, ◌==◌, keep,
  Bool-cases, inl, inr,
}
use event_correlator_tool.Clock.{Time}
use event_correlator_tool.Store.{PendingTrade, BuildAudit, BuildBreak}
use event_correlator_tool.Postgres.{Tables, Server, Connection}
use event_correlator_tool.Postgres.Ingest.{insert_row, conflicts, ingest}
use event_correlator_tool.Postgres.Sweep.{claim_expired, sweep_expired}
use event_correlator_tool.Postgres.Rows.{Holds}
use event_correlator_tool.Postgres.Rows.Methods.{
  Kept, ingest-Saves, claim_expired-Saves, sweep_expired-Saves,
}

-- No two rows have one trade and source.
abbrev pub AreKeyed : List PendingTrade → Type 0
AreKeyed [] = Unit
AreKeyed (row ∷ rows) = (conflicts row rows ≡ false) × AreKeyed rows

abbrev pub IsKeyed : Tables → Type 0
IsKeyed t = AreKeyed t.pending

conflicts-keep :
    (p : PendingTrade → Bool) (trade : PendingTrade) (rows : List PendingTrade)
    → conflicts trade rows ≡ false
    → conflicts trade (keep p rows) ≡ false
unfolding conflicts
conflicts-keep p trade [] h = refl
conflicts-keep p trade (row ∷ rows) h = ground (arith, conflicts-keep p trade rows)

pub AreKeyed-keep :
    (p : PendingTrade → Bool) (rows : List PendingTrade) → AreKeyed rows → AreKeyed (keep p rows)
AreKeyed-keep p [] h = tt
AreKeyed-keep p (row ∷ rows) h =
    ground (arith, AreKeyed-keep p rows h.1, conflicts-keep p row rows h.0)

conflicts-snoc :
    (row trade : PendingTrade) (rows : List PendingTrade)
    → conflicts row (rows ++ trade ∷ [])
      ≡ (conflicts row rows || (trade.trade_id == row.trade_id && trade.source == row.source))
unfolding conflicts
conflicts-snoc row trade [] = ground arith
conflicts-snoc row trade (r ∷ rows) = ground (arith, conflicts-snoc row trade rows)

pub AreKeyed-snoc :
    (trade : PendingTrade) (rows : List PendingTrade)
    → AreKeyed rows
    → conflicts trade rows ≡ false
    → AreKeyed (rows ++ trade ∷ [])
unfolding conflicts
AreKeyed-snoc trade [] h k = (refl, tt)
AreKeyed-snoc trade (row ∷ rows) h k =
    ground (arith, conflicts-snoc row trade rows, AreKeyed-snoc trade rows h.1)

-- A row is read back with the trade and the source that it was written with.
abbrev pub KeepsKeys : Server → Type 0
KeepsKeys server =
    (row : PendingTrade)
    → ((server.stored row).trade_id ≡ row.trade_id) × ((server.stored row).source ≡ row.source)

pub conflicts-stored :
    (server : Server)
    → KeepsKeys server
    → (trade : PendingTrade) (rows : List PendingTrade)
    → conflicts (server.stored trade) rows ≡ conflicts trade rows
unfolding conflicts
conflicts-stored server k trade [] = refl
conflicts-stored server k trade (row ∷ rows) =
    ground (arith, conflicts-stored server k trade rows, k trade)

insert_row-IsKeyed :
    (server : Server)
    → KeepsKeys server
    → (trade : PendingTrade) (n : ℕ) (t : Tables) → IsKeyed t
    → IsKeyed (insert_row server trade n t)
insert_row-IsKeyed server k trade n t h = elim (Bool-cases (conflicts trade t.pending)) [
  | inl e ↦ rw (e, insert_row) h
  | inr e ↦
      rw (e, insert_row)
        (AreKeyed-snoc (server.stored trade) t.pending h
          (conflicts-stored server k trade t.pending ∙ e))
]

IsKeyed-Kept : (server : Server) → KeepsKeys server → Kept server IsKeyed
IsKeyed-Kept server k = record {
  on_delete = λ id n t h. AreKeyed-keep _ t.pending h;
  on_entry = λ entry n t h. h;
  on_row = insert_row-IsKeyed server k;
}

module _ (server : Server) (k : KeepsKeys server) {C : Type 0} (s : Connection C)
    (h : Holds IsKeyed s) where
  -- Where rows are read back with their trade and source, and no two rows have one trade and
  -- source, that is so after `Ingest`, also where it fails.
  pub ingest-IsKeyed :
      (trade : PendingTrade) (expected : List String) (build : BuildAudit C)
      → Holds IsKeyed (ingest server trade expected build s).1
  ingest-IsKeyed trade expected build =
      ingest-Saves server (IsKeyed-Kept server k) trade expected build s h

  -- Where no two rows have one trade and source, that is so after `claimExpired`, also where it fails.
  pub claim_expired-IsKeyed :
      (now : Time) (build : BuildBreak C) (id : String)
      → Holds IsKeyed (claim_expired server now build id s).1
  claim_expired-IsKeyed now build id =
      (claim_expired-Saves server (IsKeyed-Kept server k) now build id).holds s h

  -- Where no two rows have one trade and source, that is so after `SweepExpired`, also where it
  -- fails.
  pub sweep_expired-IsKeyed :
      (now : Time) (build : BuildBreak C) → Holds IsKeyed (sweep_expired server now build s).1
  sweep_expired-IsKeyed now build = sweep_expired-Saves server (IsKeyed-Kept server k) now build s h
