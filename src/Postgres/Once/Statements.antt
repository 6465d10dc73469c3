-- ===== src/Postgres/Once/Statements.antt =====
-- What the statements of postgres.go do to tables that audit each trade once.
use event_correlator_tool.Common.{
  ℕ, String, Bool, true, false, not, ◌&&◌, ◌||◌, List, [], ◌∷◌, ◌++◌, map, keep, ◌≡◌, ◌≢◌, refl,
  ◌∙◌, ap, arith, ◌==◌, contains, Distinct, if◌then◌else◌,
}
use event_correlator_tool.Clock.{Time}
use event_correlator_tool.Model.{AuditEntry}
use event_correlator_tool.Store.{PendingTrade}
use event_correlator_tool.Memory.{is_finalized}
use event_correlator_tool.Memory.Invariant.{is_finalized-snoc, once-snoc}
use event_correlator_tool.Postgres.{Tables, Server}
use event_correlator_tool.Postgres.Queries.{rows_of, delete_rows, insert_entry}
use event_correlator_tool.Postgres.Ingest.{conflicts, insert_row}
use event_correlator_tool.Postgres.Sweep.{is_skipped}
use event_correlator_tool.Postgres.Rows.Keys.{KeepsKeys}
use mathlib.Core.List.{Permᴰ}

-- A server that keeps the trades of what it stores, and permutes the rows that it orders
pub record KeepsTrades (server : Server) : Type 0 where
  pub keys : KeepsKeys server
  pub logs : (n : ℕ) (entry : AuditEntry) → (server.recorded n entry).trade_id ≡ entry.trade_id
  pub permutes : (rows : List PendingTrade) → Permᴰ (server.by_source rows) rows

abbrev pub waiting : Tables → String → Bool
waiting t = contains (map (λ (row : PendingTrade). row.trade_id) t.pending)

-- A trade has one audit entry at most, and no row where it has one.
pub record IsOnce (t : Tables) : Type 0 where
  pub once : Distinct (map (λ (entry : AuditEntry). entry.trade_id) t.audit)
  pub apart : (id : String) → is_finalized t.audit id ≡ true → waiting t id ≡ false

waiting-snoc :
    (rows : List PendingTrade) (row : PendingTrade) (id : String)
    → contains (map (λ (r : PendingTrade). r.trade_id) (rows ++ row ∷ [])) id
      ≡ (contains (map (λ (r : PendingTrade). r.trade_id) rows) id || row.trade_id == id)
unfolding contains
waiting-snoc [] row id = ground arith
waiting-snoc (r ∷ rows) row id = ground (arith, waiting-snoc rows row id)

waiting-delete :
    (rows : List PendingTrade) (id k : String)
    → contains (map (λ (r : PendingTrade). r.trade_id) (keep (λ r. not (r.trade_id == id)) rows)) k
      ≡ (contains (map (λ (r : PendingTrade). r.trade_id) rows) k && not (k == id))
unfolding contains
waiting-delete [] id k = refl
waiting-delete (r ∷ rows) id k = ground (arith, waiting-delete rows id k)

pub waiting-rows_of :
    (rows : List PendingTrade) (id : String)
    → rows_of id rows ≢ []
    → contains (map (λ (r : PendingTrade). r.trade_id) rows) id ≡ true
unfolding contains
waiting-rows_of [] id h = absurd (h refl)
waiting-rows_of (r ∷ rows) id h = ground (arith, waiting-rows_of rows id, h)

-- The trade is open.
pub record IsOpen (id : String) (t : Tables) : Type 0 where
  pub once : IsOnce t
  pub open_trade : is_finalized t.audit id ≡ false

-- The trade is open and has no row.
pub record IsCleared (id : String) (t : Tables) : Type 0 where
  pub opened : IsOpen id t
  pub cleared : waiting t id ≡ false

pub found-IsOpen : (id : String) (t : Tables) → IsOnce t → waiting t id ≡ true → IsOpen id t
found-IsOpen id t h e = record { once = h; open_trade = ground (arith, h.apart id, e) }

pub not_skipped :
    (now : Time) (events : List PendingTrade) → is_skipped now events ≡ false → events ≢ []
unfolding is_skipped
not_skipped now events h e = cc

module _ (server : Server) (keeps : KeepsTrades server) where
  pub delete-IsCleared :
      (id : String) (n : ℕ) (t : Tables) → IsOpen id t → IsCleared id (delete_rows id n t)
  delete-IsCleared id n t h = record {
    opened = record {
      once = record {
        once = h.once.once;
        apart = λ k m. ground (arith, waiting-delete t.pending id k, h.once.apart k m);
      };
      open_trade = h.open_trade;
    };
    cleared = ground (arith, waiting-delete t.pending id id);
  }

  pub entry-IsOnce :
      (id : String) (entry : AuditEntry) (n : ℕ) (t : Tables)
      → entry.trade_id ≡ id
      → IsCleared id t
      → IsOnce (insert_entry server entry n t)
  entry-IsOnce id entry n t about h = record {
    once =
        once-snoc t.audit (server.recorded n entry) h.opened.once.once
          (ap (is_finalized t.audit) (keeps.logs n entry ∙ about) ∙ h.opened.open_trade);
    apart = λ k m. ground (
      arith,
      rw (is_finalized-snoc t.audit (server.recorded n entry) k) at m,
      keeps.logs n entry,
      about,
      h.opened.once.apart k,
      h.cleared,
    );
  }

  pub row-IsOpen :
      (trade : PendingTrade) (n : ℕ) (t : Tables)
      → IsOpen trade.trade_id t
      → IsOpen trade.trade_id (insert_row server trade n t)
  row-IsOpen trade n t h = if-IsOpen (conflicts trade t.pending)
    where
      grown : IsOpen trade.trade_id (record t { pending = t.pending ++ server.stored trade ∷ [] })
      grown = record {
        once = record {
          once = h.once.once;
          apart = λ k m. ground (
            arith,
            waiting-snoc t.pending (server.stored trade) k,
            h.once.apart k m,
            (keeps.keys trade).0,
            h.open_trade,
            m,
          );
        };
        open_trade = h.open_trade;
      }

      if-IsOpen :
          (b : Bool)
          → IsOpen trade.trade_id
              (if b then t else record t { pending = t.pending ++ server.stored trade ∷ [] })
      if-IsOpen true = h
      if-IsOpen false = grown
