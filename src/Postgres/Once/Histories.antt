-- ===== src/Postgres/Once/Histories.antt =====
-- Histories of calls of engine.go on the store of postgres.go, whatever the database reports.
use event_correlator_tool.Common.{String, none, []}
use event_correlator_tool.Clock.{Time}
use event_correlator_tool.Common.Dict.{Dict}
use event_correlator_tool.Model.{BreakEvent, Bytes, TradeEvent}
use event_correlator_tool.Engine.{Codec, Engine, audit_reconciled, audit_break}
use event_correlator_tool.Engine.Actions.{ingest, sweep, submit, pending_of}
use event_correlator_tool.Engine.Cases.{ingest_cases}
use event_correlator_tool.Lifecycle.Safety.{audit_reconciled-IsAbout, audit_break-IsAbout}
use event_correlator_tool.Memory.{is_finalized}
use event_correlator_tool.Postgres.Sweep.{claim_expired}
use event_correlator_tool.Postgres.{Server}
use event_correlator_tool.Postgres.Client.{Database, postgres_store, opened, call_of}
use event_correlator_tool.Postgres.Rows.Keys.{
  IsKeyed, ingest-IsKeyed, claim_expired-IsKeyed, sweep_expired-IsKeyed,
}
use event_correlator_tool.Postgres.Once.Statements.{KeepsTrades, IsOnce}
use event_correlator_tool.Postgres.Once.Methods.{
  ingest-IsOnce, claim_expired-IsOnce, sweep_expired-IsOnce,
}

-- The states that engines, each with its sources and window, leave an empty database in. A sweep is one
-- call, or one transaction for each trade that it claims: then other sessions run between them.
pub data Reach (server : Server) (codec : Codec) : Database → Type 0 where
  start :
      Reach server codec (record { requests = 0; committed = record { pending = []; audit = [] } })
  ingested :
      {d : Database} (e : Engine) (event : TradeEvent) (now : Time)
      → Reach server codec d
      → Reach server codec (ingest codec (postgres_store server) e d event now).1
  swept :
      {d : Database} (e : Engine) (now : Time)
      → Reach server codec d
      → Reach server codec (sweep codec (postgres_store server) e d now).1
  claimed :
      {d : Database} (e : Engine) (now : Time) (built : Dict BreakEvent) (id : String)
      → Reach server codec d
      → Reach server codec
          (call_of (claim_expired server now (audit_break codec e now) id (opened d built))).state

-- No trade has two audit entries, or an audit entry and a pending row, or two rows of one source.
pub record IsSound (d : Database) : Type 0 where
  pub once : IsOnce d.committed
  pub keyed : IsKeyed d.committed

module _ (server : Server) (keeps : KeepsTrades server) (codec : Codec) where
  submit-IsSound :
      (e : Engine) (d : Database) (event : TradeEvent) (payload : Bytes) (now : Time)
      → IsSound d
      → IsSound (submit codec (postgres_store server) e d event payload now).1
  unfolding submit
  submit-IsSound e d event payload now h = record {
    once =
        ingest-IsOnce server keeps (pending_of e event payload now) e.expected_source_list
          (audit_reconciled codec event now) (opened d none)
          (audit_reconciled-IsAbout codec event now) h.once;
    keyed =
        (ingest-IsKeyed server keeps.keys (opened d none)
          (record { committed = h.keyed; work = h.keyed }) (pending_of e event payload now)
          e.expected_source_list (audit_reconciled codec event now)).committed;
  }

  sweep-IsSound :
      (e : Engine) (d : Database) (now : Time)
      → IsSound d
      → IsSound (sweep codec (postgres_store server) e d now).1
  unfolding sweep
  sweep-IsSound e d now h = record {
    once =
        sweep_expired-IsOnce server keeps now (audit_break codec e now)
          (audit_break-IsAbout codec e now) (opened d []) h.once;
    keyed =
        (sweep_expired-IsKeyed server keeps.keys (opened d [])
          (record { committed = h.keyed; work = h.keyed }) now (audit_break codec e now)).committed;
  }

  claim_expired-IsSound :
      (e : Engine) (d : Database) (now : Time) (built : Dict BreakEvent) (id : String)
      → IsSound d
      → IsSound
          (call_of (claim_expired server now (audit_break codec e now) id (opened d built))).state
  claim_expired-IsSound e d now built id h = record {
    once =
        claim_expired-IsOnce server keeps now (audit_break codec e now)
          (audit_break-IsAbout codec e now) id (opened d built) h.once;
    keyed =
        (claim_expired-IsKeyed server keeps.keys (opened d built)
          (record { committed = h.keyed; work = h.keyed }) now (audit_break codec e now)
          id).committed;
  }

  empty-IsOnce : IsOnce (record { pending = []; audit = [] })
  unfolding is_finalized
  empty-IsOnce = record { once = tt; apart = λ id m. cc }

  -- In every state of the database that calls of `Ingest` and `Sweep` reach from an empty one, by any
  -- engines, with other sessions between the trades of a sweep or not, and whatever requests fail, no trade has two audit entries, or an audit entry and a
  -- pending row, or two rows of one source, if the server keeps the keys of rows and entries and
  -- permutes the rows that it orders.
  pub Reach-IsSound : {d : Database} → Reach server codec d → IsSound d
  Reach-IsSound start = record { once = empty-IsOnce; keyed = tt }
  Reach-IsSound (ingested {d} e event now r) =
      let h = Reach-IsSound r in
      ingest_cases codec (postgres_store server) e d event now (λ x. IsSound x.1) h h (λ m _. h)
        (λ payload _ _ _. submit-IsSound e d event payload now h)
  Reach-IsSound (swept {d} e now r) = sweep-IsSound e d now (Reach-IsSound r)
  Reach-IsSound (claimed {d} e now built id r) =
      claim_expired-IsSound e d now built id (Reach-IsSound r)
