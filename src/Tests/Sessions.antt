-- ===== src/Tests/Sessions.antt =====
-- The theorems on interleaved sessions with failing requests, at concrete data.
use event_correlator_tool.Common.{[], ◌∷◌, ◌≡◌, refl, ok, string_discrete}
use event_correlator_tool.Common.Int.{pos, ◌+ℤ◌}
use event_correlator_tool.Common.Dict
use event_correlator_tool.Clock.{add}
use event_correlator_tool.Engine.{new_engine, audit_break}
use event_correlator_tool.Engine.Actions.{ingest, sweep, status}
use event_correlator_tool.Engine.Actions
use event_correlator_tool.Memory
use event_correlator_tool.Memory.{is_finalized, lower_deadline, seen_sources, all_seen}
use event_correlator_tool.Postgres.Session.{
  ◌>>=◌, begin, query, scan, execute, commit, deferred_rollback,
}
use event_correlator_tool.Postgres.Queries.{get_events}
use event_correlator_tool.Postgres.Ingest.{
  ingest as database_ingest, ingest_open, inserted, insert_pending, conflicts,
}
use event_correlator_tool.Memory.Refines.{exact}
use event_correlator_tool.Postgres.{Tables}
use event_correlator_tool.Postgres.Client.{postgres_store, opened}
use event_correlator_tool.Postgres.Sweep.{sweep_expired, claim_expired}
use event_correlator_tool.Postgres.Refines.{view_of, IsTidy}
use event_correlator_tool.Postgres.Refines.Sweep.{postgres_contract, no_rows}
use event_correlator_tool.Postgres.Refines.Claims.Sweeping.{IsPartial, sweep_expired-IsPartial}
use event_correlator_tool.Postgres.Refines.Sessions.{
  Sessions, none_yet, ingested, claimed, connected, IsTraced, Sessions-IsTraced,
}
use event_correlator_tool.Postgres.Refines.Sessions.Durable.{acknowledged-Closes}
use event_correlator_tool.Service.Delivery.{Closes}
use event_correlator_tool.Tests.{sources, window, codec, solar, murex, build_entry}
use event_correlator_tool.Tests.Database.{failing, quiet}
use event_correlator_tool.Tests.Stores.{
  stores, quiet-Suits, database, database-IsOk, build_entry-Serves,
}
use event_correlator_tool.Tests.Service.{solar-IsAccepted}

-- The connection is lost at the commit of the claim.
partly_swept :
    IsPartial exact sources
      (view_of database.committed)
      (pos 20)
      (sweep_expired (failing 14) (pos 20) build_entry (opened database tt))
partly_swept =
    sweep_expired-IsPartial (failing 14) exact (stores _) sources (pos 20) build_entry
      (λ id. (build_entry-Serves id).about) (opened database tt) database-IsOk

abbrev pub first_report : Tables
first_report =
    (ingest codec (postgres_store (failing 30)) (new_engine sources window) (connected 0 no_rows)
      solar (pos 3)).1.committed

no_rows-IsTidy : IsTidy exact sources no_rows
no_rows-IsTidy = record { keyed = tt; known = tt; rounded = tt }

-- A session reports, a second one loses its connection, a third one claims the trade.
abbrev second_report : Tables
second_report =
    (ingest codec (postgres_store (failing 5)) (new_engine sources (pos 4))
      (connected 0 first_report) murex (pos 4)).1.committed

abbrev pub after_claim : Tables
after_claim =
    (claim_expired quiet (pos 20) (audit_break codec (new_engine sources (pos 4)) (pos 20)) "t1"
      (opened (connected 0 second_report) [])).1.committed

pub interleaved : Sessions exact codec sources first_report after_claim
interleaved =
    claimed quiet (stores _) (pos 4) 0 (pos 20) [] "t1"
      (ingested (failing 5) (stores _) (pos 4) 0 murex (pos 4) none_yet)

pub first_report-IsTidy : IsTidy exact sources first_report
first_report-IsTidy =
    (Sessions-IsTraced exact codec sources no_rows-IsTidy
      (ingested (failing 30) (stores _) window 0 solar (pos 3) none_yet)).tidy

traced : IsTraced exact sources (view_of first_report) after_claim
traced = Sessions-IsTraced exact codec sources first_report-IsTidy interleaved

returned :
    (ingest codec
      (postgres_store (failing 30))
      (new_engine sources window)
      (connected 0 no_rows)
      solar
      (pos 3)).0
    ≡ ok (status "pending")
unfolding ingest Actions.submit new_engine database_ingest ingest_open inserted insert_pending
    conflicts get_events ◌>>=◌ begin query scan execute commit deferred_rollback is_finalized
    lower_deadline seen_sources all_seen Dict.has Dict.set Dict.set_of add ◌+ℤ◌ string_discrete
    Memory.has_every_source
returned = refl

durable :
    Closes codec
      (postgres_store quiet)
      sources
      (pos 7)
      (postgres_contract quiet exact quiet-Suits sources)
      "t1"
      (sweep codec
        (postgres_store quiet)
        (new_engine sources (pos 7))
        (connected 4 after_claim)
        (pos 13))
unfolding add ◌+ℤ◌
durable =
    acknowledged-Closes (failing 30) exact (stores _) codec sources window 0 no_rows no_rows-IsTidy
      solar (7 ∷ []) (pos 3) solar-IsAccepted (status "pending") (pos 13) returned (λ e. cc) refl
      interleaved quiet quiet-Suits (pos 7) 4
