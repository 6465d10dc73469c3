-- ===== src/Postgres/Refines/Sessions.antt =====
-- Sessions of postgres.go on one database, interleaved and with failing requests, against the ledger.
pub mod Durable
use event_correlator_tool.Common.{
  ℕ, String, true, none, List, [], ◌≡◌, sym, subst, inl, inr, contains, ◌∙◌, ap,
}
use event_correlator_tool.Common.Dict
use event_correlator_tool.Common.Dict.{Dict}
use event_correlator_tool.Clock.{Time, Duration}
use event_correlator_tool.Model.{Bytes, BreakEvent, TradeEvent}
use event_correlator_tool.Engine.{Codec, Engine, new_engine, audit_reconciled, audit_break}
use event_correlator_tool.Engine.Actions.{ingest, sweep, submit, pending_of}
use event_correlator_tool.Engine.Cases.{ingest_cases}
use event_correlator_tool.Lifecycle.Safety.{
  has-expected_sources, audit_reconciled-IsAbout, audit_break-IsAbout,
}
use event_correlator_tool.Ledger
use event_correlator_tool.Ledger.{Ledger, Report}
use event_correlator_tool.Contract.Histories.{Steps, stay, report, close_some}
use event_correlator_tool.Postgres.{Tables, Server}
use event_correlator_tool.Postgres.Client.{Database, postgres_store, opened, call_of}
use event_correlator_tool.Postgres.Ingest
use event_correlator_tool.Postgres.Sweep.{claim_expired}
use event_correlator_tool.Postgres.Once.Finishes.{Done-committed}
use event_correlator_tool.Postgres.Refines.{Stores, view_of, IsTidy}
use event_correlator_tool.Postgres.Refines.Faults.{IsEither, IsAtomic}
use event_correlator_tool.Postgres.Refines.Faults.Requests.{ingest-IsAtomic}
use event_correlator_tool.Postgres.Refines.Claims.{IsSweptSome, claim_expired-IsSweptSome}
use event_correlator_tool.Postgres.Refines.Claims.Sweeping.{sweep_expired-IsPartial}

abbrev pub connected : ℕ → Tables → Database
connected n t = record { requests = n; committed = t }

-- What any number of sessions make of committed tables. Each has its own connection, on which any
-- request may fail, locks may be missing, and commits that report an error may be done or not; and its
-- own window. A sweep is one call, or one transaction for each trade that it claims: then other sessions
-- run between them.
pub data Sessions (kept : Time → Time) (codec : Codec) (sources : List String) (t : Tables)
    : Tables → Type 0 where
  none_yet : Sessions kept codec sources t t
  ingested :
      {u : Tables} (server : Server)
      → Stores server kept
      → (window : Duration) (n : ℕ) (event : TradeEvent) (now : Time)
      → Sessions kept codec sources t u
      → Sessions kept codec sources t
          (ingest codec
            (postgres_store server)
            (new_engine sources window)
            (connected n u)
            event
            now).1.committed
  swept :
      {u : Tables} (server : Server)
      → Stores server kept
      → (window : Duration) (n : ℕ) (now : Time) → Sessions kept codec sources t u
      → Sessions kept codec sources t
          (sweep codec
            (postgres_store server)
            (new_engine sources window)
            (connected n u)
            now).1.committed
  claimed :
      {u : Tables} (server : Server)
      → Stores server kept
      → (window : Duration) (n : ℕ) (now : Time) (built : Dict BreakEvent) (id : String)
      → Sessions kept codec sources t u
      → Sessions kept codec sources t
          (claim_expired server now
            (audit_break codec (new_engine sources window) now)
            id
            (opened (connected n u) built)).1.committed

-- Tidy tables whose ledger is reached by steps from a ledger
pub record IsTraced (kept : Time → Time) (sources : List String) (l : Ledger) (t : Tables)
    : Type 0 where
  pub tidy : IsTidy kept sources t
  pub steps : Steps sources l (view_of t)

module _ (kept : Time → Time) (codec : Codec) (sources : List String) (l : Ledger) where
  abbrev Traced : Tables → Type 0
  Traced = IsTraced kept sources l

  Traced-some :
      (t u : Tables) (now : Time) → Traced t → IsSweptSome kept sources (view_of t) now u → Traced u
  Traced-some t u now h k = record {
    tidy = k.swept.tidy;
    steps = subst (Steps sources l) (sym k.swept.moved) (close_some (contains k.ids) now h.steps);
  }

  Traced-either :
      (t u : Tables) (r : Report)
      → contains sources r.source ≡ true
      → Traced t
      → IsEither kept sources (view_of t) (Ledger.ingest sources (view_of t) r).1 u
      → Traced u
  Traced-either t u r known h k = elim k.moved [
    | inl same ↦ record { tidy = k.tidy; steps = subst (Steps sources l) (sym same) h.steps }
    | inr moved ↦ record {
      tidy = k.tidy;
      steps = subst (Steps sources l) (sym moved) (report r known h.steps);
    }
  ]

  module _ (server : Server) (stores : Stores server kept) (window : Duration) (n : ℕ) (t : Tables)
      (h : Traced t) where
    abbrev e : Engine
    e = new_engine sources window

    submit-Traced :
        (event : TradeEvent) (payload : Bytes) (now : Time)
        → contains sources event.source ≡ true
        → Traced
            (submit codec (postgres_store server) e (connected n t) event payload now).1.committed
    unfolding submit new_engine
    submit-Traced event payload now known =
        Traced-either t _ _ known h
          (ingest-IsAtomic server kept stores sources (pending_of e event payload now) t h.tidy
            known (audit_reconciled codec event now) (audit_reconciled-IsAbout codec event now)
            (opened (connected n t) none) (λ i. t)).either

    ingest-Traced :
        (event : TradeEvent) (now : Time)
        → Traced (ingest codec (postgres_store server) e (connected n t) event now).1.committed
    ingest-Traced event now =
        ingest_cases codec (postgres_store server) e (connected n t) event now
          (λ x. Traced x.1.committed) h h (λ m _. h)
          (λ payload _ known _.
            submit-Traced event payload now
              (sym (has-expected_sources sources window event.source) ∙ known))

    sweep-Traced :
        (now : Time)
        → Traced (sweep codec (postgres_store server) e (connected n t) now).1.committed
    unfolding sweep
    sweep-Traced now =
        Traced-some t _ now h
          (sweep_expired-IsPartial server kept stores sources now (audit_break codec e now)
            (audit_break-IsAbout codec e now) (opened (connected n t) []) h.tidy).some_swept

    claim_expired-Traced :
        (now : Time) (built : Dict BreakEvent) (id : String)
        → Traced
            (claim_expired server now
              (audit_break codec e now)
              id
              (opened (connected n t) built)).1.committed
    claim_expired-Traced now built id = Traced-some t _ now h (
        claim_expired-IsSweptSome server kept stores sources now (audit_break codec e now)
          (audit_break-IsAbout codec e now) t h.tidy id (opened (connected n t) built) (λ i. t))

  Sessions-Traced : {t u : Tables} → Sessions kept codec sources t u → Traced t → Traced u
  Sessions-Traced none_yet h = h
  Sessions-Traced (ingested {u} server stores window n event now r) h =
      ingest-Traced server stores window n u (Sessions-Traced r h) event now
  Sessions-Traced (swept {u} server stores window n now r) h =
      sweep-Traced server stores window n u (Sessions-Traced r h) now
  Sessions-Traced (claimed {u} server stores window n now built id r) h =
      claim_expired-Traced server stores window n u (Sessions-Traced r h) now built id

-- Whatever sessions do to tidy tables of one set of expected sources, interleaved and whatever their
-- requests report, the tables stay tidy, and their ledger is reached from the ledger at the start by
-- reports from expected sources and sweeps of some of the trades, if each session's server keeps what
-- it stores.
pub Sessions-IsTraced :
    (kept : Time → Time) (codec : Codec) (sources : List String) {t u : Tables}
    → IsTidy kept sources t
    → Sessions kept codec sources t u
    → IsTraced kept sources (view_of t) u
Sessions-IsTraced kept codec sources {t} tidy r =
    Sessions-Traced kept codec sources (view_of t) r (record { tidy = tidy; steps = stay })
