-- ===== src/Tests/Stores.antt =====
-- The theorems that relate the two stores to the ledger, at concrete data.
use event_correlator_tool.Common.{
  ℕ, String, Option, [], ◌≡◌, refl, contains, string_discrete, true, arith,
}
use event_correlator_tool.Common.Int.{pos}
use event_correlator_tool.Memory.Invariant.{IsValid}
use event_correlator_tool.Memory.Refines.{view, exact, exact-IsRounding, ingest-Ingested}
use event_correlator_tool.Memory.Refines.Sweep.{sweep_expired-Swept}
use event_correlator_tool.Memory
use event_correlator_tool.Memory.Sweep.{sweep_expired}
use event_correlator_tool.Engine.Actions.{ingest, sweep}
use event_correlator_tool.Ledger
use event_correlator_tool.Ledger.Rows.{report_of}
use event_correlator_tool.Contract.{Serves, Ingested, Swept}
use event_correlator_tool.Lifecycle.Safety.{Reach-IsValid}
use event_correlator_tool.Postgres.Client.{Database, postgres_store, opened, call_of}
use event_correlator_tool.Postgres.Ingest.{conflicts}
use event_correlator_tool.Postgres.Ingest.{ingest as database_ingest}
use event_correlator_tool.Postgres.Sweep.{sweep_expired as database_sweep}
use event_correlator_tool.Postgres.Refines.{Stores, Suits}
use event_correlator_tool.Postgres.Refines.Answers.{IsOk, ingest-takes_step}
use event_correlator_tool.Postgres.Refines.Answers
use event_correlator_tool.Postgres.Refines.Faults.{IsAtomic}
use event_correlator_tool.Postgres.Refines.Faults.Requests.{ingest-IsAtomic}
use event_correlator_tool.Postgres.Refines.Sweep.{sweep-Swept}
use event_correlator_tool.Postgres.Once.Statements.{KeepsTrades}
use event_correlator_tool.Postgres.Once.Histories.{Reach, IsSound, start, ingested, Reach-IsSound}
use event_correlator_tool.Postgres.Once.Histories
use event_correlator_tool.Tests.{sources, window, codec, solar, murex, row_of, build_entry}
use event_correlator_tool.Tests.Lifecycle.{engine, once, once-Reach}
use event_correlator_tool.Tests.Database.{server_with, quiet, quiet-IsQuiet, failing, holding}
use mathlib.Core.List.Permᴰ

pub build_entry-Serves : (id : String) → Serves sources id (build_entry id)
build_entry-Serves id = record {
  about = λ c events b h. ground arith;
  returns = λ c events nonempty part h. cc;
}

pub once-IsValid : IsValid sources once
once-IsValid = Reach-IsValid sources window codec once-Reach

murex_known : contains sources "murex" ≡ true
unfolding contains string_discrete
murex_known = refl

memory_ingests :
    Ingested
      (IsValid sources)
      view
      sources
      (Ledger.ingest sources (view once) (report_of exact (row_of "t1" "murex" (pos 12))))
      "t1"
      (build_entry "t1")
      tt
      (Memory.ingest once (row_of "t1" "murex" (pos 12)) sources (build_entry "t1") tt)
memory_ingests =
    ingest-Ingested once (row_of "t1" "murex" (pos 12)) sources (build_entry "t1") tt once-IsValid
      murex_known (build_entry-Serves "t1")

memory_sweeps :
    Swept
      (IsValid sources)
      view
      sources
      (view once)
      (pos 20)
      build_entry
      tt
      (sweep_expired once (pos 20) build_entry tt)
memory_sweeps =
    sweep_expired-Swept sources (pos 20) build_entry build_entry-Serves once tt once-IsValid

pub stores : (fault : ℕ → Option String) → Stores (server_with fault) exact
stores fault = record {
  rows_permuted = Permᴰ.refl;
  ids_permuted = Permᴰ.refl;
  keys = λ row. (refl, refl);
  rounds = exact-IsRounding;
  deadlines = λ row. refl;
  logs = λ n entry. refl;
}

pub quiet-Suits : Suits quiet exact
quiet-Suits = record {
  stores = stores _;
  quiet = quiet-IsQuiet;
  grants = λ n. refl;
  decodes = λ l. refl;
  entries_permuted = Permᴰ.refl;
}

abbrev pub database : Database
database = record { requests = 3; committed = holding }

pub database-IsOk : IsOk quiet exact quiet-Suits sources database
unfolding conflicts contains string_discrete
database-IsOk = record { keyed = (refl, tt); known = (refl, tt); rounded = (refl, tt) }

database_ingests :
    Ingested
      (IsOk quiet exact quiet-Suits sources)
      Answers.view
      sources
      (Ledger.ingest sources
        (Answers.view database)
        (report_of exact (row_of "t1" "murex" (pos 12))))
      "t1"
      (build_entry "t1")
      tt
      (call_of (
        database_ingest quiet
          (row_of "t1" "murex" (pos 12))
          sources
          (build_entry "t1")
          (opened database tt)))
database_ingests =
    ingest-takes_step quiet exact quiet-Suits sources (row_of "t1" "murex" (pos 12))
      (build_entry "t1") tt database database-IsOk murex_known (build_entry-Serves "t1")

database_sweeps :
    Swept
      (IsOk quiet exact quiet-Suits sources)
      Answers.view
      sources
      (Answers.view database)
      (pos 20)
      build_entry
      tt
      (call_of (database_sweep quiet (pos 20) build_entry (opened database tt)))
database_sweeps =
    sweep-Swept quiet exact quiet-Suits sources (pos 20) build_entry build_entry-Serves database tt
      database-IsOk

keeps : (fault : ℕ → Option String) → KeepsTrades (server_with fault)
keeps fault = record { keys = λ row. (refl, refl); logs = λ n entry. refl; permutes = Permᴰ.refl }

-- The connection is lost in the second call.
abbrev after_loss : Database
after_loss =
    (sweep codec (postgres_store (failing 14)) engine
      (ingest codec (postgres_store (failing 14)) engine
        (ingest codec (postgres_store (failing 14)) engine
          (record { requests = 0; committed = record { pending = []; audit = [] } }) solar
          (pos 3)).1
        murex (pos 5)).1
      (pos 20)).1

interrupted : Reach (failing 14) codec after_loss
interrupted =
    Histories.swept engine (pos 20)
      (ingested engine murex (pos 5) (ingested engine solar (pos 3) start))

audited_once : IsSound after_loss
audited_once = Reach-IsSound (failing 14) (keeps _) codec interrupted

-- The connection is lost at the last request.
all_or_nothing :
    IsAtomic exact sources
      (Answers.view database)
      (Ledger.ingest sources
        (Answers.view database)
        (report_of exact (row_of "t1" "murex" (pos 12))))
      (database_ingest
        (failing 17)
        (row_of "t1" "murex" (pos 12))
        sources
        (build_entry "t1")
        (opened database tt))
all_or_nothing =
    ingest-IsAtomic (failing 17) exact (stores _) sources (row_of "t1" "murex" (pos 12)) holding
      database-IsOk murex_known (build_entry "t1") (build_entry-Serves "t1").about
      (opened database tt) refl
