-- ===== src/Tests/Service.antt =====
-- The theorems on the engine over a store that keeps the contract, at concrete data.
use event_correlator_tool.Common.{
  [], ◌∷◌, ◌≡◌, ◌≢◌, refl, sym, ◌∙◌, contains, string_discrete, arith, true,
}
use event_correlator_tool.Common.Int.{pos, leb_ℤ, ◌+ℤ◌}
use event_correlator_tool.Common.Dict
use event_correlator_tool.Clock.{add}
use event_correlator_tool.Memory.{new, is_finalized, pending_events, is_due}
use event_correlator_tool.Memory.Sweep.{memory_store}
use event_correlator_tool.Memory.Invariant.{IsValid, new-IsValid}
use event_correlator_tool.Memory.Refines.Sweep.{memory_contract}
use event_correlator_tool.Memory.Refines.{exact}
use event_correlator_tool.Engine.{new_engine}
use event_correlator_tool.Engine.Actions.{ingest, sweep}
use event_correlator_tool.Ledger
use event_correlator_tool.Ledger.{duplicate, pending, reconciled, close}
use event_correlator_tool.Ledger.Delivery.{Completes}
use event_correlator_tool.Postgres.Client.{postgres_store}
use event_correlator_tool.Postgres.Refines.Sweep.{postgres_contract}
use event_correlator_tool.Service.{IsAccepted, step_of, Answers, ingest-Answers}
use event_correlator_tool.Service.Sweeping.{Sweeps, sweep-Sweeps}
use event_correlator_tool.Service.Delivery.{
  submitted, swept, Delivery, perform, perform_all, deliver_all, deliver_all-Completes, Closes,
  accepted-Closes,
}
use event_correlator_tool.Service.Agreement.{respond_all, respond_all-agree}
use event_correlator_tool.Tests.{sources, window, codec, solar, murex}
use event_correlator_tool.Tests.Lifecycle.{engine, once}
use event_correlator_tool.Tests.Database.{quiet}
use event_correlator_tool.Tests.Stores.{once-IsValid, quiet-Suits}

pub solar-IsAccepted : IsAccepted codec sources solar (7 ∷ [])
unfolding contains string_discrete
solar-IsAccepted = record { named = λ e. cc; known = refl; encoded = refl }

murex-IsAccepted : IsAccepted codec sources murex (8 ∷ [])
unfolding contains string_discrete
murex-IsAccepted = record { named = λ e. cc; known = refl; encoded = refl }

service_ingests :
    Answers codec memory_store sources window
      (memory_contract sources)
      once
      (step_of codec memory_store sources window
        (memory_contract sources)
        once
        murex
        (8 ∷ [])
        (pos 5))
      murex
      (pos 5)
      (ingest codec memory_store engine once murex (pos 5))
service_ingests =
    ingest-Answers codec memory_store sources window (memory_contract sources) once murex (8 ∷ [])
      (pos 5) murex-IsAccepted once-IsValid

service_swept :
    Sweeps codec memory_store sources window
      (memory_contract sources)
      once
      (pos 20)
      (sweep codec memory_store engine once (pos 20))
service_swept =
    sweep-Sweeps codec memory_store sources window (memory_contract sources) once (pos 20)
      once-IsValid

abbrev first_delivery : Delivery
first_delivery = record { event = murex; payload = 8 ∷ []; now = pos 3 }

abbrev second_delivery : Delivery
second_delivery = record { event = solar; payload = 7 ∷ []; now = pos 5 }

both-Completes : Completes sources Ledger.empty "t1" (
    record { trade_id = "t1"; source = "murex"; deadline = add (pos 3) window }
    ∷ record { trade_id = "t1"; source = "solar"; deadline = add (pos 5) window }
    ∷ [])
unfolding contains string_discrete
both-Completes = record {
  open_trade = refl;
  named = (refl, (refl, tt));
  distinct = (refl, (refl, tt));
  fresh = λ a m. refl;
  exact = λ a. ground arith;
}

service_reconciles :
    ((deliver_all codec memory_store sources window new (first_delivery ∷ second_delivery ∷ [])).0
      ≡ "pending" ∷ "reconciled" ∷ [])
    × IsValid sources
        (deliver_all codec memory_store sources window new
          (first_delivery ∷ second_delivery ∷ [])).1
    × ((memory_contract sources).view
          (deliver_all codec memory_store sources window new
            (first_delivery ∷ second_delivery ∷ [])).1
        ≡ close ((memory_contract sources).view new) "t1")
unfolding new new_engine pending_events Dict.get contains is_due is_finalized
service_reconciles =
    deliver_all-Completes codec memory_store sources window (memory_contract sources) new "t1"
      first_delivery (second_delivery ∷ []) (new-IsValid sources)
      (murex-IsAccepted, (solar-IsAccepted, tt)) both-Completes

is_pending :
    (step_of codec memory_store sources window
      (memory_contract sources)
      new
      murex
      (8 ∷ [])
      (pos 3)).0
    ≡ pending
unfolding Ledger.ingest new pending_events Dict.get contains is_finalized string_discrete
is_pending = refl

is_new_event :
    (step_of codec memory_store sources window
      (memory_contract sources)
      new
      murex
      (8 ∷ [])
      (pos 3)).0
    ≢ duplicate
is_new_event e = let h : pending ≡ duplicate = sym is_pending ∙ e in cc

is_late : leb_ℤ (add (pos 3) window) (pos 13) ≡ true
unfolding add ◌+ℤ◌
is_late = refl

service_ended : Closes codec memory_store sources window (memory_contract sources) "t1" (
    sweep codec memory_store engine
      (perform_all codec memory_store sources window
        (perform codec memory_store sources window new (submitted murex (pos 3)))
        (swept (pos 9) ∷ submitted murex (pos 10) ∷ []))
      (pos 13))
service_ended =
    accepted-Closes codec memory_store sources window (memory_contract sources) new first_delivery
      (swept (pos 9) ∷ submitted murex (pos 10) ∷ []) (pos 13) (new-IsValid sources)
      murex-IsAccepted is_new_event is_late

stores_agree :
    respond_all codec sources window memory_store new
      (submitted solar (pos 3) ∷ submitted murex (pos 5) ∷ swept (pos 20) ∷ [])
    ≡ respond_all codec sources window
        (postgres_store quiet)
        (postgres_contract quiet exact quiet-Suits sources).start
        (submitted solar (pos 3) ∷ submitted murex (pos 5) ∷ swept (pos 20) ∷ [])
stores_agree =
    respond_all-agree codec sources window memory_store (postgres_store quiet)
      (memory_contract sources) (postgres_contract quiet exact quiet-Suits sources) (λ t. refl) new
      (postgres_contract quiet exact quiet-Suits sources).start
      (submitted solar (pos 3) ∷ submitted murex (pos 5) ∷ swept (pos 20) ∷ [])
      (new-IsValid sources) (postgres_contract quiet exact quiet-Suits sources).started
      ((memory_contract sources).blank
        ∙ sym (postgres_contract quiet exact quiet-Suits sources).blank)
