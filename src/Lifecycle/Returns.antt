-- ===== src/Lifecycle/Returns.antt =====
-- `Ingest` of engine.go in the states that a history reaches, and the panic of `buildReconciled`.
use event_correlator_tool.Common.{
  String, List, ◌≡◌, ◌≢◌, ◌∙◌, ap, inl, inr, Bool-cases, Result, ok, panic,
}
use event_correlator_tool.Clock.{Time, Duration}
use event_correlator_tool.Model.{Bytes, TradeEvent}
use event_correlator_tool.Memory.{Memory, has_every_source, is_duplicate, appended}
use event_correlator_tool.Memory.Invariant.{IsValid}
use event_correlator_tool.Memory.Sweep.{memory_store}
use event_correlator_tool.Engine.{Codec, new_engine}
use event_correlator_tool.Engine.Actions.{ingest}
use event_correlator_tool.Engine.Cases.{ingest_cases}
use event_correlator_tool.Lifecycle.{Reach}
use event_correlator_tool.Lifecycle.Safety.{has-expected_sources, Reach-IsValid}
use event_correlator_tool.Lifecycle.Outcomes.{
  row, IsSubmitted, ingest-submit, ingest-answers_duplicate, ingest-answers_pending,
  ingest-answers_reconciled,
}

ok-ne-panic {ℓ} : {A : Type ℓ} {r : Result A} (a : A) → r ≡ ok a → r ≢ panic
ok-ne-panic a e p = cc

module _ (sources : List String) (window : Duration) (codec : Codec) (s : Memory)
    (event : TradeEvent) (now : Time) where
  submitted-ne-panic :
      (payload : Bytes)
      → IsValid sources s
      → IsSubmitted sources window codec s event now payload
      → (ingest codec memory_store (new_engine sources window) s event now).0 ≢ panic
  submitted-ne-panic payload v h =
      let r = row sources window codec s event now payload in
      elim (Bool-cases (is_duplicate s r)) [
        | inl dup ↦ ok-ne-panic _ (
            ap (λ x. x.0) (ingest-answers_duplicate sources window codec s event now payload h dup))
        | inr new ↦ elim (Bool-cases (has_every_source (appended s r) sources)) [
          | inl complete ↦
              let (_, _, e, _) =
                ingest-answers_reconciled sources window codec s event now payload v h new
                  complete in
              ok-ne-panic _ (ap (λ x. x.0) e)
          | inr incomplete ↦
              let (_, e, _, _) =
                ingest-answers_pending sources window codec s event now payload h new incomplete in
              ok-ne-panic _ (ap (λ x. x.0) e)
        ]
      ]

  -- In every state that a history of the same engine reaches, `Ingest` of any event returns: it does
  -- not panic.
  pub ingest_returns :
      Reach codec (new_engine sources window) s
      → (ingest codec memory_store (new_engine sources window) s event now).0 ≢ panic
  ingest_returns reach =
      ingest_cases codec memory_store (new_engine sources window) s event now (λ r. r.0 ≢ panic)
        (λ e. cc) (λ e. cc) (λ m _ e. cc)
        (λ payload named known encoded e.
          let h : IsSubmitted sources window codec s event now payload = record {
            named = named;
            known = rw has-expected_sources at known;
            encoded = encoded;
          } in
          submitted-ne-panic payload (Reach-IsValid sources window codec reach) h
            (ap (λ x. x.0) (ingest-submit sources window codec s event now payload h) ∙ e))
