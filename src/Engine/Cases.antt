-- ===== src/Engine/Cases.antt =====
-- The ways through `Ingest` of engine.go, over any store.
use event_correlator_tool.Common.{
  String, ◌<>◌, true, false, ◌≡◌, ◌≢◌, ◌⊎◌, inl, inr, refl, arith, ◌==◌, Bool-cases, Result, ok,
  err,
}
use event_correlator_tool.Common.Dict
use event_correlator_tool.Clock.{Time}
use event_correlator_tool.Model.{Bytes, TradeEvent}
use event_correlator_tool.Store.{Store}
use event_correlator_tool.Engine.{Codec, Engine, IngestOutcome}
use event_correlator_tool.Engine.Actions.{status, submit, ingest}

pub sum-cases : (r : String ⊎ Bytes) → ((m : String) × (r ≡ inl m)) ⊎ ((b : Bytes) × (r ≡ inr b))
sum-cases (inl m) = inl (m, refl)
sum-cases (inr b) = inr (b, refl)

module _ (codec : Codec) (store : Store) (e : Engine) (s : store.State) (event : TradeEvent)
    (now : Time) where
  -- To show `P` of a call, show it of each branch, under the branch's conditions.
  pub ingest_branches {κ} :
      (P : Result IngestOutcome × store.State → Type κ)
      → (event.trade_id ≡ "" → P (err "trade_id is required", s))
      → (event.trade_id ≢ ""
          → Dict.has e.expected_sources event.source ≡ false
          → P (ok (status "ignored_unknown_source"), s))
      → ((m : String)
          → event.trade_id ≢ ""
          → Dict.has e.expected_sources event.source ≡ true
          → codec.marshal_event event ≡ inl m
          → P (err ("marshal event: " <> m), s))
      → ((payload : Bytes)
          → event.trade_id ≢ ""
          → Dict.has e.expected_sources event.source ≡ true
          → codec.marshal_event event ≡ inr payload
          → P (submit codec store e s event payload now))
      → P (ingest codec store e s event now)
  unfolding ingest
  ingest_branches P no_id unknown bad good = elim (Bool-cases (event.trade_id == "")) [
    | inl a ↦ rw (a, ingest) (no_id (ground arith))
    | inr a ↦
        let named : event.trade_id ≢ "" = λ q. ground arith in
        elim (Bool-cases (Dict.has e.expected_sources event.source)) [
          | inr b ↦ rw (a, b, ingest) (unknown named b)
          | inl b ↦ elim (sum-cases (codec.marshal_event event)) [
            | inl (m, c) ↦ rw (a, b, c, ingest) (bad m named b c)
            | inr (payload, c) ↦ rw (a, b, c, ingest) (good payload named b c)
          ]
        ]
  ]

  -- To show `P` of a call, show it of the three early returns and of the call of the store.
  pub ingest_cases {κ} :
      (P : Result IngestOutcome × store.State → Type κ)
      → P (err "trade_id is required", s)
      → P (ok (status "ignored_unknown_source"), s)
      → ((m : String) → codec.marshal_event event ≡ inl m → P (err ("marshal event: " <> m), s))
      → ((payload : Bytes)
          → event.trade_id ≢ ""
          → Dict.has e.expected_sources event.source ≡ true
          → codec.marshal_event event ≡ inr payload
          → P (submit codec store e s event payload now))
      → P (ingest codec store e s event now)
  ingest_cases P no_id unknown bad good =
      ingest_branches P (λ _. no_id) (λ _ _. unknown) (λ m _ _ c. bad m c) good
