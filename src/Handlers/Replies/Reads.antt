-- ===== src/Handlers/Replies/Reads.antt =====
-- What `sweepExpiredTrades` and `getAuditHistory` of main.go reply, over any store that keeps the contract.
use event_correlator_tool.Common.{
  String, List, ◌≡◌, refl, sym, ap, subst, inl, inr, Result, Result-cases, ok, err, string_discrete,
}
use event_correlator_tool.Clock.{Time, Duration}
use event_correlator_tool.Store.{AuditFilter, Store}
use event_correlator_tool.Engine.{Codec, new_engine}
use event_correlator_tool.Engine.Actions.{audit_history}
use event_correlator_tool.Config.{open_engine}
use event_correlator_tool.Config.Opened.{IsFor, open_engine-cases}
use event_correlator_tool.Sdk.Context.{ToolContext}
use event_correlator_tool.Contract.{Audits, Contract}
use event_correlator_tool.Contract.Histories.{Steps, Steps-sweep}
use event_correlator_tool.Service.Sweeping.{sweep-Sweeps}
use event_correlator_tool.Handlers.{
  IngestTradeEventParams, GetAuditHistoryParams, Datum, text, Outside, Reply, fail_with, event_of,
  ingest_reply, sweep_reply, audit_reply, filter_of, filter_message, ingest_trade_event,
  sweep_expired_trades, get_audit_history,
}
use event_correlator_tool.Handlers
use event_correlator_tool.Handlers.Queries.{filter_of-range}
use event_correlator_tool.Handlers.Replies.{
  Serves, HandlesSweep, HandlesAudit, Finds, unopened, swept, other_outcome, other_limit, asked,
  filter_of-ne-panic,
}
use event_correlator_tool.Handlers.Expected.{
  Asks, Fails, IsChecked, bad_outcome, bad_limit, allowed, asked_for, asked_for-Asks,
  filter_of-IsChecked,
}
use event_correlator_tool.Sdk.Outcome.{succeed, fail, with_data, with_error_code}

module _ (codec : Codec) (store : Store) (sources : List String) (k : Contract store sources)
    (outside : Outside) (s : store.State) (good : k.IsOk s) where
  open outside use {parse_time, int_of_float, connect, migrate}

  module _ (tc : ToolContext) (configured : IsFor sources tc) where
    -- Over any store that keeps the contract, in a state of its, and with a configuration for its
    -- sources, `sweepExpiredTrades` returns a result, and neither panics nor returns a Go error; the
    -- ledger takes steps or none.
    pub sweep_expired_trades-Serves :
        (now : Time) → Serves store sources k s (sweep_expired_trades codec store outside tc now s)
    unfolding sweep_expired_trades Handlers.configured
    sweep_expired_trades-Serves now =
        elim (open_engine-cases int_of_float connect migrate sources tc configured) [
          | inl (m, f) ↦
              rw (f, sweep_expired_trades)
                (record { result = _; returned = refl; kept = good; steps = λ x. x })
          | inr (window, f) ↦
              let done = sweep-Sweeps codec store sources window k s now good in
              rw (f, sweep_expired_trades)
                (record {
                  result = _;
                  returned = ap sweep_reply done.returned;
                  kept = done.kept;
                  steps = λ x. subst (Steps sources _) (sym done.moved) (Steps-sweep now x);
                })
        ]

    audited :
        (f : AuditFilter) (p : GetAuditHistoryParams)
        → filter_of p ≡ ok f
        → Audits (k.view s) f (store.get_audit s f)
    audited f p e = let (_, low, high) = filter_of-range p f e in k.audits s f good low high

    -- The same for `getAuditHistory`, which changes nothing
    pub get_audit_history-Serves :
        (p : GetAuditHistoryParams)
        → Serves store sources k s (get_audit_history codec store outside p tc s)
    unfolding get_audit_history Handlers.configured audit_history
    get_audit_history-Serves p =
        elim (open_engine-cases int_of_float connect migrate sources tc configured) [
          | inl (m, f) ↦
              rw (f, get_audit_history)
                (record { result = _; returned = refl; kept = good; steps = λ x. x })
          | inr (window, f) ↦ elim (Result-cases (filter_of p)) [
            | inl e ↦ absurd (filter_of-ne-panic p e)
            | inr (inl (code, e)) ↦
                rw (f, e, get_audit_history)
                  (record { result = _; returned = refl; kept = good; steps = λ x. x })
            | inr (inr (filter, e)) ↦
                rw (f, e, get_audit_history)
                  (record {
                    result = _;
                    returned = ap audit_reply (audited filter p e).returned;
                    kept = good;
                    steps = λ x. x;
                  })
          ]
        ]

    -- Over any store that keeps the contract, in a state of its, and with a configuration for its
    -- sources: where the configuration does not open, `sweepExpiredTrades` replies with its error and
    -- the store stays as it was; otherwise it replies with the number of trades that are due and with
    -- one break for each, in ascending order of the trades, and the store takes the ledger's step.
    pub sweep_expired_trades-Reports :
        (now : Time)
        → HandlesSweep store sources k s outside tc codec now
            (sweep_expired_trades codec store outside tc now s)
    unfolding sweep_expired_trades Handlers.configured succeed with_data fail with_error_code
    sweep_expired_trades-Reports now =
        elim (open_engine-cases int_of_float connect migrate sources tc configured) [
          | inl (m, f) ↦ rw (f, sweep_expired_trades) (unopened m f refl refl)
          | inr (window, f) ↦
              let done = sweep-Sweeps codec store sources window k s now good in
              rw (f, sweep_expired_trades)
                (swept window done.breaks f done.said (ap sweep_reply done.returned) done.kept
                  done.moved)
        ]

    pub get_audit_history-Finds :
        (window : Duration) (q : GetAuditHistoryParams) (f : AuditFilter)
        → open_engine int_of_float connect migrate tc ≡ ok (new_engine sources window)
        → filter_of q ≡ ok f
        → Finds store sources k s outside tc f (get_audit_history codec store outside q tc s)
    unfolding get_audit_history Handlers.configured audit_history succeed with_data
    get_audit_history-Finds window q f opened e =
        let found = audited f q e in
        rw (opened, e, get_audit_history)
          (record { asked = found; replied = ap audit_reply found.returned })

    failed_check :
        (window : Duration) (q : GetAuditHistoryParams) (code : String)
        → open_engine int_of_float connect migrate tc ≡ ok (new_engine sources window)
        → filter_of q ≡ err code
        → Fails (filter_message code) code (get_audit_history codec store outside q tc s).result
    unfolding get_audit_history Handlers.configured fail with_error_code
    failed_check window q code opened e = rw (opened, e, get_audit_history) refl

    checked_query :
        (window : Duration) (q : GetAuditHistoryParams) (f : AuditFilter) (r : Result AuditFilter)
        → Asks q f
        → IsChecked f r
        → open_engine int_of_float connect migrate tc ≡ ok (new_engine sources window)
        → filter_of q ≡ r
        → HandlesAudit store sources k s outside tc q (get_audit_history codec store outside q tc s)
    unfolding string_discrete
    checked_query window q f r asks (bad_outcome wrong) opened e =
        other_outcome f asks wrong (failed_check window q "INVALID_OUTCOME" opened e)
    checked_query window q f r asks (bad_limit o wrong) opened e =
        other_limit f asks o wrong (failed_check window q "INVALID_LIMIT" opened e)
    checked_query window q f r asks (allowed o n) opened e =
        asked f asks o n (get_audit_history-Finds window q f opened e)

    -- Over any store that keeps the contract, in a state of its, and with a configuration for its
    -- sources: `getAuditHistory` replies with the error of a configuration that does not open, and with
    -- the error and code of an outcome that is none of the two, or of a limit that is not from 1 to 500;
    -- otherwise with entries of closed trades that pass the filter of the arguments (the trimmed trade
    -- id and outcome, any where they are missing or empty, and the limit, 100 where it is missing), and with
    -- their number, which is at most the limit; and with some where the filter asks for a closed trade
    -- and any outcome.
    pub get_audit_history-Reports :
        (q : GetAuditHistoryParams)
        → HandlesAudit store sources k s outside tc q (get_audit_history codec store outside q tc s)
    unfolding get_audit_history Handlers.configured fail with_error_code
    get_audit_history-Reports q =
        elim (open_engine-cases int_of_float connect migrate sources tc configured) [
          | inl (m, f) ↦ unopened m f (rw (f, get_audit_history) refl)
          | inr (window, f) ↦
              checked_query window q (asked_for q) (filter_of q) (asked_for-Asks q)
                (filter_of-IsChecked q) f refl
        ]
