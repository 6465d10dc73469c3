-- ===== src/Handlers/Replies/Ingest.antt =====
-- What `ingestTradeEvent` of main.go replies, over any store that keeps the contract.
use event_correlator_tool.Common.{
  String, ◌<>◌, true, List, [], ◌∷◌, ◌≡◌, ◌≢◌, refl, sym, ◌∙◌, ap, subst, inl, inr, Result, ok,
  Option-cases,
}
use event_correlator_tool.Common.Dict
use event_correlator_tool.Clock.{Time, Duration}
use event_correlator_tool.Model.{Bytes}
use event_correlator_tool.Store.{Store}
use event_correlator_tool.Engine.{Codec, IngestOutcome, new_engine}
use event_correlator_tool.Engine.Actions.{status, ingest}
use event_correlator_tool.Engine.Cases.{ingest_cases}
use event_correlator_tool.Lifecycle.Safety.{has-expected_sources}
use event_correlator_tool.Config.Opened.{IsFor, open_engine-cases}
use event_correlator_tool.Sdk.Context.{ToolContext}
use event_correlator_tool.Ledger.{Ledger}
use event_correlator_tool.Contract.{Contract}
use event_correlator_tool.Contract.Histories.{Steps, report}
use event_correlator_tool.Service.{IsAccepted, ingest-submit, ingest-Answers}
use event_correlator_tool.Handlers.{
  IngestTradeEventParams, GetAuditHistoryParams, Datum, text, Outside, Reply, fail_with, event_of,
  ingest_reply, sweep_reply, audit_reply, filter_of, filter_message, ingest_trade_event,
  sweep_expired_trades, get_audit_history,
}
use event_correlator_tool.Handlers
use event_correlator_tool.Handlers.Replies.{
  failed-Tells, ingest-Tells, status_of-reconciled, reconciled-closes, ServesIngest,
}

module _ (codec : Codec) (store : Store) (sources : List String) (k : Contract store sources)
    (outside : Outside) (s : store.State) (good : k.IsOk s) where
  open outside use {parse_time, int_of_float, connect, migrate}

  module _ (p : IngestTradeEventParams) (now : Time) where
    turned_down :
        (message code : String) (statuses : List String)
        → ServesIngest store sources k s p.trade_id
            (record { result = ok (fail_with message code); statuses = statuses; state = s })
    turned_down message code statuses = record {
      serves = record {
        result = fail_with message code;
        returned = refl;
        kept = good;
        steps = λ x. x;
      };
      closes = λ h. absurd (failed-Tells message code "reconciled" h);
    }

    module _ (timestamp : Time) (window : Duration) where
      abbrev reply_of : Result IngestOutcome × store.State → Reply store.State
      reply_of (outcome, next) = record {
        result = ingest_reply p.trade_id outcome;
        statuses = ("Correlating trade " <> p.trade_id) ∷ [];
        state = next;
      }

      ignored_lem :
          (outcome : IngestOutcome)
          → outcome.status ≢ "reconciled"
          → ServesIngest store sources k s p.trade_id (reply_of (ok outcome, s))
      ignored_lem outcome h = record {
        serves = record { result = _; returned = refl; kept = good; steps = λ x. x };
        closes = λ e. absurd (h (ingest-Tells p.trade_id outcome _ "reconciled" refl e));
      }

      accepted_lem :
          (payload : Bytes)
          → IsAccepted codec sources (event_of p timestamp) payload
          → ServesIngest store sources k s p.trade_id (
              reply_of
                (ingest codec store (new_engine sources window) s (event_of p timestamp) now))
      unfolding event_of
      accepted_lem payload h =
          let done =
            ingest-Answers codec store sources window k s (event_of p timestamp) payload now h
              good in
          record {
            serves = record {
              result = _;
              returned = ap (ingest_reply p.trade_id) done.returned;
              kept = done.kept;
              steps = λ x. subst (Steps sources _) (sym done.moved) (report _ h.known x);
            };
            closes = λ e. (
              h.named,
              ap (λ (l : Ledger). l.closed p.trade_id) done.moved
                  ∙ reconciled-closes sources (k.view s) _ (
                      status_of-reconciled _ (
                        sym done.answer
                        ∙ ingest-Tells p.trade_id done.outcome _ "reconciled" refl e)),
            );
          }

      submitted_lem :
          ServesIngest store sources k s p.trade_id
            (reply_of (ingest codec store (new_engine sources window) s (event_of p timestamp) now))
      submitted_lem =
          ingest_cases codec store (new_engine sources window) s (event_of p timestamp) now
            (λ x. ServesIngest store sources k s p.trade_id (reply_of x)) (turned_down _ _ _)
            (ignored_lem (status "ignored_unknown_source") (λ e. cc)) (λ m _. turned_down _ _ _)
            (λ payload named known encoded.
              subst (λ x. ServesIngest store sources k s p.trade_id (reply_of x))
                (ingest-submit codec store sources window s (event_of p timestamp) payload now
                  (accepts payload named known encoded))
                (accepted_lem payload (accepts payload named known encoded)))
        where
          accepts :
              (payload : Bytes)
              → (event_of p timestamp).trade_id ≢ ""
              → Dict.has (new_engine sources window).expected_sources (event_of p timestamp).source
                ≡ true
              → codec.marshal_event (event_of p timestamp) ≡ inr payload
              → IsAccepted codec sources (event_of p timestamp) payload
          accepts payload named known encoded = record {
            named = named;
            known = sym (has-expected_sources sources window (event_of p timestamp).source) ∙ known;
            encoded = encoded;
          }

  module _ (tc : ToolContext) (configured : IsFor sources tc) where
    -- Over any store that keeps the contract, in a state of its, and with a configuration for its
    -- sources, `ingestTradeEvent` returns a result, and neither panics nor returns a Go error; the
    -- ledger takes one step or none; and where the result tells "reconciled", the trade is closed.
    pub ingest_trade_event-Serves :
        (p : IngestTradeEventParams) (now : Time)
        → ServesIngest store sources k s p.trade_id
            (ingest_trade_event codec store outside p tc now s)
    unfolding ingest_trade_event Handlers.configured
    ingest_trade_event-Serves p now = elim (Option-cases (parse_time p.timestamp)) [
      | inl e ↦ rw (e, ingest_trade_event) (turned_down p now _ _ _)
      | inr (timestamp, e) ↦
          elim (open_engine-cases int_of_float connect migrate sources tc configured) [
            | inl (m, f) ↦ rw (e, f, ingest_trade_event) (turned_down p now _ _ _)
            | inr (window, f) ↦ rw (e, f, ingest_trade_event) (submitted_lem p now timestamp window)
          ]
    ]
