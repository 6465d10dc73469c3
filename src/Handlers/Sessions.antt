-- ===== src/Handlers/Sessions.antt =====
-- Sequences of calls of the three tools of main.go, over any store that keeps the contract.
use event_correlator_tool.Common.{
  String, true, List, [], ◌∷◌, ◌≡◌, ◌≢◌, sym, ◌∙◌, ap, subst, arith, Every, ok, Result,
  ok-injective,
}
use event_correlator_tool.Common.Strings.{trim_space}
use event_correlator_tool.Common.Strings.Trimming.{trim_space_idem}
use event_correlator_tool.Clock.{Time, Duration}
use event_correlator_tool.Model.{AuditEntry}
use event_correlator_tool.Store.{AuditFilter, Store}
use event_correlator_tool.Engine.{Codec, new_engine}
use event_correlator_tool.Config.{open_engine}
use event_correlator_tool.Config.Opened.{IsFor}
use event_correlator_tool.Sdk.Context.{ToolContext}
use event_correlator_tool.Sdk.Outcome.{ToolResult}
use event_correlator_tool.Ledger.{Ledger}
use event_correlator_tool.Contract.{Contract, is_chosen}
use event_correlator_tool.Contract.Histories.{Steps, stay, Steps-closed}
use event_correlator_tool.Handlers.{
  IngestTradeEventParams, GetAuditHistoryParams, Datum, Outside, Reply, filter_of, value_or_zero,
  ingest_trade_event, sweep_expired_trades, get_audit_history,
}
use event_correlator_tool.Handlers.Replies.{Tells, Serves, Finds}
use event_correlator_tool.Handlers.Replies.Ingest.{ingest_trade_event-Serves}
use event_correlator_tool.Handlers.Replies.Reads.{
  sweep_expired_trades-Serves, get_audit_history-Serves, get_audit_history-Finds,
}
use event_correlator_tool.Handlers.Expected.{Succeeds, Asks, IsOutcome, IsInRange, filter_of-ok}
use event_correlator_tool.Common.Strings.{decimal}
use event_correlator_tool.Common.{◌<>◌, length}
use event_correlator_tool.Handlers.{count, entries}

filter_of-trimmed :
    (q : GetAuditHistoryParams) (f : AuditFilter)
    → filter_of q ≡ ok f
    → trim_space f.trade_id ≡ f.trade_id
unfolding filter_of
filter_of-trimmed q f h = ground (arith, trim_space_idem (value_or_zero "" q.trade_id))

-- A call of one of the tools that `main` registers, with its configuration and its time
pub data ToolCall : Type 0 where
  ingests : IngestTradeEventParams → ToolContext → Time → ToolCall
  sweeps : ToolContext → Time → ToolCall
  audits : GetAuditHistoryParams → ToolContext → ToolCall

-- The call's configuration is for these expected sources.
abbrev pub IsCallFor : List String → ToolCall → Type 0
IsCallFor sources (ingests p tc now) = IsFor sources tc
IsCallFor sources (sweeps tc now) = IsFor sources tc
IsCallFor sources (audits p tc) = IsFor sources tc

module _ (codec : Codec) (store : Store) (outside : Outside) where
  abbrev pub serve : store.State → ToolCall → Reply store.State
  serve s (ingests p tc now) = ingest_trade_event codec store outside p tc now s
  serve s (sweeps tc now) = sweep_expired_trades codec store outside tc now s
  serve s (audits p tc) = get_audit_history codec store outside p tc s

  -- The results of a sequence of calls, and the last state
  abbrev pub serve_all :
      store.State → List ToolCall → List (Result (ToolResult Datum)) × store.State
  serve_all s [] = ([], s)
  serve_all s (call ∷ calls) =
      let reply = serve s call in
      let (results, last) = serve_all reply.state calls in (reply.result ∷ results, last)

  module _ (sources : List String) (k : Contract store sources) where
    serve-Serves :
        (s : store.State) (call : ToolCall)
        → k.IsOk s
        → IsCallFor sources call
        → Serves store sources k s (serve s call)
    serve-Serves s (ingests p tc now) good h =
        (ingest_trade_event-Serves codec store sources k outside s good tc h p now).serves
    serve-Serves s (sweeps tc now) good h =
        sweep_expired_trades-Serves codec store sources k outside s good tc h now
    serve-Serves s (audits p tc) good h =
        get_audit_history-Serves codec store sources k outside s good tc h p

    -- Every call returns a result; the last state is good, and its ledger is reached by steps.
    pub record AllServed (l : Ledger) (r : List (Result (ToolResult Datum)) × store.State)
        : Type 0 where
      pub returned : Every (λ x. (result : ToolResult Datum) × (x ≡ ok result)) r.0
      pub kept : k.IsOk r.1
      pub steps : Steps sources l (k.view r.1)

    serve_all-from :
        (l : Ledger) (s : store.State) (calls : List ToolCall)
        → k.IsOk s
        → Steps sources l (k.view s)
        → Every (IsCallFor sources) calls
        → AllServed l (serve_all s calls)
    serve_all-from l s [] good steps h = record { returned = tt; kept = good; steps = steps }
    serve_all-from l s (call ∷ calls) good steps (c, h) =
        let first = serve-Serves s call good c in
        let rest = serve_all-from l (serve s call).state calls first.kept (first.steps steps) h in
        record {
          returned = ((first.result, first.returned), rest.returned);
          kept = rest.kept;
          steps = rest.steps;
        }

    -- Over any store that keeps the contract, from a state of its: in any sequence of calls of the three
    -- tools, with any arguments and with configurations for the same expected sources, valid or not, every
    -- call returns a result, and neither panics nor returns a Go error; the last state is one of the
    -- store's, and its ledger is reached by reports from expected sources and sweeps.
    pub serve_all-Serves :
        (s : store.State) (calls : List ToolCall)
        → k.IsOk s
        → Every (IsCallFor sources) calls
        → AllServed (k.view s) (serve_all s calls)
    serve_all-Serves s calls good h = serve_all-from (k.view s) s calls good stay h

    -- A reply with the entries of a query, and with their number
    pub record Lists (reply : Reply store.State) : Type 0 where
      pub found : List AuditEntry
      pub replied :
          Succeeds
            ("Found " <> decimal (length found) <> " audit entrie(s)")
            (("count", count (length found)) ∷ ("entries", entries found) ∷ [])
            reply.result

    -- A reply with at least one entry, all of one trade
    pub record FindsTrade (id : String) (reply : Reply store.State) : Type 0 where
      pub lists : Lists reply
      pub some_entry : lists.found ≢ []
      pub about : Every (λ (e : AuditEntry). e.trade_id ≡ id) lists.found

    -- A reply with no entry of a trade
    pub record MissesTrade (id : String) (reply : Reply store.State) : Type 0 where
      pub lists : Lists reply
      pub trimmed : Every (λ (e : AuditEntry). trim_space e.trade_id ≡ e.trade_id) lists.found
      pub others : Every (λ (e : AuditEntry). e.trade_id ≢ id) lists.found

    chosen-about :
        (f : AuditFilter) (l : List AuditEntry)
        → f.trade_id ≢ ""
        → Every (λ e. is_chosen f e ≡ true) l
        → Every (λ (e : AuditEntry). e.trade_id ≡ f.trade_id) l
    chosen-about f [] named h = tt
    chosen-about f (entry ∷ l) named (c, h) = (ground arith, chosen-about f l named h)

    all_trimmed :
        (f : AuditFilter) (l : List AuditEntry)
        → trim_space f.trade_id ≡ f.trade_id
        → Every (λ (e : AuditEntry). e.trade_id ≡ f.trade_id) l
        → Every (λ (e : AuditEntry). trim_space e.trade_id ≡ e.trade_id) l
    all_trimmed f [] t h = tt
    all_trimmed f (entry ∷ l) t (e, h) = (ap trim_space e ∙ t ∙ sym e, all_trimmed f l t h)

    none_of :
        (id : String) (l : List AuditEntry)
        → trim_space id ≢ id
        → Every (λ (e : AuditEntry). trim_space e.trade_id ≡ e.trade_id) l
        → Every (λ (e : AuditEntry). e.trade_id ≢ id) l
    none_of id [] n h = tt
    none_of id (entry ∷ l) n (e, h) = (λ q. n (ap trim_space (sym q) ∙ e ∙ q), none_of id l n h)

    -- What holds after a call that tells "reconciled" and any further calls
    record Settled (id : String) (s : store.State) : Type 0 where
      kept : k.IsOk s
      named : id ≢ ""
      closed : (k.view s).closed id ≡ true

    module _ (s : store.State) (p : IngestTradeEventParams) (tc : ToolContext) (now : Time)
        (result : ToolResult Datum) (calls : List ToolCall) (good : k.IsOk s)
        (configured : IsFor sources tc) (returned : (serve s (ingests p tc now)).result ≡ ok result)
        (told : Tells result "reconciled") (all_configured : Every (IsCallFor sources) calls) where
      abbrev later : store.State
      later = (serve_all (serve s (ingests p tc now)).state calls).1

      reconciled-Settled : Settled p.trade_id later
      reconciled-Settled =
          let first =
            ingest_trade_event-Serves codec store sources k outside s good tc configured p now in
          let (named, closed) = first.closes (
            subst (λ r. Tells r "reconciled") (ok-injective (sym returned ∙ first.serves.returned))
              told) in
          let rest =
            serve_all-Serves (serve s (ingests p tc now)).state calls first.serves.kept
              all_configured in
          record {
            kept = rest.kept;
            named = named;
            closed = Steps-closed sources p.trade_id rest.steps closed;
          }

      module _ (q : GetAuditHistoryParams) (tc' : ToolContext) (window : Duration) (f : AuditFilter)
          (configured' : IsFor sources tc')
          (opened : open_engine outside.int_of_float outside.connect outside.migrate tc'
            ≡ ok (new_engine sources window))
          (asks : Asks q f) (asks_outcome : IsOutcome f.outcome)
          (in_range : IsInRange f.limit) where
        abbrev last : Finds store sources k later outside tc' f (serve later (audits q tc'))
        last =
            get_audit_history-Finds codec store sources k outside later reconciled-Settled.kept tc'
              configured' window q f opened (filter_of-ok q f asks asks_outcome in_range)

        -- Over any store that keeps the contract, from a state of its: after a call of `ingestTradeEvent`
        -- that tells "reconciled", and whatever calls of the tools follow, a call of `getAuditHistory`
        -- whose trade id, without the spaces around it, is the trade's id, and whose outcome is missing
        -- or empty, with a limit from 1 to 500 or none and a configuration that opens, replies with
        -- success, with at least one entry, with entries of that trade only, and with their number; all
        -- configurations are for the same expected sources.
        pub reconciled-IsFound :
            f.trade_id ≡ p.trade_id
            → f.outcome ≡ ""
            → FindsTrade p.trade_id (serve later (audits q tc'))
        reconciled-IsFound same any = record {
          lists = record { found = last.asked.entries; replied = last.replied };
          some_entry =
              last.asked.found any (
                subst (λ id. (k.view later).closed id ≡ true) (sym same) reconciled-Settled.closed);
          about =
              subst (λ id. Every (λ (e : AuditEntry). e.trade_id ≡ id) last.asked.entries) same
                (chosen-about f last.asked.entries (λ e. reconciled-Settled.named (sym same ∙ e))
                  last.asked.chosen);
        }

        -- Over any store that keeps the contract, from a state of its: after a call of `ingestTradeEvent`
        -- that tells "reconciled" for a trade whose id begins or ends with a space, and whatever calls of
        -- the tools follow, the trade is closed; and a call of `getAuditHistory` for a trade, with any
        -- trade id that is not only spaces, with an outcome or none, a limit from 1 to 500 or none and a
        -- configuration that opens, replies with success, with entries whose trade ids neither begin
        -- nor end with a space, and so with none of that trade, and with their number; all
        -- configurations are for the same expected sources.
        pub untrimmed-unfound :
            trim_space p.trade_id ≢ p.trade_id
            → f.trade_id ≢ ""
            → ((k.view later).closed p.trade_id ≡ true)
              × MissesTrade p.trade_id (serve later (audits q tc'))
        untrimmed-unfound spaced named =
            let trimmed =
              all_trimmed f last.asked.entries
                (filter_of-trimmed q f (filter_of-ok q f asks asks_outcome in_range))
                (chosen-about f last.asked.entries named last.asked.chosen) in
            (
              reconciled-Settled.closed,
              record {
                lists = record { found = last.asked.entries; replied = last.replied };
                trimmed = trimmed;
                others = none_of p.trade_id last.asked.entries spaced trimmed;
              },
            )
