-- ===== src/Tests/Tools.antt =====
-- Arguments of `ingestTradeEvent`, and what the tools take from outside.
use event_correlator_tool.Common.{none, some}
use event_correlator_tool.Common.Int.{pos}
use event_correlator_tool.Handlers.{IngestTradeEventParams, Outside}

abbrev pub arguments : IngestTradeEventParams
arguments = record {
  trade_id = "t1";
  source = "solar";
  timestamp = "2024-01-02T03:04:05Z";
  instrument = none;
  quantity = some 7;
  price = none;
  currency = some "EUR";
  counterparty = none;
}

abbrev pub outside : Outside
outside = record {
  parse_time = λ s. some (pos 3);
  int_of_float = λ f. pos f;
  connect = λ url. none;
  migrate = none;
}
