-- ===== src/Collector/Samples.antt =====
-- Runs of the aggregator's controller.go at concrete inputs, and the theorems at inputs that meet
-- their hypotheses.
use gobinace_qaggr_qrecv.Prelude.{
  ℕ, ◌≡◌, refl, ℤ, pos, ◌+ℤ◌, ◌-ℤ◌, ◌*ℤ◌, quot, String, true, false, none, some, List, [], ◌∷◌, map,
  arith,
}
use gobinace_qaggr_qrecv.Quote.{
  QuoteTrade, QuoteOrbIncr, QuoteSnapShot, QuoteDataType, QuoteData, Message, MessageType,
  ExchangeType, Payload,
}
use gobinace_qaggr_qrecv.Aggregation.Node.{Timing, initial_timing, new_symbol_def, new_period_node}
use gobinace_qaggr_qrecv.Aggregation.Put.{put_trade, put_inc, put_snapshot}
use gobinace_qaggr_qrecv.Aggregation.Clock.{time_itr, drain, closing, remaining}
use gobinace_qaggr_qrecv.Aggregation.Windows.{idle, two}
use gobinace_qaggr_qrecv.Marshal.{Floats, marshall_pb}
use gobinace_qaggr_qrecv.Collector.Table.{
  find_symbol, on_quote_data_recv, swap_at, update_aggr_symbols,
}
use gobinace_qaggr_qrecv.Collector.Round.{
  Config, Collector, Readings, born_of, period_of, collect, find_born, is_zero, visit, visited_more,
  info_of, publish,
}
use gobinace_qaggr_qrecv.Collector.Lockstep.{RoundSpec, collect-RoundSpec}
use gobinace_qaggr_qrecv.Collector.Grid.{RoundLabelled, collect_label}
use gobinace_qaggr_qrecv.Collector.Routes.{stepped, quote_message, on_quote_data_recv_routes}
use gobinace_qaggr_qrecv.Collector.History.{
  Event, received, round, swap, Run, run, step, RunRises, run_rises,
}

instance abbrev sample_timing : Timing
sample_timing = initial_timing

-- Every text is read as the number 1.
instance abbrev sample_floats : Floats
sample_floats = record { Float = ℕ; zero_float = 0; parse_float = λ s. some 1 }

abbrev settings : Config
settings = record { thunder_id = "qas1"; skip_empty_quote = false; mon_enable = true }

abbrev fresh : Collector
fresh = record {
  period_symbols = update_aggr_symbols ("BTCUSDT" ∷ "ETHUSDT" ∷ []);
  last_period_ts = pos 1704067200;
}

-- A round `ms` milliseconds after the origin.
abbrev at_ms : ℕ → ℕ → Readings
at_ms ms seconds = record {
  now = pos 1704067200000 +ℤ pos ms;
  unix = pos 1704067200 +ℤ pos seconds;
  later = pos 1704067200 +ℤ pos seconds;
  post_ts = pos 1704067200000 +ℤ pos ms;
}

abbrev rounds : List Event
rounds =
    round (at_ms 1200 1)
    ∷ round (at_ms 1400 1)
    ∷ received none
    ∷ swap 0
    ∷ round (at_ms 4401 4)
    ∷ round (at_ms 7401 7)
    ∷ round (at_ms 16401 16)
    ∷ []

abbrev labels : Run → List (ℤ × ℤ × List String)
labels none = []
labels (some (ms, c)) = map (λ m. (m.ts, m.period, map (λ i. i.symbol) m.symbol_infos)) ms

-- The third message is late: its window is period 2 and it carries 4.
rounds-run : labels (run settings fresh rounds) ≡ (
    (pos 1704067200000, pos 0, "ETHUSDT" ∷ "BTCUSDT" ∷ [])
    ∷ (pos 1704067203000, pos 1, "ETHUSDT" ∷ "BTCUSDT" ∷ [])
    ∷ (pos 1704067206000, pos 4, "ETHUSDT" ∷ "BTCUSDT" ∷ [])
    ∷ [])
unfolding run step update_aggr_symbols new_symbol_def ◌+ℤ◌ ◌-ℤ◌ ◌*ℤ◌ quot on_quote_data_recv swap_at
    collect find_born is_zero born_of period_of visit visited_more info_of publish time_itr
    new_period_node closing remaining drain marshall_pb
rounds-run = refl

run_rises_example : RunRises idle (run settings fresh rounds)
run_rises_example =
    run_rises (omega arith) settings ("BTCUSDT" ∷ "ETHUSDT" ∷ []) (pos 1704067200) rounds

collect-RoundSpec_example :
    RoundSpec idle (at_ms 1200 1) fresh (collect settings (at_ms 1200 1) fresh)
unfolding update_aggr_symbols new_symbol_def
collect-RoundSpec_example =
    collect-RoundSpec settings (at_ms 1200 1) fresh idle (λ e. ground arith)
      (((tt, refl), ((tt, refl), tt)))

-- One symbol, in the windows of periods 0 and 1.
abbrev running : Collector
running = record {
  period_symbols =
      (
        "BTCUSDT",
        record {
          name = "BTCUSDT";
          linked = new_period_node (pos 1704067200000) ∷ new_period_node (pos 1704067203000) ∷ [];
          pending_inc = [];
          pending_trade = [];
          pending_snapshot = [];
        },
      )
      ∷ [];
  last_period_ts = pos 1704067200;
}

collect_label_example :
    RoundLabelled settings
      (at_ms 16401 16)
      running.period_symbols
      3000
      16000
      0
      (collect settings (at_ms 16401 16) running)
unfolding ◌+ℤ◌ ◌-ℤ◌ ◌*ℤ◌ new_period_node
collect_label_example =
    collect_label settings (at_ms 16401 16) running (two (pos 1704067200000)) 3000 16000 0
      (omega arith) refl refl (((refl, refl, refl), refl), tt) refl

abbrev envelope : Message
envelope = record {
  kind = MessageType.unknown;
  ts = 0;
  seq_no = 0;
  req_no = "";
  sender = "";
  live_time = 0;
  payload = Payload.other;
}

abbrev eth_trade : QuoteTrade
eth_trade = record {
  event = "trade";
  time = pos 1704067200100;
  symbol = "ETHUSDT";
  trade_id = pos 1;
  price = "1.5";
  quantity = "2";
  buyer_order_id = pos 7;
  seller_order_id = pos 8;
  trade_time = pos 1704067200100;
  is_buyer_maker = true;
  placeholder = false;
}

abbrev eth_inc : QuoteOrbIncr
eth_inc = record {
  time = pos 1704067200100;
  transaction_time = pos 1;
  symbol = "ETHUSDT";
  first_update_id = pos 1;
  last_update_id = pos 2;
  prev_last_update_id = pos 0;
  bids = [];
  asks = [];
}

abbrev eth_snapshot : QuoteSnapShot
eth_snapshot = record {
  symbol = "ETHUSDT";
  last_update_id = pos 2;
  time = pos 1704067200100;
  trade_time = pos 1;
  bids = [];
  asks = [];
}

on_quote_data_recv_routes_example :
    (find_symbol "BTCUSDT" (
        on_quote_data_recv
          (some (
            quote_message envelope ExchangeType.binance QuoteDataType.trade
              (QuoteData.of_trade eth_trade)))
          fresh.period_symbols)
      ≡ stepped "ETHUSDT" (λ s. put_trade s eth_trade) fresh.period_symbols "BTCUSDT")
    × (find_symbol "BTCUSDT" (
          on_quote_data_recv
            (some (
              quote_message envelope ExchangeType.binance QuoteDataType.order_increment
                (QuoteData.of_order_increment eth_inc)))
            fresh.period_symbols)
        ≡ stepped "ETHUSDT" (λ s. put_inc s eth_inc) fresh.period_symbols "BTCUSDT")
    × (find_symbol "BTCUSDT" (
          on_quote_data_recv
            (some (
              quote_message envelope ExchangeType.binance QuoteDataType.snapshot
                (QuoteData.of_snapshot eth_snapshot)))
            fresh.period_symbols)
        ≡ stepped "ETHUSDT" (λ s. put_snapshot s eth_snapshot) fresh.period_symbols "BTCUSDT")
on_quote_data_recv_routes_example =
    on_quote_data_recv_routes envelope ExchangeType.binance eth_trade eth_inc eth_snapshot
      fresh.period_symbols "BTCUSDT"
