-- ===== src/Setup/AggrSamples.antt =====
-- The start of the aggregator at concrete inputs.
use gobinace_qaggr_qrecv.Prelude.{
  ℕ, ℤ, pos, true, false, none, some, List, [], ◌∷◌, map, ◌≡◌, refl, arith, ◌⊎◌,
}
use gobinace_qaggr_qrecv.Generic.Dicts.{lookup, assign}
use gobinace_qaggr_qrecv.Symbols.Listed.{Symbol}
use gobinace_qaggr_qrecv.Symbols.Filters.{Decimals, new_trading_symbol, set_filters}
use gobinace_qaggr_qrecv.Symbols.Trading.{
  Symbols, load_named, load_one, is_trading, enter_all, update_exchange_info, load_trading_symbol,
}
use gobinace_qaggr_qrecv.Marshal.{Floats}
use gobinace_qaggr_qrecv.Aggregation.Node.{Timing, initial_timing}
use gobinace_qaggr_qrecv.Collector.Round as Round
use gobinace_qaggr_qrecv.Collector.History.{received, round}
use gobinace_qaggr_qrecv.Setup.Start.{ok, panicked}
use gobinace_qaggr_qrecv.Setup.Accounts.{AccountConfig, Unnamed, IsLastNamed}
use gobinace_qaggr_qrecv.Setup.Aggregator.{
  AggrConfig, AggrAnswers, Aggregator, trading_names, start_aggregator,
}
use gobinace_qaggr_qrecv.Setup.Aggregating.{IsServing, Publishes, start-Publishes}

instance abbrev sample_timing : Timing
sample_timing = initial_timing

instance abbrev sample_floats : Floats
sample_floats = record { Float = ℕ; zero_float = 0; parse_float = λ s. some 1 }

instance abbrev sample_decimals : Decimals
sample_decimals = record {
  Decimal = ℤ;
  zero_decimal = pos 0;
  new_from_string = λ t. none;
  new_from_int = λ n. n;
}

abbrev account : AccountConfig
account = record { name = "main"; api_key = "a"; secret_key = "s"; test_net = false }

abbrev settings : AggrConfig
settings = record {
  thunder_id = "qas";
  service_type = "aggr";
  ip = "10.0.0.1";
  account = "main";
  accounts = account ∷ [];
  trading_symbols = "ETHUSDT" ∷ [];
  fan_out_servers =
      record { name = "zmq"; enable = true; server = "tcp://a"; topic = "" }
      ∷ record { name = "?"; enable = false; server = ""; topic = "" }
      ∷ [];
  ws_server_enable = true;
  mon_config = record {
    enable = false;
    report_dest = "d";
    report_interval = pos 5;
    auth_key = "k";
  };
}

abbrev listed : List Symbol
listed =
    record { symbol = "BTCUSDT"; pair = "BTCUSDT"; status = "TRADING"; filters = [] }
    ∷ record { symbol = "ETHUSDT"; pair = "ETHUSDT"; status = "TRADING"; filters = [] }
    ∷ []

abbrev answers : AggrAnswers
answers = record {
  exchange = some listed ∷ [];
  connects = true ∷ [];
  socks = record {
    new_sock = λ s. true;
    connects = λ s. true;
    bytes_of = λ t. [];
    sends = λ s m bs. true;
    writes = λ s t bs. true;
  };
  quote_socket = true;
  now = pos 100;
  pid = pos 7;
  mon_connects = true;
}

abbrev rounds : Round.Config
rounds = record { thunder_id = "qas"; skip_empty_quote = false; mon_enable = false }

abbrev reading : Round.Readings
reading = record {
  now = pos 1704067204401;
  unix = pos 1704067204;
  later = pos 1704067204;
  post_ts = pos 1704067204401;
}

abbrev traded : Symbols
traded =
    ("ETHUSDT", record { symbol = "ETHUSDT"; pair = "ETHUSDT"; status = "TRADING"; filters = [] })
    ∷ []

start-Publishes_example :
    (Unnamed settings.account settings.accounts
      × (start_aggregator "1" settings answers ≡ panicked))
    ⊎ ((acc : AccountConfig) × (c : Aggregator) × IsLastNamed settings.account settings.accounts acc
        × (start_aggregator "1" settings answers ≡ ok c)
        × IsServing settings acc c
        × (map (λ e. e.0) c.period_symbols ≡ trading_names traded)
        × Publishes rounds (pos 1704067200) (received none ∷ round reading ∷ []) c)
unfolding update_exchange_info load_trading_symbol load_named load_one is_trading new_trading_symbol
    set_filters lookup assign enter_all
start-Publishes_example =
    start-Publishes (omega arith) "1" settings answers (enter_all listed []) traded refl refl tt
      (λ s. (refl, refl)) refl refl rounds (pos 1704067200) (received none ∷ round reading ∷ [])
