-- ===== src/Setup/Aggregator.antt =====
-- init, initBinance and run of cmd/QuoteAggrService/controller.go. Of Controller the model keeps what a
-- start sets and later code needs. The answers of the exchange, of the sockets and of the clock are
-- arguments.
use gobinace_qaggr_qrecv.Prelude.{
  ℤ, String, Bool, true, false, Option, none, some, List, [], map, if◌then◌else◌,
}
use gobinace_qaggr_qrecv.Symbols.Trading.{Symbols, update_exchange_info, load_trading_symbol}
use gobinace_qaggr_qrecv.Symbols.Listed.{Symbol}
use gobinace_qaggr_qrecv.Symbols.Filters.{Decimals}
use gobinace_qaggr_qrecv.Monitor.Manager.{
  MonConfig, MonManager, new_mon_manager, set_service_type, set_service_id, set_version, set_ip,
  init as init_mon,
}
use gobinace_qaggr_qrecv.Aggregation.Node.{Timing}
use gobinace_qaggr_qrecv.Collector.Table.{Table, update_aggr_symbols}
use gobinace_qaggr_qrecv.Spout.Producers.{
  Destination, Producer, Sockets, init_producers, open_producers,
}
use gobinace_qaggr_qrecv.Setup.Start.{Start, ok, panicked, ◌>>=◌, awaited, followed}
use gobinace_qaggr_qrecv.Setup.Accounts.{
  AccountConfig, choose_account, WsApiClient, get_or_new_ws_client,
}

pub record AggrConfig : Type 0 where
  pub thunder_id : String
  pub service_type : String
  pub ip : String
  pub account : String
  pub accounts : List AccountConfig
  pub trading_symbols : List String
  pub fan_out_servers : List Destination
  pub ws_server_enable : Bool
  pub mon_config : MonConfig

-- `quote_socket` says that the socket of QuoteReceiver is made and subscribed.
pub record AggrAnswers : Type 0 where
  pub exchange : List (Option (List Symbol))
  pub connects : List Bool
  pub socks : Sockets
  pub quote_socket : Bool
  pub now : ℤ
  pub pid : ℤ
  pub mon_connects : Bool

pub record Aggregator : Type 0 where
  pub account_config : Option AccountConfig
  pub use_testnet : Bool
  pub exchange_symbols : Symbols
  pub trading_symbols : Symbols
  pub period_symbols : Table
  pub producers : List Producer
  pub receiving : Bool
  pub ws_client : Option WsApiClient
  pub has_ws_server : Bool
  pub ws_server_opened : Bool
  pub qmon : Option MonManager
  pub qmon_opened : Bool

-- The keys of tradingSymbols, in some order.
unfoldable pub trading_names : Symbols → List String
trading_names m = map (λ (e : String × Symbol). e.0) m

abbrev pub new_aggregator : Aggregator
new_aggregator = record {
  account_config = none;
  use_testnet = false;
  exchange_symbols = [];
  trading_symbols = [];
  period_symbols = [];
  producers = [];
  receiving = false;
  ws_client = none;
  has_ws_server = false;
  ws_server_opened = false;
  qmon = none;
  qmon_opened = false;
}

module _ ⦃τ : Timing⦄ ⦃D : Decimals⦄ where
  unfoldable pub init_binance : AggrConfig → AggrAnswers → Aggregator → Start Aggregator
  unfolding trading_names
  init_binance cfg a c = do
    acc ← followed (choose_account cfg.account cfg.accounts c.account_config)
    exchange ← awaited (update_exchange_info a.exchange)
    trading ← followed (load_trading_symbol cfg.trading_symbols exchange)
    ps ← init_producers a.socks cfg.fan_out_servers c.producers
    client ← awaited (get_or_new_ws_client acc a.connects c.ws_client)
    ok (record c {
      account_config = some acc;
      use_testnet = if acc.test_net then true else c.use_testnet;
      exchange_symbols = exchange;
      trading_symbols = trading;
      period_symbols = update_aggr_symbols (trading_names trading);
      producers = ps;
      ws_client = some client;
    })

  unfoldable pub new_qmon : String → AggrConfig → AggrAnswers → MonManager
  new_qmon version cfg a =
      (init_mon a.now a.pid a.mon_connects (
        set_ip cfg.ip (
          set_version version (
            set_service_id cfg.thunder_id
              (set_service_type cfg.service_type (new_mon_manager cfg.mon_config)))))).0

  unfoldable pub init_aggregator : String → AggrConfig → AggrAnswers → Start Aggregator
  unfolding init_binance new_qmon
  init_aggregator version cfg a = do
    c ← init_binance cfg a new_aggregator
    ok (record c {
      has_ws_server = if cfg.ws_server_enable then true else c.has_ws_server;
      qmon = if cfg.mon_config.enable then some (new_qmon version cfg a) else c.qmon;
    })

  -- `run` up to its loop: the goroutines that it starts are those of Collector, WsServer and Monitor.
  unfoldable pub run_aggregator : AggrConfig → AggrAnswers → Aggregator → Start Aggregator
  run_aggregator cfg a c = do
    ps ← open_producers c.producers
    let c' : Aggregator = record c {
      producers = ps;
      receiving = true;
      ws_server_opened = if c.has_ws_server then true else c.ws_server_opened;
    }
    let monitored =
        if cfg.mon_config.enable
        then (followed c'.qmon >>= λ q. ok (record c' { qmon_opened = true }))
        else ok c'
    if a.quote_socket then monitored else panicked

  unfoldable pub start_aggregator : String → AggrConfig → AggrAnswers → Start Aggregator
  unfolding init_aggregator run_aggregator
  start_aggregator version cfg a = init_aggregator version cfg a >>= run_aggregator cfg a
