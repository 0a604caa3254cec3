-- ===== src/Setup/Receiver.antt =====
-- init, initBinance and run of cmd/QuoteRecvSerivce/controller.go. Of Controller the model keeps what a
-- start sets and later code needs. The answers of the exchange, of the sockets and of the clock are
-- arguments.
use gobinace_qaggr_qrecv.Prelude.{
  pos, negsuc, ℤ, String, Bool, true, false, Option, none, some, List, [], ◌∷◌, ◌++◌, map,
  if◌then◌else◌, ◌||◌,
}
use gobinace_qaggr_qrecv.Symbols.Trading.{Symbols, enter_all, load_named, load_every}
use gobinace_qaggr_qrecv.Symbols.Listed.{Symbol}
use gobinace_qaggr_qrecv.Symbols.Filters.{Decimals}
use gobinace_qaggr_qrecv.Market.Plan.{Manager, open_services}
use gobinace_qaggr_qrecv.Monitor.Manager.{
  MonConfig, MonManager, new_mon_manager, set_service_type, set_service_id, set_version, set_ip,
  init as init_mon,
}
use gobinace_qaggr_qrecv.Setup.Start.{Start, ok, panicked, waiting, ◌>>=◌, awaited, followed}
use gobinace_qaggr_qrecv.Setup.Accounts.{
  AccountConfig, choose_account, WsApiClient, get_or_new_ws_client,
}

-- The managers of the five streams of market data.
pub data Stream : Type 0 where
  depth trade orb_inc kline agg_trade : Stream

abbrev pub same_stream : Stream → Stream → Bool
same_stream depth t = elim t [ depth ↦ true | _ ↦ false ]
same_stream trade t = elim t [ trade ↦ true | _ ↦ false ]
same_stream orb_inc t = elim t [ orb_inc ↦ true | _ ↦ false ]
same_stream kline t = elim t [ kline ↦ true | _ ↦ false ]
same_stream agg_trade t = elim t [ agg_trade ↦ true | _ ↦ false ]

-- `recv_enable` and `max_symbol_num_per_conn` are five fields of the settings each.
pub record Config : Type 0 where
  pub thunder_id : String
  pub service_type : String
  pub ip : String
  pub account : String
  pub accounts : List AccountConfig
  pub trading_symbols : List String
  pub recv_enable : Stream → Bool
  pub max_symbol_num_per_conn : Stream → ℤ
  pub recv_snap_shot_enable : Bool
  pub fan_out_servers : List String
  pub mon_config : MonConfig

pub record Answers : Type 0 where
  pub exchange : List (Option (List Symbol))
  pub connects : List Bool
  pub new_socket : String → Bool
  pub now : ℤ
  pub pid : ℤ
  pub mon_connects : Bool

pub record Controller : Type 0 where
  pub account_config : Option AccountConfig
  pub use_testnet : Bool
  pub exchange_symbols : Symbols
  pub trading_symbols : Symbols
  pub initialized : List Stream
  pub opened : List (Stream × Manager)
  pub producers : List String
  pub has_msg_ch : Bool
  pub has_snapshot_mgr : Bool
  pub snapshot_opened : Bool
  pub ws_client : Option WsApiClient
  pub qmon : Option MonManager
  pub qmon_opened : Bool

-- updateExchangeInfo: the loop over the answers of the exchange.
unfoldable pub update_exchange_info : List (Option (List Symbol)) → Symbols → Option Symbols
update_exchange_info [] exchange = none
update_exchange_info (none ∷ answers) exchange = update_exchange_info answers exchange
update_exchange_info (some symbols ∷ answers) exchange = some (enter_all symbols exchange)

-- loadTradingSymbol adds to the map; `none` is a panic of NewTradingSymbol.
unfoldable pub load_trading_symbol :
    ⦃D : Decimals⦄ → List String → Symbols → Symbols → Option Symbols
load_trading_symbol [] exchange trading = load_every exchange trading
load_trading_symbol (name ∷ names) exchange trading = load_named exchange (name ∷ names) trading

-- `if c.config.RecvDepthEnable { c.depthclientMgr.Init(...) }`, and so on.
unfoldable pub init_streams : Config → List Stream → Controller → Controller
init_streams cfg [] c = c
init_streams cfg (s ∷ rest) c =
    init_streams cfg rest
      (if cfg.recv_enable s then record c { initialized = s ∷ c.initialized } else c)

-- FanOutManager.init
unfoldable pub init_fan_out : (String → Bool) → List String → Controller → Start Controller
init_fan_out new_socket [] c = ok c
init_fan_out new_socket (addr ∷ rest) c =
    let next = init_fan_out new_socket rest (record c { producers = c.producers ++ addr ∷ [] }) in
    if new_socket addr then next else panicked

unfoldable pub init_binance : ⦃D : Decimals⦄ → Config → Answers → Controller → Start Controller
unfolding update_exchange_info load_trading_symbol init_streams init_fan_out
init_binance cfg a c = do
  acc ← followed (choose_account cfg.account cfg.accounts c.account_config)
  exchange ← awaited (update_exchange_info a.exchange c.exchange_symbols)
  trading ← followed (load_trading_symbol cfg.trading_symbols exchange c.trading_symbols)
  let c' : Controller = record c {
    account_config = some acc;
    use_testnet = if acc.test_net then true else c.use_testnet;
    exchange_symbols = exchange;
    trading_symbols = trading;
  }
  c'' ←
      init_fan_out a.new_socket cfg.fan_out_servers
        (init_streams cfg (depth ∷ trade ∷ orb_inc ∷ kline ∷ agg_trade ∷ []) c')
  client ← awaited (get_or_new_ws_client acc a.connects c''.ws_client)
  ok (record c'' { ws_client = some client })

unfoldable pub init_qmon : String → Config → Answers → Controller → Controller
init_qmon version cfg a c =
    if cfg.mon_config.enable
    then record c {
      qmon =
          some
            (init_mon a.now a.pid a.mon_connects (
              set_ip cfg.ip (
                set_version version (
                  set_service_id cfg.thunder_id
                    (set_service_type cfg.service_type (new_mon_manager cfg.mon_config)))))).0;
    }
    else c

abbrev pub new_controller : Controller
new_controller = record {
  account_config = none;
  use_testnet = false;
  exchange_symbols = [];
  trading_symbols = [];
  initialized = [];
  opened = [];
  producers = [];
  has_msg_ch = false;
  has_snapshot_mgr = false;
  snapshot_opened = false;
  ws_client = none;
  qmon = none;
  qmon_opened = false;
}

unfoldable pub init : ⦃D : Decimals⦄ → String → Config → Answers → Start Controller
unfolding init_binance init_qmon
init version cfg a = do
  c ← init_binance cfg a (record new_controller { has_snapshot_mgr = cfg.recv_snap_shot_enable })
  ok (init_qmon version cfg a c)

-- The symbols for a stream, in some order.
unfoldable pub get_trade_symbols : Controller → List String
get_trade_symbols c = map (λ (e : String × Symbol). e.0) c.trading_symbols

unfoldable pub is_initialized : Stream → List Stream → Bool
is_initialized s [] = false
is_initialized s (t ∷ ts) = same_stream t s || is_initialized s ts

-- Where the split gives nothing: with a negative size it panics, with 0 its loop does not end.
abbrev pub split_done {ℓ} : {A : Type ℓ} → ℤ → Option A → Start A
split_done n (some a) = ok a
split_done (pos n) none = waiting
split_done (negsuc n) none = panicked

-- Open of a manager; without Init it follows a nil pointer to its settings.
unfoldable pub open_stream : Config → Stream → Controller → Start Controller
unfolding get_trade_symbols is_initialized
open_stream cfg s c =
    if is_initialized s c.initialized
    then (split_done (cfg.max_symbol_num_per_conn s)
          (open_services (get_trade_symbols c) (cfg.max_symbol_num_per_conn s))
        >>= λ m. ok (record c { opened = c.opened ++ (s, m) ∷ [] }))
    else panicked

unfoldable pub open_streams : Config → List Stream → Controller → Start Controller
unfolding open_stream
open_streams cfg [] c = ok c
open_streams cfg (s ∷ rest) c =
    (if cfg.recv_enable s then open_stream cfg s c else ok c) >>= open_streams cfg rest

-- `run` up to its loop.
unfoldable pub run : Config → Controller → Start Controller
unfolding open_streams
run cfg c = do
  c' ←
      open_streams cfg (trade ∷ depth ∷ orb_inc ∷ kline ∷ agg_trade ∷ [])
        (record c { has_msg_ch = true })
  let c'' : Controller = record c' {
    snapshot_opened = if c'.has_snapshot_mgr then true else c'.snapshot_opened;
  }
  if cfg.mon_config.enable
      then (followed c''.qmon >>= λ q. ok (record c'' { qmon_opened = true }))
      else ok c''

unfoldable pub start : ⦃D : Decimals⦄ → String → Config → Answers → Start Controller
unfolding init run
start version cfg a = init version cfg a >>= run cfg
