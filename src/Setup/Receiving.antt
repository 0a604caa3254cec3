-- ===== src/Setup/Receiving.antt =====
-- The receiver comes up: what `init` and `run` lead to.
use gobinace_qaggr_qrecv.Prelude.{true, false, some, List, [], ◌∷◌, ◌++◌, if◌then◌else◌, ◌≡◌}
use gobinace_qaggr_qrecv.Symbols.Trading.{Symbols}
use gobinace_qaggr_qrecv.Symbols.Filters.{Decimals}
use gobinace_qaggr_qrecv.Market.Plan.{Manager}
use gobinace_qaggr_qrecv.Setup.Accounts.{AccountConfig, WsApiClient}
use gobinace_qaggr_qrecv.Setup.Receiver.{
  Stream, depth, trade, orb_inc, kline, agg_trade, Config, Controller, new_controller,
  get_trade_symbols,
}
use gobinace_qaggr_qrecv.Setup.Streams.{all_inits, ArePlans}

module _ ⦃D : Decimals⦄ (cfg : Config) where
  -- The receiver is up with this account: a plan for each enabled stream, over the symbols that are
  -- traded; the channel for messages and the sockets are there before; the snapshots are served and the
  -- monitor runs exactly if the settings say so, and the monitor has the id of the service.
  abbrev pub IsUp : AccountConfig → Controller → Type 0
  IsUp acc c =
      (c.account_config ≡ some acc)
      × ArePlans cfg (trade ∷ depth ∷ orb_inc ∷ kline ∷ agg_trade ∷ []) (get_trade_symbols c)
          c.opened
      × (c.has_msg_ch ≡ true)
      × (c.producers ≡ cfg.fan_out_servers)
      × (c.snapshot_opened ≡ cfg.recv_snap_shot_enable)
      × (c.qmon_opened ≡ cfg.mon_config.enable)

  -- The controller after initBinance.
  abbrev prepared : AccountConfig → Symbols → Symbols → WsApiClient → Controller
  prepared acc exchange traded client = record new_controller {
    account_config = some acc;
    use_testnet = if acc.test_net then true else false;
    exchange_symbols = exchange;
    trading_symbols = traded;
    initialized = all_inits cfg;
    producers = cfg.fan_out_servers;
    has_snapshot_mgr = cfg.recv_snap_shot_enable;
    ws_client = some client;
  }

  -- The controller after `run`, up to its loop.
  abbrev ran : Controller → List (Stream × Manager) → Controller
  ran c plans = record c {
    opened = c.opened ++ plans;
    has_msg_ch = true;
    snapshot_opened = if c.has_snapshot_mgr then true else c.snapshot_opened;
    qmon_opened = if cfg.mon_config.enable then true else c.qmon_opened;
  }
