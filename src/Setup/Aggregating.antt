-- ===== src/Setup/Aggregating.antt =====
-- The aggregator comes up, and what it publishes from then on.
use gobinace_qaggr_qrecv.Prelude.{
  ℤ, pos, ◌<ℤ◌, String, Bool, true, false, none, some, List, [], ◌∷◌, map, if◌then◌else◌, ◌≡◌, refl,
  ap, Bool-cases, inl, inr, ◌⊎◌,
}
use gobinace_qaggr_qrecv.Symbols.Trading.{Symbols, update_exchange_info, load_trading_symbol}
use gobinace_qaggr_qrecv.Symbols.Filters.{Decimals}
use gobinace_qaggr_qrecv.Market.Service.{Succeeds}
use gobinace_qaggr_qrecv.Marshal.{Floats}
use gobinace_qaggr_qrecv.Aggregation.Node.{Timing, period_ms}
use gobinace_qaggr_qrecv.Aggregation.Windows.{idle}
use gobinace_qaggr_qrecv.Collector.Table.{update_aggr_symbols}
use gobinace_qaggr_qrecv.Collector.Round as Round
use gobinace_qaggr_qrecv.Collector.History.{Event, RunRises, run, run_rises}
use gobinace_qaggr_qrecv.Spout.Delivery.{
  AllConnect, all_known, all_opened, init_producers-made, open_producers-made,
}
use gobinace_qaggr_qrecv.Setup.Start.{ok, panicked}
use gobinace_qaggr_qrecv.Setup.Accounts.{
  AccountConfig, WsApiClient, choose_account, Unnamed, IsLastNamed, choose_account-Chooses,
  connect-some, get_or_new_ws_client,
}
use gobinace_qaggr_qrecv.Setup.Aggregator.{
  AggrConfig, AggrAnswers, Aggregator, trading_names, new_aggregator, init_binance, new_qmon,
  init_aggregator, run_aggregator, start_aggregator,
}

module _ ⦃τ : Timing⦄ ⦃F : Floats⦄ ⦃D : Decimals⦄ where
  -- The aggregator is up with this account: its destinations are open, the quotes are received, and the
  -- server and the monitor run exactly if the settings say so.
  abbrev pub IsServing : AggrConfig → AccountConfig → Aggregator → Type 0
  IsServing cfg acc c =
      (c.account_config ≡ some acc)
      × (c.producers ≡ all_opened cfg.fan_out_servers)
      × (c.receiving ≡ true)
      × (c.ws_server_opened ≡ cfg.ws_server_enable)
      × (c.qmon_opened ≡ cfg.mon_config.enable)

  -- From a start on: whatever the history.
  abbrev pub Publishes : Round.Config → ℤ → List Event → Aggregator → Type 0
  Publishes rounds at events c =
      RunRises idle
        (run rounds (record { period_symbols = c.period_symbols; last_period_ts = at }) events)

  abbrev prepared : AggrConfig → AccountConfig → Symbols → Symbols → WsApiClient → Aggregator
  prepared cfg acc exchange traded client = record new_aggregator {
    account_config = some acc;
    use_testnet = if acc.test_net then true else false;
    exchange_symbols = exchange;
    trading_symbols = traded;
    period_symbols = update_aggr_symbols (trading_names traded);
    producers = all_opened cfg.fan_out_servers;
    ws_client = some client;
  }

  abbrev running : String → AggrConfig → AggrAnswers → Aggregator → Aggregator
  running version cfg a c = record c {
    receiving = true;
    has_ws_server = if cfg.ws_server_enable then true else false;
    ws_server_opened = if (if cfg.ws_server_enable then true else false) then true else false;
    qmon = if cfg.mon_config.enable then some (new_qmon version cfg a) else none;
    qmon_opened = cfg.mon_config.enable;
  }

  start-running :
      (version : String) (cfg : AggrConfig) (a : AggrAnswers) (acc : AccountConfig)
      (exchange traded : Symbols) (client : WsApiClient)
      → choose_account cfg.account cfg.accounts none ≡ some acc
      → update_exchange_info a.exchange ≡ some exchange
      → load_trading_symbol cfg.trading_symbols exchange ≡ some traded
      → get_or_new_ws_client acc a.connects none ≡ some client
      → AllConnect a.socks
      → all_known cfg.fan_out_servers ≡ true
      → a.quote_socket ≡ true
      → start_aggregator version cfg a
        ≡ ok (running version cfg a (prepared cfg acc exchange traded client))
  unfolding start_aggregator init_aggregator init_binance run_aggregator
  start-running version cfg a acc exchange traded client p e t k s kn q =
      rw
        (
          p,
          e,
          t,
          init_producers-made a.socks s cfg.fan_out_servers [],
          k,
          open_producers-made a.socks cfg.fan_out_servers,
          kn,
          q,
        )
        (elim (Bool-cases cfg.mon_config.enable) [ inl m ↦ rw m refl | inr m ↦ rw m refl ])

  map-update_aggr_symbols : (l : List String) → map (λ e. e.0) (update_aggr_symbols l) ≡ l
  unfolding update_aggr_symbols
  map-update_aggr_symbols [] = refl
  map-update_aggr_symbols (n ∷ l) = ap (λ t. n ∷ t) (map-update_aggr_symbols l)

  -- The period is positive, the enabled destinations have known names, the exchange and its API answer
  -- in the end, NewTradingSymbol can read the filters of the symbols that are loaded, and the sockets are
  -- made. Then the start panics if no account has the name in the settings. Else the last account of
  -- that name is used and the aggregator is up; its table has the symbols that are loaded. Whatever is
  -- received from then on, whatever the clock reads and in whatever order the symbols are
  -- visited, no round panics, and the published messages have starts on the grid of periods, each at
  -- least one period after the one before it.
  pub start-Publishes :
      pos 0 <ℤ period_ms
      → (version : String) (cfg : AggrConfig) (a : AggrAnswers) (exchange traded : Symbols)
      → update_exchange_info a.exchange ≡ some exchange
      → load_trading_symbol cfg.trading_symbols exchange ≡ some traded
      → Succeeds a.connects
      → AllConnect a.socks
      → all_known cfg.fan_out_servers ≡ true
      → a.quote_socket ≡ true
      → (rounds : Round.Config) (at : ℤ) (events : List Event)
      → (Unnamed cfg.account cfg.accounts × (start_aggregator version cfg a ≡ panicked))
        ⊎ ((acc : AccountConfig) × (c : Aggregator) × IsLastNamed cfg.account cfg.accounts acc
            × (start_aggregator version cfg a ≡ ok c)
            × IsServing cfg acc c
            × (map (λ e. e.0) c.period_symbols ≡ trading_names traded)
            × Publishes rounds at events c)
  unfolding get_or_new_ws_client
  start-Publishes h version cfg a exchange traded e t k s kn q rounds at events =
      elim (choose_account-Chooses cfg.account cfg.accounts none) [
        | inl (u, p) ↦ inl (u, unfold start_aggregator init_aggregator init_binance in rw p refl)
        | inr (acc, p, l) ↦
            let k' = connect-some acc a.connects k in
            inr (
              acc,
              running version cfg a (prepared cfg acc exchange traded k'.0),
              l,
              start-running version cfg a acc exchange traded k'.0 p e t k'.1 s kn q,
              (refl, refl, refl, twice cfg.ws_server_enable, refl),
              map-update_aggr_symbols (trading_names traded),
              run_rises h rounds (trading_names traded) at events,
            )
      ]
    where
      twice : (b : Bool) → (if (if b then true else false) then true else false) ≡ b
      twice true = refl
      twice false = refl
