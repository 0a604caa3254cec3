-- ===== src/Symbols/Trading.antt =====
-- The exchange's symbols, and those of them that are traded. Of a TradingSymbol the model keeps the
-- symbol that it is made of, which has its filters in the raw form.
use text.Mathlib.Text.{◌==◌ as str_eq}
use gobinace_qaggr_qrecv.Prelude.{
  String, Bool, Option, none, some, List, [], ◌∷◌, if◌then◌else◌, ◌>>=◌,
}
use gobinace_qaggr_qrecv.Generic.Dicts.{assign, lookup}
use gobinace_qaggr_qrecv.Symbols.Listed.{Symbol}
use gobinace_qaggr_qrecv.Symbols.Filters.{Decimals, new_trading_symbol}

abbrev pub Symbols : Type 0
Symbols = List (String × Symbol)

-- `for _, syn := range exinfo.Symbols`
unfoldable pub enter_all : List Symbol → Symbols → Symbols
enter_all [] m = m
enter_all (s ∷ rest) m = enter_all rest (assign str_eq s.symbol s m)

-- The loop over the answers of the exchange, `none` for an error; the result is `none` if it has not
-- ended with these answers. The aggregator empties the map first.
unfoldable pub update_exchange_info : List (Option (List Symbol)) → Option Symbols
update_exchange_info [] = none
update_exchange_info (none ∷ answers) = update_exchange_info answers
update_exchange_info (some symbols ∷ answers) = some (enter_all symbols [])

-- `symbol.Status == SymbolStatusTypeTrading`
unfoldable pub is_trading : Symbol → Bool
is_trading s = str_eq s.status "TRADING"

module _ ⦃D : Decimals⦄ where
  -- `if s, ok := c.exchangeSymbols[name]; ok`, and the test of the status; `none` is a panic of
  -- NewTradingSymbol.
  unfoldable pub load_one : String → Option Symbol → Symbols → Option Symbols
  unfolding is_trading
  load_one name none m = some m
  load_one name (some s) m =
      if is_trading s
      then (new_trading_symbol s >>= λ t. some (assign str_eq name t.inner m))
      else some m

  unfoldable pub load_named : Symbols → List String → Symbols → Option Symbols
  unfolding load_one
  load_named exchange [] m = some m
  load_named exchange (name ∷ names) m =
      load_one name (lookup str_eq name exchange) m >>= load_named exchange names

  -- `for name, symbol := range c.exchangeSymbols`
  unfoldable pub load_every : Symbols → Symbols → Option Symbols
  unfolding load_one
  load_every [] m = some m
  load_every ((name, s) ∷ rest) m = load_one name (some s) m >>= load_every rest

  unfoldable pub load_trading_symbol : List String → Symbols → Option Symbols
  unfolding load_named load_every
  load_trading_symbol [] exchange = load_every exchange []
  load_trading_symbol (name ∷ names) exchange = load_named exchange (name ∷ names) []
