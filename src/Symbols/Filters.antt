-- ===== src/Symbols/Filters.antt =====
-- NewTradingSymbol of cmd/QuoteAggrService/config.go (cmd/QuoteRecvSerivce/config.go has it too): the
-- filters of a symbol. `none` is a panic: `kv[k].(string)` where there is no text. Decimal numbers are
-- an interface.
use text.Mathlib.Text.{◌==◌ as str_eq}
use gobinace_qaggr_qrecv.Prelude.{
  ℤ, pos, String, Option, none, some, List, [], ◌∷◌, if◌then◌else◌, ◌>>=◌,
}
use gobinace_qaggr_qrecv.Generic.Dicts.{lookup}
pub use gobinace_qaggr_qrecv.Symbols.Listed.{
  Value, of_string, of_float64, of_int64, of_int, other, Entry, Symbol,
}

-- github.com/shopspring/decimal; `none` is an error, and the number is then zero.
pub record Decimals : Type 1 where
  pub Decimal : Type 0
  pub zero_decimal : Decimal
  pub new_from_string : String → Option Decimal
  pub new_from_int : ℤ → Decimal

-- The cases of the switch.
pub data FilterType : Type 0 where
  price_filter lot_size market_lot_size max_num_orders min_notional percent_price market_take :
      FilterType
  unknown : FilterType

unfoldable pub filter_type_of : Option Value → FilterType
filter_type_of none = unknown
filter_type_of (some (of_float64 n)) = unknown
filter_type_of (some (of_int64 n)) = unknown
filter_type_of (some (of_int n)) = unknown
filter_type_of (some other) = unknown
filter_type_of (some (of_string t)) =
    if str_eq t "PRICE_FILTER"
    then price_filter
    else if str_eq t "LOT_SIZE"
    then lot_size
    else if str_eq t "MARKET_LOT_SIZE"
    then market_lot_size
    else if str_eq t "MAX_NUM_ORDERS"
    then max_num_orders
    else if str_eq t "MIN_NOTIONAL"
    then min_notional
    else if str_eq t "PERCENT_PRICE"
    then percent_price
    else if str_eq t "MARKET_TAKE"
    then market_take
    else unknown

unfoldable pub filter_type : Entry → FilterType
unfolding filter_type_of
filter_type kv = filter_type_of (lookup str_eq "filterType" kv)

module _ ⦃D : Decimals⦄ where
  pub record Price : Type 0 where
    pub max_price : D.Decimal
    pub min_price : D.Decimal
    pub tick_size : D.Decimal

  pub record LotSize : Type 0 where
    pub max_qty : D.Decimal
    pub min_qty : D.Decimal
    pub step_size : D.Decimal

  pub record PercentPrice : Type 0 where
    pub multiplier_decimal : ℤ
    pub multiplier_down : D.Decimal
    pub multiplier_up : D.Decimal

  pub record Filters : Type 0 where
    pub price : Price
    pub lot : LotSize
    pub market_lot : LotSize
    pub order_limit : D.Decimal
    pub notional : D.Decimal
    pub percent : PercentPrice
    pub take_bound : D.Decimal

  pub record TradingSymbol : Type 0 where
    pub inner : Symbol
    pub name : String
    pub pair : String
    pub filters : Filters

  unfoldable pub decimal : String → D.Decimal
  decimal s = elim (D.new_from_string s) [ none ↦ D.zero_decimal | some d ↦ d ]

  -- `decimal.NewFromString(kv[k].(string))`
  unfoldable pub asserted : Option Value → Option D.Decimal
  unfolding decimal
  asserted (some (of_string t)) = some (decimal t)
  asserted (some (of_float64 n)) = none
  asserted (some (of_int64 n)) = none
  asserted (some (of_int n)) = none
  asserted (some other) = none
  asserted none = none

  unfoldable pub text_at : String → Entry → Option D.Decimal
  unfolding asserted
  text_at k kv = asserted (lookup str_eq k kv)

  -- The assertions that are tested: a value of another type changes nothing, or is 0.
  unfoldable pub limit_or : Option Value → D.Decimal → D.Decimal
  limit_or (some (of_int64 n)) d = D.new_from_int n
  limit_or (some (of_string t)) d = d
  limit_or (some (of_float64 n)) d = d
  limit_or (some (of_int n)) d = d
  limit_or (some other) d = d
  limit_or none d = d

  unfoldable pub notional_or : Option Value → D.Decimal → D.Decimal
  unfolding decimal
  notional_or (some (of_string t)) d = decimal t
  notional_or (some (of_int64 n)) d = d
  notional_or (some (of_float64 n)) d = d
  notional_or (some (of_int n)) d = d
  notional_or (some other) d = d
  notional_or none d = d

  unfoldable pub int_or_zero : Option Value → ℤ
  int_or_zero (some (of_int n)) = n
  int_or_zero (some (of_string t)) = pos 0
  int_or_zero (some (of_int64 n)) = pos 0
  int_or_zero (some (of_float64 n)) = pos 0
  int_or_zero (some other) = pos 0
  int_or_zero none = pos 0

  unfoldable pub price_of : Entry → Option Price
  unfolding text_at
  price_of kv = do
    a ← text_at "maxPrice" kv
    b ← text_at "minPrice" kv
    c ← text_at "tickSize" kv
    some (record { max_price = a; min_price = b; tick_size = c })

  unfoldable pub lot_size_of : Entry → Option LotSize
  unfolding text_at
  lot_size_of kv = do
    a ← text_at "maxQty" kv
    b ← text_at "minQty" kv
    c ← text_at "stepSize" kv
    some (record { max_qty = a; min_qty = b; step_size = c })

  unfoldable pub percent_of : Entry → Option PercentPrice
  unfolding text_at int_or_zero
  percent_of kv = do
    a ← text_at "multiplierDown" kv
    b ← text_at "multiplierUp" kv
    some (record {
      multiplier_decimal = int_or_zero (lookup str_eq "multiplierDecimal" kv);
      multiplier_down = a;
      multiplier_up = b;
    })

  -- A round of the loop over the filters.
  unfoldable pub set_filter : FilterType → Entry → Filters → Option Filters
  unfolding price_of lot_size_of percent_of limit_or notional_or text_at
  set_filter price_filter kv f = do p ← price_of kv; some (record f { price = p })
  set_filter lot_size kv f = do l ← lot_size_of kv; some (record f { lot = l })
  set_filter market_lot_size kv f = do l ← lot_size_of kv; some (record f { market_lot = l })
  set_filter max_num_orders kv f =
      some (record f { order_limit = limit_or (lookup str_eq "limit" kv) f.order_limit })
  set_filter min_notional kv f =
      some (record f { notional = notional_or (lookup str_eq "notional" kv) f.notional })
  set_filter percent_price kv f = do p ← percent_of kv; some (record f { percent = p })
  set_filter market_take kv f = do b ← text_at "multiplierUp" kv; some (record f { take_bound = b })
  set_filter unknown kv f = some f

  unfoldable pub set_filters : List Entry → Filters → Option Filters
  unfolding set_filter filter_type
  set_filters [] f = some f
  set_filters (kv ∷ rest) f = set_filter (filter_type kv) kv f >>= set_filters rest

  abbrev pub no_price : Price
  no_price = record {
    max_price = D.zero_decimal;
    min_price = D.zero_decimal;
    tick_size = D.zero_decimal;
  }

  abbrev pub no_lot_size : LotSize
  no_lot_size = record {
    max_qty = D.zero_decimal;
    min_qty = D.zero_decimal;
    step_size = D.zero_decimal;
  }

  abbrev pub no_percent : PercentPrice
  no_percent = record {
    multiplier_decimal = pos 0;
    multiplier_down = D.zero_decimal;
    multiplier_up = D.zero_decimal;
  }

  abbrev pub no_filters : Filters
  no_filters = record {
    price = no_price;
    lot = no_lot_size;
    market_lot = no_lot_size;
    order_limit = D.zero_decimal;
    notional = D.zero_decimal;
    percent = no_percent;
    take_bound = D.zero_decimal;
  }

  unfoldable pub new_trading_symbol : Symbol → Option TradingSymbol
  unfolding set_filters
  new_trading_symbol symbol = do
    f ← set_filters symbol.filters no_filters
    some (record { inner = symbol; name = symbol.symbol; pair = symbol.pair; filters = f })
