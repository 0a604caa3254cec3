-- ===== src/Symbols/Samples.antt =====
-- The loading of symbols at concrete inputs.
use text.Mathlib.Text.{◌==◌ as str_eq}
use gobinace_qaggr_qrecv.Prelude.{
  ℤ, pos, String, true, false, none, some, List, [], ◌∷◌, ◌≡◌, refl, if◌then◌else◌, ◌⊎◌,
}
use gobinace_qaggr_qrecv.Generic.Dicts.{lookup, assign}
use gobinace_qaggr_qrecv.Symbols.Listed.{Symbol, Value, of_string, of_float64, Entry}
use gobinace_qaggr_qrecv.Symbols.Filters.{
  Decimals, set_filters, filter_type, no_filters, new_trading_symbol,
}
use gobinace_qaggr_qrecv.Symbols.Trading.{
  Symbols, enter_all, update_exchange_info, load_trading_symbol, load_every, load_named, load_one,
  is_trading,
}
use gobinace_qaggr_qrecv.Symbols.Loading.{
  is_chosen, if_trading, last_listed, loadable, load_trading_symbol-lookup,
}
use gobinace_qaggr_qrecv.Symbols.Readable.{are_readable}
use gobinace_qaggr_qrecv.Symbols.Reading.{read_filters, new_trading_symbol-reads}

instance abbrev sample_decimals : Decimals
sample_decimals = record {
  Decimal = ℤ;
  zero_decimal = pos 0;
  new_from_string = λ t. if str_eq t "0.10" then some (pos 10) else none;
  new_from_int = λ n. n;
}

abbrev lot_entry : Entry
lot_entry =
    ("filterType", of_string "LOT_SIZE")
    ∷ ("maxQty", of_string "much")
    ∷ ("minQty", of_string "0.10")
    ∷ ("stepSize", of_string "0.10")
    ∷ []

abbrev orders_entry : Value → Entry
orders_entry v = ("filterType", of_string "MAX_NUM_ORDERS") ∷ ("limit", v) ∷ []

-- The number in JSON is a float64, and the limit stays zero.
abbrev filters : List Entry
filters = orders_entry (of_float64 (pos 200)) ∷ lot_entry ∷ []

abbrev btc : Symbol
btc = record { symbol = "BTCUSDT"; pair = "BTCUSDT"; status = "TRADING"; filters = filters }

abbrev luna : Symbol
luna = record { symbol = "LUNAUSDT"; pair = "LUNAUSDT"; status = "SETTLING"; filters = [] }

abbrev eth : Symbol
eth = record { symbol = "ETHUSDT"; pair = "ETHUSDT"; status = "TRADING"; filters = [] }

-- A symbol whose filter for market orders has no text.
abbrev bad : Symbol
bad = record {
  symbol = "BADUSDT";
  pair = "BADUSDT";
  status = "TRADING";
  filters = (("filterType", of_string "MARKET_TAKE") ∷ []) ∷ [];
}

abbrev listed : List Symbol
listed = luna ∷ btc ∷ eth ∷ []

abbrev chosen : List String
chosen = "ETHUSDT" ∷ "LUNAUSDT" ∷ []

abbrev exchange : Symbols
exchange = enter_all listed []

load_trading_symbol-lookup_example :
    ((loadable chosen exchange ≡ false) × (load_trading_symbol chosen exchange ≡ none))
    ⊎ ((m : Symbols) × (loadable chosen exchange ≡ true)
        × (load_trading_symbol chosen exchange ≡ some m)
        × ((k : String)
            → lookup str_eq k m
              ≡ (if is_chosen chosen k then if_trading (last_listed k listed) else none)))
load_trading_symbol-lookup_example = load_trading_symbol-lookup listed chosen

-- The exchange answers at the second attempt; a symbol that is not traded is left out.
all_traded :
    update_exchange_info (none ∷ some listed ∷ [])
    ≡ some (("LUNAUSDT", luna) ∷ ("BTCUSDT", btc) ∷ ("ETHUSDT", eth) ∷ [])
unfolding update_exchange_info enter_all assign
all_traded = refl

named_only :
    load_trading_symbol
      ("ETHUSDT" ∷ "LUNAUSDT" ∷ "NONE" ∷ [])
      (("LUNAUSDT", luna) ∷ ("BTCUSDT", btc) ∷ ("ETHUSDT", eth) ∷ [])
    ≡ some (("ETHUSDT", eth) ∷ [])
unfolding load_trading_symbol load_named load_one is_trading lookup assign new_trading_symbol
    set_filters
named_only = refl

none_named :
    load_trading_symbol [] (("LUNAUSDT", luna) ∷ ("BTCUSDT", btc) ∷ ("ETHUSDT", eth) ∷ [])
    ≡ some (("BTCUSDT", btc) ∷ ("ETHUSDT", eth) ∷ [])
unfolding load_trading_symbol load_every load_one is_trading lookup assign new_trading_symbol
    set_filters filter_type
none_named = refl

-- The filters of a symbol that is not named are not read.
named_bad :
    load_trading_symbol ("ETHUSDT" ∷ []) (("BADUSDT", bad) ∷ ("ETHUSDT", eth) ∷ [])
    ≡ some (("ETHUSDT", eth) ∷ [])
unfolding load_trading_symbol load_named load_one is_trading lookup assign new_trading_symbol
    set_filters
named_bad = refl

loading_bad : load_trading_symbol [] (("BADUSDT", bad) ∷ ("ETHUSDT", eth) ∷ []) ≡ none
unfolding load_trading_symbol load_every load_one is_trading lookup new_trading_symbol set_filters
    filter_type
loading_bad = refl

new_trading_symbol-reads_example : new_trading_symbol btc ≡ (
    if are_readable btc.filters
    then some (record {
      inner = btc;
      name = btc.symbol;
      pair = btc.pair;
      filters = read_filters btc.filters no_filters;
    })
    else none)
new_trading_symbol-reads_example = new_trading_symbol-reads btc

filters-read :
    new_trading_symbol btc
    ≡ some (record {
      inner = btc;
      name = "BTCUSDT";
      pair = "BTCUSDT";
      filters = record no_filters {
        lot = record { max_qty = pos 0; min_qty = pos 10; step_size = pos 10 };
      };
    })
unfolding new_trading_symbol set_filters filter_type lookup
filters-read = refl

filters-panic : new_trading_symbol bad ≡ none
unfolding new_trading_symbol set_filters filter_type lookup
filters-panic = refl
