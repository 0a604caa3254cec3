-- ===== src/Symbols/Reading.antt =====
-- What NewTradingSymbol reads of all filters of a symbol.
use text.Mathlib.Text.{◌==◌ as str_eq}
use gobinace_qaggr_qrecv.Prelude.{
  Bool, true, false, Option, none, some, List, [], ◌∷◌, if◌then◌else◌, ◌≡◌, refl, ap, ◌∙◌,
  Bool-cases, inl, inr,
}
use gobinace_qaggr_qrecv.Generic.Dicts.{lookup}
use gobinace_qaggr_qrecv.Symbols.Listed.{Symbol}
use gobinace_qaggr_qrecv.Symbols.Filters.{
  Decimals, Value, of_string, of_float64, of_int64, of_int, other, Entry, FilterType, price_filter,
  lot_size, market_lot_size, max_num_orders, min_notional, percent_price, market_take, unknown,
  filter_type, Filters, limit_or, notional_or, no_filters, new_trading_symbol,
}
use gobinace_qaggr_qrecv.Symbols.Readable.{
  is_string, are_readable, string_or_zero, read, read_price, read_lot_size, read_percent, updated,
  all_updated, set_filters-when,
}

module _ ⦃D : Decimals⦄ where
  -- What is read of the last entry that passes the test.
  abbrev pub latest {ℓ} :
      {A : Type ℓ} → (FilterType → Entry → Bool) → (Entry → A) → A → List Entry → A
  latest test value d [] = d
  latest test value d (kv ∷ rest) =
      latest test value (if test (filter_type kv) kv then value kv else d) rest

  abbrev is_int64 : Option Value → Bool
  is_int64 (some (of_int64 n)) = true
  is_int64 (some (of_string t)) = false
  is_int64 (some (of_float64 n)) = false
  is_int64 (some (of_int n)) = false
  is_int64 (some other) = false
  is_int64 none = false

  -- Which entries count for a part of the filters.
  abbrev pub sets_price : FilterType → Entry → Bool
  sets_price t kv = elim t [ price_filter ↦ true | _ ↦ false ]

  abbrev pub sets_lot : FilterType → Entry → Bool
  sets_lot t kv = elim t [ lot_size ↦ true | _ ↦ false ]

  abbrev pub sets_market_lot : FilterType → Entry → Bool
  sets_market_lot t kv = elim t [ market_lot_size ↦ true | _ ↦ false ]

  abbrev pub sets_limit : FilterType → Entry → Bool
  sets_limit t kv = elim t [ max_num_orders ↦ is_int64 (lookup str_eq "limit" kv) | _ ↦ false ]

  abbrev pub sets_notional : FilterType → Entry → Bool
  sets_notional t kv = elim t [ min_notional ↦ is_string (lookup str_eq "notional" kv) | _ ↦ false ]

  abbrev pub sets_percent : FilterType → Entry → Bool
  sets_percent t kv = elim t [ percent_price ↦ true | _ ↦ false ]

  abbrev pub sets_take : FilterType → Entry → Bool
  sets_take t kv = elim t [ market_take ↦ true | _ ↦ false ]

  abbrev pub read_limit : Entry → D.Decimal
  read_limit kv = limit_or (lookup str_eq "limit" kv) D.zero_decimal

  -- Each part as the latest entry for it says.
  abbrev pub read_filters : List Entry → Filters → Filters
  read_filters fs f = record {
    price = latest sets_price read_price f.price fs;
    lot = latest sets_lot read_lot_size f.lot fs;
    market_lot = latest sets_market_lot read_lot_size f.market_lot fs;
    order_limit = latest sets_limit read_limit f.order_limit fs;
    notional = latest sets_notional (read "notional") f.notional fs;
    percent = latest sets_percent read_percent f.percent fs;
    take_bound = latest sets_take (read "multiplierUp") f.take_bound fs;
  }

  abbrev read_entry : FilterType → Entry → Filters → Filters
  read_entry t kv f = record {
    price = if sets_price t kv then read_price kv else f.price;
    lot = if sets_lot t kv then read_lot_size kv else f.lot;
    market_lot = if sets_market_lot t kv then read_lot_size kv else f.market_lot;
    order_limit = if sets_limit t kv then read_limit kv else f.order_limit;
    notional = if sets_notional t kv then read "notional" kv else f.notional;
    percent = if sets_percent t kv then read_percent kv else f.percent;
    take_bound = if sets_take t kv then read "multiplierUp" kv else f.take_bound;
  }

  limit_or_when :
      (o : Option Value) (d : D.Decimal)
      → limit_or o d ≡ (if is_int64 o then limit_or o D.zero_decimal else d)
  unfolding limit_or
  limit_or_when (some (of_int64 n)) d = refl
  limit_or_when (some (of_string t)) d = refl
  limit_or_when (some (of_float64 n)) d = refl
  limit_or_when (some (of_int n)) d = refl
  limit_or_when (some other) d = refl
  limit_or_when none d = refl

  notional_or_when :
      (o : Option Value) (d : D.Decimal)
      → notional_or o d ≡ (if is_string o then string_or_zero o else d)
  unfolding notional_or
  notional_or_when (some (of_int64 n)) d = refl
  notional_or_when (some (of_string t)) d = refl
  notional_or_when (some (of_float64 n)) d = refl
  notional_or_when (some (of_int n)) d = refl
  notional_or_when (some other) d = refl
  notional_or_when none d = refl

  read_one : (t : FilterType) (kv : Entry) (f : Filters) → updated t kv f ≡ read_entry t kv f
  read_one price_filter kv f = refl
  read_one lot_size kv f = refl
  read_one market_lot_size kv f = refl
  read_one max_num_orders kv f =
      ap (λ (d : D.Decimal). let r : Filters = record f { order_limit = d } in r)
        (limit_or_when (lookup str_eq "limit" kv) f.order_limit)
  read_one min_notional kv f =
      ap (λ (d : D.Decimal). let r : Filters = record f { notional = d } in r)
        (notional_or_when (lookup str_eq "notional" kv) f.notional)
  read_one percent_price kv f = refl
  read_one market_take kv f = refl
  read_one unknown kv f = refl

  all_updated-reads : (fs : List Entry) (f : Filters) → all_updated fs f ≡ read_filters fs f
  all_updated-reads [] f = refl
  all_updated-reads (kv ∷ rest) f =
      ap (all_updated rest) (read_one (filter_type kv) kv f)
      ∙ all_updated-reads rest (read_filters (kv ∷ []) f)

  -- NewTradingSymbol panics exactly where some filter has no text at a key where one is asserted. Else
  -- the name and the pair are those of the symbol, and each part of the filters is what the last filter
  -- of its type says, or zero if there is none: a limit on orders counts only if its value has the type
  -- int64, a least notional value only if it is a text.
  pub new_trading_symbol-reads :
      (symbol : Symbol)
      → new_trading_symbol symbol ≡ (
          if are_readable symbol.filters
          then some (record {
            inner = symbol;
            name = symbol.symbol;
            pair = symbol.pair;
            filters = read_filters symbol.filters no_filters;
          })
          else none)
  unfolding new_trading_symbol
  new_trading_symbol-reads symbol =
      let fs = symbol.filters in
      elim (Bool-cases (are_readable fs)) [
        | inl e ↦ rw (set_filters-when fs no_filters, e, all_updated-reads fs no_filters) refl
        | inr e ↦ rw (set_filters-when fs no_filters, e) refl
      ]
