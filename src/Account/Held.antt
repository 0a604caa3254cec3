-- ===== src/Account/Held.antt =====
-- The configured symbols of cmd/QuoteAggrService/controller.go and config.go: the last trade of each, its
-- price, the target positions from Redis, and the leverage at the start.
-- Of Symbol the model keeps what these read or write. The map holds pointers, and no two names share one.
use text.Mathlib.Text.{◌==◌ as str_eq}
use gobinace_qaggr_qrecv.Prelude.{
  ℤ, String, Bool, true, false, Option, none, some, List, [], ◌∷◌, map, if◌then◌else◌,
}
use gobinace_qaggr_qrecv.Receiver.Events.{WsAggTradeEvent}
use gobinace_qaggr_qrecv.Symbols.Filters.{Decimals}

module _ ⦃D : Decimals⦄ where
  pub record HeldSymbol : Type 0 where
    pub leverage : ℤ
    pub target : Option D.Decimal
    pub agg_trade : Option WsAggTradeEvent

  abbrev pub HeldSymbols : Type 0
  HeldSymbols = List (String × HeldSymbol)

  unfoldable pub price_in : Option WsAggTradeEvent → Option D.Decimal
  price_in none = none
  price_in (some e) = D.new_from_string e.price

  unfoldable pub last_price : HeldSymbol → Option D.Decimal
  unfolding price_in
  last_price s = price_in s.agg_trade

  -- A write through the pointer that the map holds.
  unfoldable pub modify : String → (HeldSymbol → HeldSymbol) → HeldSymbols → HeldSymbols
  modify k f [] = []
  modify k f ((j, s) ∷ m) = if str_eq j k then (j, f s) ∷ m else (j, s) ∷ modify k f m

  unfoldable pub on_agg_trade_event : WsAggTradeEvent → HeldSymbols → HeldSymbols
  unfolding modify
  on_agg_trade_event e m = modify e.symbol (λ s. record s { agg_trade = some e }) m

  unfoldable pub on_agg_trade_events : List WsAggTradeEvent → HeldSymbols → HeldSymbols
  unfolding on_agg_trade_event
  on_agg_trade_events [] m = m
  on_agg_trade_events (e ∷ es) m = on_agg_trade_events es (on_agg_trade_event e m)

  -- A position that Redis has and that is a number.
  unfoldable pub position_of : Option String → Option D.Decimal
  position_of none = none
  position_of (some val) = D.new_from_string val

  unfoldable pub set_position : String → Option D.Decimal → HeldSymbols → HeldSymbols
  unfolding modify
  set_position name none m = m
  set_position name (some pos) m = modify name (λ s. record s { target = some pos }) m

  -- `for name, _ := range c.symbols`, with what Redis has at each name, `none` for an error.
  unfoldable pub set_positions : (String → Option String) → List String → HeldSymbols → HeldSymbols
  unfolding set_position position_of
  set_positions hget [] m = m
  set_positions hget (name ∷ names) m =
      set_positions hget names (set_position name (position_of (hget name)) m)

  unfoldable pub update_position_from_redis : (String → Option String) → HeldSymbols → HeldSymbols
  unfolding set_positions
  update_position_from_redis hget m =
      set_positions hget (map (λ (e : String × HeldSymbol). e.0) m) m

  -- The changes that are asked for, and whether all are made; the first refusal panics.
  unfoldable pub init_leverage : (String → ℤ → Bool) → HeldSymbols → List (String × ℤ) × Bool
  init_leverage accepts [] = ([], true)
  init_leverage accepts ((name, s) ∷ m) =
      let rest = init_leverage accepts m in
      if accepts name s.leverage
      then ((name, s.leverage) ∷ rest.0, rest.1)
      else ((name, s.leverage) ∷ [], false)
