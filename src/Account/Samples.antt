-- ===== src/Account/Samples.antt =====
-- The configured symbols and the timer at concrete inputs.
use text.Mathlib.Text.{◌==◌ as str_eq}
use gobinace_qaggr_qrecv.Prelude.{
  ℤ, pos, ◌+ℤ◌, String, false, Option, none, some, List, [], ◌∷◌, ◌≡◌, refl, if◌then◌else◌,
}
use gobinace_qaggr_qrecv.Receiver.Events.{WsAggTradeEvent}
use gobinace_qaggr_qrecv.Symbols.Filters.{Decimals}
use gobinace_qaggr_qrecv.Account.Held.{
  HeldSymbol, HeldSymbols, on_agg_trade_events, update_position_from_redis, init_leverage,
}
use gobinace_qaggr_qrecv.Account.Timer.{new_timer, run}

instance abbrev sample_decimals : Decimals
sample_decimals = record {
  Decimal = ℤ;
  zero_decimal = pos 0;
  new_from_string = λ t. if str_eq t "10" then some (pos 10) else none;
  new_from_int = λ n. n;
}

abbrev unheld : HeldSymbol
unheld = record { leverage = pos 5; target = some (pos 1); agg_trade = none }

abbrev table : HeldSymbols
table = ("BTCUSDT", unheld) ∷ ("ETHUSDT", record unheld { leverage = pos 3 }) ∷ []

abbrev trade_at : String → String → WsAggTradeEvent
trade_at symbol price = record {
  time = pos 1;
  symbol = symbol;
  aggregate_trade_id = pos 1;
  price = price;
  quantity = "1";
  first_trade_id = pos 1;
  last_trade_id = pos 1;
  trade_time = pos 1;
  maker = false;
}

abbrev trades : List WsAggTradeEvent
trades = trade_at "BTCUSDT" "10" ∷ trade_at "ETHUSDT" "?" ∷ trade_at "XRPUSDT" "10" ∷ []

abbrev stored : String → Option String
stored k = if str_eq k "BTCUSDT" then some "10" else none

-- Redis has a position for one symbol; the price of another is no number.
table-updated :
    on_agg_trade_events trades (update_position_from_redis stored table)
    ≡ (
      "BTCUSDT",
      record unheld { target = some (pos 10); agg_trade = some (trade_at "BTCUSDT" "10") },
    )
      ∷ ("ETHUSDT", record unheld { leverage = pos 3; agg_trade = some (trade_at "ETHUSDT" "?") })
      ∷ []
unfolding on_agg_trade_events update_position_from_redis
table-updated = refl

leverage-refused :
    init_leverage (λ name n. str_eq name "BTCUSDT") table
    ≡ (("BTCUSDT", pos 5) ∷ ("ETHUSDT", pos 3) ∷ [], false)
unfolding init_leverage
leverage-refused = refl

run-fired :
    run
      ((pos 104, pos 104) ∷ (pos 106, pos 107) ∷ (pos 112, pos 112) ∷ (pos 113, pos 113) ∷ [])
      (new_timer (pos 5) (pos 100))
    ≡ pos 107 ∷ pos 113 ∷ []
unfolding run new_timer ◌+ℤ◌
run-fired = refl
