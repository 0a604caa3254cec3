-- ===== src/Collector/Table.antt =====
-- The map periodSymbols of controller.go: updateAggrSymbols, and onQuoteDataRecv with its handlers.
use text.Mathlib.Text.{◌==◌ as str_eq}
use gobinace_qaggr_qrecv.Prelude.{
  ℕ, zero, suc, String, Option, none, some, List, [], ◌∷◌, map, if◌then◌else◌,
}
use gobinace_qaggr_qrecv.Quote.{
  QuoteTrade, QuoteOrbIncr, QuoteSnapShot, QuoteDepth, QuoteData, QuoteDataType, Message,
  MessageType, Payload, of_quote,
}
use gobinace_qaggr_qrecv.Aggregation.Node.{Timing, SymbolDef, new_symbol_def}
use gobinace_qaggr_qrecv.Aggregation.Put.{put_trade, put_inc, put_snapshot}

abbrev pub Table : Type 0
Table = List (String × SymbolDef)

-- updateAggrSymbols, over the keys of tradingSymbols.
unfoldable pub update_aggr_symbols : List String → Table
update_aggr_symbols names = map (λ name. (name, new_symbol_def name)) names

unfoldable pub find_symbol : String → Table → Option SymbolDef
find_symbol name [] = none
find_symbol name ((n, s) ∷ rest) = if str_eq n name then some s else find_symbol name rest

-- A method called on the symbol behind the pointer that the map holds.
unfoldable pub on_symbol : String → (SymbolDef → SymbolDef) → Table → Table
on_symbol name f [] = []
on_symbol name f ((n, s) ∷ rest) =
    if str_eq n name then (n, f s) ∷ rest else (n, s) ∷ on_symbol name f rest

-- Another order of iteration: entries `n` and `n + 1` change places.
unfoldable pub swap_at : ℕ → Table → Table
swap_at n [] = []
swap_at n (a ∷ []) = a ∷ []
swap_at zero (a ∷ b ∷ rest) = b ∷ a ∷ rest
swap_at (suc n) (a ∷ b ∷ rest) = a ∷ swap_at n (b ∷ rest)

unfoldable pub on_quote_depth : QuoteDepth → Table → Table
on_quote_depth d table = table

module _ ⦃τ : Timing⦄ where
  unfoldable pub on_quote_orderbook_inc : QuoteOrbIncr → Table → Table
  on_quote_orderbook_inc i = on_symbol i.symbol (λ s. put_inc s i)

  unfoldable pub on_quote_trade : QuoteTrade → Table → Table
  on_quote_trade t = on_symbol t.symbol (λ s. put_trade s t)

  unfoldable pub on_quote_snapshot : QuoteSnapShot → Table → Table
  on_quote_snapshot q = on_symbol q.symbol (λ s. put_snapshot s q)

  -- The type says what the data must be; any other pair is ignored.
  unfoldable pub on_quote : QuoteDataType → QuoteData → Table → Table
  on_quote QuoteDataType.depth (QuoteData.of_depth d) table = on_quote_depth d table
  on_quote QuoteDataType.order_increment (QuoteData.of_order_increment i) table =
      on_quote_orderbook_inc i table
  on_quote QuoteDataType.trade (QuoteData.of_trade t) table = on_quote_trade t table
  on_quote QuoteDataType.snapshot (QuoteData.of_snapshot q) table = on_quote_snapshot q table
  on_quote _ _ table = table

  unfoldable pub on_payload : MessageType → Payload → Table → Table
  on_payload MessageType.quote (of_quote q) table = on_quote q.kind q.content table
  on_payload _ _ table = table

  -- `onQuoteDataRecv data`, after the gob decoder; `none` is its error.
  unfoldable pub on_quote_data_recv : Option Message → Table → Table
  unfolding on_payload on_quote on_quote_depth on_quote_orderbook_inc on_quote_trade
      on_quote_snapshot
  on_quote_data_recv none table = table
  on_quote_data_recv (some msg) table = on_payload msg.kind msg.payload table
