-- ===== src/Collector/Routes.antt =====
-- Which symbol a decoded message reaches in controller.go, and what it leaves alone.
use mathlib.Core.Option
use text.Mathlib.Text.{◌==◌ as str_eq}
use text.Mathlib.TextEquality.{eq_iff}
use gobinace_qaggr_qrecv.Prelude.{
  ℕ, zero, suc, ◌≡◌, refl, String, Option, none, some, List, [], ◌∷◌, arith, if◌then◌else◌,
  Bool-cases, inl, inr,
}
use gobinace_qaggr_qrecv.Quote.{
  QuoteTrade, QuoteOrbIncr, QuoteSnapShot, QuoteData, QuoteDataType, Message, MessageType, Payload,
  ExchangeType, of_quote,
}
use gobinace_qaggr_qrecv.Aggregation.Node.{Timing, SymbolDef, new_symbol_def}
use gobinace_qaggr_qrecv.Aggregation.Put.{put_trade, put_inc, put_snapshot}
use gobinace_qaggr_qrecv.Aggregation.Windows.{
  bounds, Phase, put_trade-bounds, put_inc-bounds, put_snapshot-bounds,
}
use gobinace_qaggr_qrecv.Collector.Table.{
  Table, find_symbol, on_symbol, swap_at, on_quote, on_payload, on_quote_data_recv,
  update_aggr_symbols, on_quote_depth, on_quote_trade, on_quote_orderbook_inc, on_quote_snapshot,
}
use gobinace_qaggr_qrecv.Collector.Lockstep.{InPhase}

find_symbol-on_symbol :
    (n k : String) (f : SymbolDef → SymbolDef) (t : Table)
    → find_symbol k (on_symbol n f t)
      ≡ (if str_eq n k then Option.map f (find_symbol k t) else find_symbol k t)
unfolding find_symbol on_symbol
find_symbol-on_symbol n k f [] = ground arith
find_symbol-on_symbol n k f ((m, s) ∷ rest) =
    ground (arith, eq_iff m n, eq_iff m k, eq_iff n k, find_symbol-on_symbol n k f rest)

module _ ⦃τ : Timing⦄ where
  on_symbol-InPhase :
      (n : String) (f : SymbolDef → SymbolDef) (p : Phase) (t : Table)
      → ((s : SymbolDef) → bounds (f s).linked ≡ bounds s.linked)
      → InPhase p t
      → InPhase p (on_symbol n f t)
  unfolding on_symbol
  on_symbol-InPhase n f p [] same h = tt
  on_symbol-InPhase n f p ((m, s) ∷ rest) same h = elim (Bool-cases (str_eq m n)) [
    | inl e ↦ rw e ((rw (same s) h.0.0, rw (same s) h.0.1), h.1)
    | inr e ↦ rw e (h.0, on_symbol-InPhase n f p rest same h.1)
  ]

  pub swap_at-InPhase : (p : Phase) (n : ℕ) (t : Table) → InPhase p t → InPhase p (swap_at n t)
  unfolding swap_at
  swap_at-InPhase p n [] h = tt
  swap_at-InPhase p n (a ∷ []) h = h
  swap_at-InPhase p zero (a ∷ b ∷ rest) h = (h.1.0, (h.0, h.1.1))
  swap_at-InPhase p (suc n) (a ∷ b ∷ rest) h = (h.0, swap_at-InPhase p n (b ∷ rest) h.1)

  on_quote-InPhase :
      (k : QuoteDataType) (d : QuoteData) (p : Phase) (t : Table)
      → InPhase p t
      → InPhase p (on_quote k d t)
  unfolding on_quote on_quote_depth on_quote_trade on_quote_orderbook_inc on_quote_snapshot
  on_quote-InPhase QuoteDataType.depth (QuoteData.of_depth d) p t h = h
  on_quote-InPhase QuoteDataType.order_increment (QuoteData.of_order_increment i) p t h =
      on_symbol-InPhase i.symbol _ p t (λ s. put_inc-bounds s i) h
  on_quote-InPhase QuoteDataType.trade (QuoteData.of_trade u) p t h =
      on_symbol-InPhase u.symbol _ p t (λ s. put_trade-bounds s u) h
  on_quote-InPhase QuoteDataType.snapshot (QuoteData.of_snapshot q) p t h =
      on_symbol-InPhase q.symbol _ p t (λ s. put_snapshot-bounds s q) h
  on_quote-InPhase _ _ p t h = h

  on_payload-InPhase :
      (k : MessageType) (d : Payload) (p : Phase) (t : Table)
      → InPhase p t
      → InPhase p (on_payload k d t)
  unfolding on_payload
  on_payload-InPhase MessageType.quote (of_quote q) p t h = on_quote-InPhase q.kind q.content p t h
  on_payload-InPhase _ _ p t h = h

  -- No received message moves a window of any symbol.
  pub on_quote_data_recv-InPhase :
      (m : Option Message) (p : Phase) (t : Table)
      → InPhase p t
      → InPhase p (on_quote_data_recv m t)
  unfolding on_quote_data_recv
  on_quote_data_recv-InPhase none p t h = h
  on_quote_data_recv-InPhase (some m) p t h = on_payload-InPhase m.kind m.payload p t h

  -- The envelope of a quote.
  abbrev pub quote_message : Message → ExchangeType → QuoteDataType → QuoteData → Message
  quote_message m x kind content = record m {
    kind = MessageType.quote;
    payload = of_quote (record { kind = kind; exchange = x; content = content });
  }

  -- The table after one symbol, if it is there, has made a step.
  abbrev pub stepped : String → (SymbolDef → SymbolDef) → Table → String → Option SymbolDef
  stepped name f t k = if str_eq name k then Option.map f (find_symbol k t) else find_symbol k t

  -- A decoded trade, increment or snapshot is put into the symbol that it names and into no other; if
  -- the table has no such symbol, every lookup is as before.
  pub on_quote_data_recv_routes :
      (m : Message) (x : ExchangeType) (t : QuoteTrade) (i : QuoteOrbIncr) (q : QuoteSnapShot)
      (table : Table) (k : String)
      → (find_symbol k (
            on_quote_data_recv
              (some (quote_message m x QuoteDataType.trade (QuoteData.of_trade t)))
              table)
          ≡ stepped t.symbol (λ s. put_trade s t) table k)
        × (find_symbol k (
              on_quote_data_recv
                (some (
                  quote_message m x QuoteDataType.order_increment (QuoteData.of_order_increment i)))
                table)
            ≡ stepped i.symbol (λ s. put_inc s i) table k)
        × (find_symbol k (
              on_quote_data_recv
                (some (quote_message m x QuoteDataType.snapshot (QuoteData.of_snapshot q)))
                table)
            ≡ stepped q.symbol (λ s. put_snapshot s q) table k)
  unfolding on_quote_data_recv
  on_quote_data_recv_routes m x t i q table k = (
    find_symbol-on_symbol t.symbol k (λ s. put_trade s t) table,
    find_symbol-on_symbol i.symbol k (λ s. put_inc s i) table,
    find_symbol-on_symbol q.symbol k (λ s. put_snapshot s q) table,
  )

  pub update_aggr_symbols-InPhase : (l : List String) → InPhase Phase.idle (update_aggr_symbols l)
  unfolding update_aggr_symbols new_symbol_def
  update_aggr_symbols-InPhase [] = tt
  update_aggr_symbols-InPhase (n ∷ ns) = ((tt, refl), update_aggr_symbols-InPhase ns)
