-- ===== src/Receiver/Events.antt =====
-- The handlers OnWs*Event of cmd/QuoteRecvSerivce/controller.go, and `snapshot` of market_snapshot.go:
-- each makes a core.Message of an event and sends it on a channel. The records of the events hold the
-- fields of the exchange library's types that the handlers read.
use gobinace_qaggr_qrecv.Prelude.{ℤ, String, Bool, List, map}
use gobinace_qaggr_qrecv.Quote.{
  AskPrice, QuoteTrade, QuoteOrbIncr, QuoteSnapShot, QuoteDepth, QuoteKline, QuoteAggTrade,
  QuoteData, QuoteDataType, ExchangeType, Message, MessageType, of_quote,
}

pub record BookLevel : Type 0 where
  pub price : String
  pub quantity : String

pub record WsAggTradeEvent : Type 0 where
  pub time : ℤ
  pub symbol : String
  pub aggregate_trade_id : ℤ
  pub price : String
  pub quantity : String
  pub first_trade_id : ℤ
  pub last_trade_id : ℤ
  pub trade_time : ℤ
  pub maker : Bool

pub record WsDepthEvent : Type 0 where
  pub time : ℤ
  pub transaction_time : ℤ
  pub symbol : String
  pub first_update_id : ℤ
  pub last_update_id : ℤ
  pub prev_last_update_id : ℤ
  pub bids : List BookLevel
  pub asks : List BookLevel

pub record WsKline : Type 0 where
  pub start_time : ℤ
  pub end_time : ℤ
  pub interval : String
  pub first_trade_id : ℤ
  pub last_trade_id : ℤ
  pub opening : String
  pub close : String
  pub high : String
  pub low : String
  pub volume : String
  pub trade_num : ℤ
  pub is_final : Bool
  pub quote_volume : String
  pub active_buy_volume : String
  pub active_buy_quote_volume : String

pub record WsKlineEvent : Type 0 where
  pub time : ℤ
  pub symbol : String
  pub kline : WsKline

pub record WsTradeEvent : Type 0 where
  pub event : String
  pub time : ℤ
  pub symbol : String
  pub trade_id : ℤ
  pub price : String
  pub quantity : String
  pub buyer_order_id : ℤ
  pub seller_order_id : ℤ
  pub trade_time : ℤ
  pub is_buyer_maker : Bool
  pub placeholder : Bool

pub record DepthResponse : Type 0 where
  pub last_update_id : ℤ
  pub time : ℤ
  pub trade_time : ℤ
  pub bids : List BookLevel
  pub asks : List BookLevel

unfoldable pub quote_level : BookLevel → AskPrice
quote_level l = record { price = l.price; qty = l.quantity }

-- `core.Message{Type: MessageType_Quote, Payload: QuoteMessage{..}}`; the other fields are left at
-- their zero values.
unfoldable pub quote_message : QuoteDataType → QuoteData → Message
quote_message kind content = record {
  kind = MessageType.quote;
  ts = 0;
  seq_no = 0;
  req_no = "";
  sender = "";
  live_time = 0;
  payload = of_quote (record { kind = kind; exchange = ExchangeType.binance; content = content });
}

unfoldable pub agg_trade_of : WsAggTradeEvent → QuoteAggTrade
agg_trade_of e = record {
  time = e.time;
  symbol = e.symbol;
  aggregate_trade_id = e.aggregate_trade_id;
  price = e.price;
  quantity = e.quantity;
  first_trade_id = e.first_trade_id;
  last_trade_id = e.last_trade_id;
  trade_time = e.trade_time;
  maker = e.maker;
}

unfoldable pub on_ws_agg_trade_event : WsAggTradeEvent → Message
unfolding quote_message agg_trade_of
on_ws_agg_trade_event e =
    quote_message QuoteDataType.agg_trade (QuoteData.of_agg_trade (agg_trade_of e))

unfoldable pub depth_of : WsDepthEvent → QuoteDepth
unfolding quote_level
depth_of e = record {
  time = e.time;
  transaction_time = e.transaction_time;
  symbol = e.symbol;
  first_update_id = e.first_update_id;
  last_update_id = e.last_update_id;
  prev_last_update_id = e.prev_last_update_id;
  bids = map quote_level e.bids;
  asks = map quote_level e.asks;
}

unfoldable pub on_ws_depth_event : WsDepthEvent → Message
unfolding quote_message depth_of
on_ws_depth_event e = quote_message QuoteDataType.depth (QuoteData.of_depth (depth_of e))

unfoldable pub kline_of : WsKlineEvent → QuoteKline
kline_of e = record {
  time = e.time;
  start_time = (e.kline).start_time;
  end_time = (e.kline).end_time;
  symbol = e.symbol;
  interval = (e.kline).interval;
  first_trade_id = (e.kline).first_trade_id;
  last_trade_id = (e.kline).last_trade_id;
  opening = (e.kline).opening;
  close = (e.kline).close;
  high = (e.kline).high;
  low = (e.kline).low;
  volume = (e.kline).volume;
  trade_num = (e.kline).trade_num;
  is_final = (e.kline).is_final;
  quote_volume = (e.kline).quote_volume;
  active_buy_volume = (e.kline).active_buy_volume;
  active_buy_quote_volume = (e.kline).active_buy_quote_volume;
}

unfoldable pub on_ws_kline_event : WsKlineEvent → Message
unfolding quote_message kline_of
on_ws_kline_event e = quote_message QuoteDataType.kline (QuoteData.of_kline (kline_of e))

unfoldable pub increment_of : WsDepthEvent → QuoteOrbIncr
unfolding quote_level
increment_of e = record {
  time = e.time;
  transaction_time = e.transaction_time;
  symbol = e.symbol;
  first_update_id = e.first_update_id;
  last_update_id = e.last_update_id;
  prev_last_update_id = e.prev_last_update_id;
  bids = map quote_level e.bids;
  asks = map quote_level e.asks;
}

unfoldable pub on_ws_orb_inc_depth_event : WsDepthEvent → Message
unfolding quote_message increment_of
on_ws_orb_inc_depth_event e =
    quote_message QuoteDataType.order_increment (QuoteData.of_order_increment (increment_of e))

unfoldable pub trade_of : WsTradeEvent → QuoteTrade
trade_of e = record {
  event = e.event;
  time = e.time;
  symbol = e.symbol;
  trade_id = e.trade_id;
  price = e.price;
  quantity = e.quantity;
  buyer_order_id = e.buyer_order_id;
  seller_order_id = e.seller_order_id;
  trade_time = e.trade_time;
  is_buyer_maker = e.is_buyer_maker;
  placeholder = e.placeholder;
}

unfoldable pub on_ws_trade_event : WsTradeEvent → Message
unfolding quote_message trade_of
on_ws_trade_event e = quote_message QuoteDataType.trade (QuoteData.of_trade (trade_of e))

unfoldable pub snapshot_of : String → DepthResponse → QuoteSnapShot
unfolding quote_level
snapshot_of symbol res = record {
  symbol = symbol;
  last_update_id = res.last_update_id;
  time = res.time;
  trade_time = res.trade_time;
  bids = map quote_level res.bids;
  asks = map quote_level res.asks;
}

-- The message of `snapshot`, once the exchange has answered.
unfoldable pub snapshot_message : String → DepthResponse → Message
unfolding quote_message snapshot_of
snapshot_message symbol res =
    quote_message QuoteDataType.snapshot (QuoteData.of_snapshot (snapshot_of symbol res))
