-- ===== src/Quote.antt =====
-- core/quote.go and the message envelope of core/transport.go: the market data that the receiver
-- sends and the aggregator takes in. An `int64` is the integer that it denotes.
pub mod Ids
use gobinace_qaggr_qrecv.Prelude.{ℕ, ℤ, String, Bool, List}
use Ids.{Key, format_int}

-- BidPrice is declared as AskPrice.
pub record AskPrice : Type 0 where
  pub price : String
  pub qty : String

abbrev pub BidPrice : Type 0
BidPrice = AskPrice

pub record QuoteDepth : Type 0 where
  pub time : ℤ
  pub transaction_time : ℤ
  pub symbol : String
  pub first_update_id : ℤ
  pub last_update_id : ℤ
  pub prev_last_update_id : ℤ
  pub bids : List BidPrice
  pub asks : List AskPrice

pub record QuoteSnapShot : Type 0 where
  pub symbol : String
  pub last_update_id : ℤ
  pub time : ℤ
  pub trade_time : ℤ
  pub bids : List BidPrice
  pub asks : List AskPrice

pub record QuoteTrade : Type 0 where
  pub event : String
  pub time : ℤ
  pub symbol : String
  pub trade_id : ℤ
  pub price : String
  pub quantity : String
  pub buyer_order_id : ℤ
  pub seller_order_id : ℤ
  pub trade_time : ℤ
  pub is_buyer_maker : Bool
  pub placeholder : Bool

pub record QuoteOrbIncr : Type 0 where
  pub time : ℤ
  pub transaction_time : ℤ
  pub symbol : String
  pub first_update_id : ℤ
  pub last_update_id : ℤ
  pub prev_last_update_id : ℤ
  pub bids : List BidPrice
  pub asks : List AskPrice

pub record QuoteKline : Type 0 where
  pub time : ℤ
  pub start_time : ℤ
  pub end_time : ℤ
  pub symbol : String
  pub interval : String
  pub first_trade_id : ℤ
  pub last_trade_id : ℤ
  pub opening : String
  pub close : String
  pub high : String
  pub low : String
  pub volume : String
  pub trade_num : ℤ
  pub is_final : Bool
  pub quote_volume : String
  pub active_buy_volume : String
  pub active_buy_quote_volume : String

pub record QuoteAggTrade : Type 0 where
  pub time : ℤ
  pub symbol : String
  pub aggregate_trade_id : ℤ
  pub price : String
  pub quantity : String
  pub first_trade_id : ℤ
  pub last_trade_id : ℤ
  pub trade_time : ℤ
  pub maker : Bool

-- The constants QuoteDataType_*, in the order of their numbers.
pub data QuoteDataType : Type 0 where
  unknown depth trade kline ticker index order_increment snapshot agg_trade : QuoteDataType

-- What the program puts into `Data interface{}`; `other` is any type that no case expects.
pub data QuoteData : Type 0 where
  of_depth : QuoteDepth → QuoteData
  of_trade : QuoteTrade → QuoteData
  of_kline : QuoteKline → QuoteData
  of_order_increment : QuoteOrbIncr → QuoteData
  of_snapshot : QuoteSnapShot → QuoteData
  of_agg_trade : QuoteAggTrade → QuoteData
  other : QuoteData

pub data ExchangeType : Type 0 where
  binance okex huobi bitmex bitfinex coinbase : ExchangeType

pub record QuoteMessage : Type 0 where
  pub kind : QuoteDataType
  pub exchange : ExchangeType
  pub content : QuoteData

pub data MessageType : Type 0 where
  unknown quote command : MessageType

-- `Payload interface{}`: a quote, or a value of another type.
pub data Payload : Type 0 where
  of_quote : QuoteMessage → Payload
  other : Payload

pub record Message : Type 0 where
  pub kind : MessageType
  pub ts : ℕ
  pub seq_no : ℕ
  pub req_no : String
  pub sender : String
  pub live_time : ℕ
  pub payload : Payload

unfoldable pub trade_key : QuoteTrade → Key
trade_key t = format_int t.trade_id

unfoldable pub inc_key : QuoteOrbIncr → Key
inc_key t = format_int t.time

unfoldable pub snapshot_key : QuoteSnapShot → Key
snapshot_key s = format_int s.time
