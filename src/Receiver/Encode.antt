-- ===== src/Receiver/Encode.antt =====
-- encodePb and encodeGob of cmd/QuoteRecvSerivce/fanout.go. The encoders of gob, flate and protobuf are
-- an interface. What is set of TradeInfo, IncrementOrderBookInfo and SnapShotInfo here is what the
-- aggregator sets of them in MarshallPb.
use Prim.Native.String.{◌++◌ as join}
use gobinace_qaggr_qrecv.Prelude.{ℤ, String, Bool, true, Option, none, some, List, [], ◌∷◌, map}
use gobinace_qaggr_qrecv.Quote.{
  QuoteDepth, QuoteKline, QuoteAggTrade, QuoteData, QuoteDataType, Message, MessageType, Payload,
  of_quote,
}
use gobinace_qaggr_qrecv.Marshal.{
  Floats, PriceLevel, TradeInfo, IncrementOrderBookInfo, SnapShotInfo, float_or_zero, price_level,
  trade_info, inc_info, snapshot_info,
}
use gobinace_qaggr_qrecv.WsServer.Header.{Bytes}

-- The bytes, `none` for nil, and the topic.
abbrev pub Encoded : Type 0
Encoded = Option Bytes × Option String

module _ ⦃F : Floats⦄ where
  pub record DepthInfo : Type 0 where
    pub timestamp : ℤ
    pub trans_ts : ℤ
    pub first_update_id : ℤ
    pub last_update_id : ℤ
    pub prev_last_update_id : ℤ
    pub bids : List PriceLevel
    pub asks : List PriceLevel

  pub record KlineInfo : Type 0 where
    pub timestamp : ℤ
    pub start_time : ℤ
    pub end_time : ℤ
    pub symbol : String
    pub interval : String
    pub first_trade_id : ℤ
    pub last_trade_id : ℤ
    pub opening : F.Float
    pub close : F.Float
    pub high : F.Float
    pub low : F.Float
    pub volume : F.Float
    pub trade_num : ℤ
    pub is_final : Bool
    pub quote_volume : F.Float
    pub active_buy_volume : F.Float
    pub active_buy_quote_volume : F.Float

  pub record AggTradeInfo : Type 0 where
    pub timestamp : ℤ
    pub symbol : String
    pub aggregate_trade_id : ℤ
    pub price : F.Float
    pub quantity : F.Float
    pub first_trade_id : ℤ
    pub last_trade_id : ℤ
    pub trade_time : ℤ
    pub maker : Bool

  -- The messages that are marshalled.
  pub data PbInfo : Type 0 where
    of_depth_info : DepthInfo → PbInfo
    of_inc_info : IncrementOrderBookInfo → PbInfo
    of_trade_info : TradeInfo → PbInfo
    of_snapshot_info : SnapShotInfo → PbInfo
    of_kline_info : KlineInfo → PbInfo
    of_agg_trade_info : AggTradeInfo → PbInfo

  -- The encoders; `none` is an error. Where gob fails it may have written something: the second
  -- part says whether it succeeds.
  pub record Encoders : Type 0 where
    pub gob : Message → Bytes × Bool
    pub deflate : Bytes → Option Bytes
    pub marshal : PbInfo → Option Bytes

  unfoldable pub depth_info : QuoteDepth → DepthInfo
  unfolding price_level
  depth_info d = record {
    timestamp = d.time;
    trans_ts = d.transaction_time;
    first_update_id = d.first_update_id;
    last_update_id = d.last_update_id;
    prev_last_update_id = d.prev_last_update_id;
    bids = map price_level d.bids;
    asks = map price_level d.asks;
  }

  unfoldable pub kline_info : QuoteKline → KlineInfo
  unfolding float_or_zero
  kline_info k = record {
    timestamp = k.time;
    start_time = k.start_time;
    end_time = k.end_time;
    symbol = k.symbol;
    interval = k.interval;
    first_trade_id = k.first_trade_id;
    last_trade_id = k.last_trade_id;
    opening = float_or_zero k.opening;
    close = float_or_zero k.close;
    high = float_or_zero k.high;
    low = float_or_zero k.low;
    volume = float_or_zero k.volume;
    trade_num = k.trade_num;
    is_final = k.is_final;
    quote_volume = float_or_zero k.quote_volume;
    active_buy_volume = float_or_zero k.active_buy_volume;
    active_buy_quote_volume = float_or_zero k.active_buy_quote_volume;
  }

  unfoldable pub agg_trade_info : QuoteAggTrade → AggTradeInfo
  unfolding float_or_zero
  agg_trade_info a = record {
    timestamp = a.time;
    symbol = a.symbol;
    aggregate_trade_id = a.aggregate_trade_id;
    price = float_or_zero a.price;
    quantity = float_or_zero a.quantity;
    first_trade_id = a.first_trade_id;
    last_trade_id = a.last_trade_id;
    trade_time = a.trade_time;
    maker = a.maker;
  }

  -- `res, err = proto.Marshal(&info)`, and the topic if there is no error.
  unfoldable pub marshalled : Encoders → String → String → PbInfo → Encoded
  marshalled enc prefix symbol info = elim (enc.marshal info) [
    | none ↦ (none, none)
    | some bs ↦ (some bs, some (join prefix symbol))
  ]

  unfoldable pub encode_quote : Encoders → QuoteDataType → QuoteData → Encoded
  unfolding marshalled depth_info inc_info trade_info snapshot_info kline_info agg_trade_info
  encode_quote enc QuoteDataType.depth (QuoteData.of_depth d) =
      marshalled enc "depth/" d.symbol (of_depth_info (depth_info d))
  encode_quote enc QuoteDataType.order_increment (QuoteData.of_order_increment i) =
      marshalled enc "inc/" i.symbol (of_inc_info (inc_info i))
  encode_quote enc QuoteDataType.trade (QuoteData.of_trade t) =
      marshalled enc "trade/" t.symbol (of_trade_info (trade_info t))
  encode_quote enc QuoteDataType.snapshot (QuoteData.of_snapshot s) =
      marshalled enc "snapshot/" s.symbol (of_snapshot_info (snapshot_info s))
  encode_quote enc QuoteDataType.kline (QuoteData.of_kline k) =
      marshalled enc "kline/" k.symbol (of_kline_info (kline_info k))
  encode_quote enc QuoteDataType.agg_trade (QuoteData.of_agg_trade a) =
      marshalled enc "aggtrade/" a.symbol (of_agg_trade_info (agg_trade_info a))
  encode_quote enc _ _ = (none, none)

  unfoldable pub encode_payload : Encoders → MessageType → Payload → Encoded
  unfolding encode_quote
  encode_payload enc MessageType.quote (of_quote q) = encode_quote enc q.kind q.content
  encode_payload enc _ _ = (none, none)

  unfoldable pub encode_pb : Encoders → Message → Encoded
  unfolding encode_payload
  encode_pb enc msg = encode_payload enc msg.kind msg.payload

  -- `Bytes()` of a buffer: nil if nothing was written.
  unfoldable pub bytes_of : Bytes → Option Bytes
  bytes_of [] = none
  bytes_of (b ∷ bs) = some (b ∷ bs)

  unfoldable pub deflated : Encoders → Bool → Bytes × Bool → Bytes
  deflated enc true (bs, true) = elim (enc.deflate bs) [ none ↦ bs | some z ↦ z ]
  deflated enc compressed (bs, ok) = bs

  unfoldable pub encode_gob : Encoders → Bool → Message → Encoded
  unfolding bytes_of deflated
  encode_gob enc compressed msg = (bytes_of (deflated enc compressed (enc.gob msg)), none)
