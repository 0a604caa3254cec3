-- ===== src/Marshal.antt =====
-- The messages of message/quote_period.pb.go and MarshallPb of cmd/QuoteAggrService/aggregation.go,
-- which turns a closed node into the part of a PeriodMessage that is about its symbol. Floating-point
-- numbers and strconv.ParseFloat are an interface: there are no floats in the model's language.
use gobinace_qaggr_qrecv.Prelude.{ℤ, String, Bool, Option, none, some, List, ◌++◌, map}
use gobinace_qaggr_qrecv.Quote.{AskPrice, QuoteTrade, QuoteOrbIncr, QuoteSnapShot}
use gobinace_qaggr_qrecv.Aggregation.Node.{PeriodNode}

pub record Floats : Type 1 where
  pub Float : Type 0
  pub zero_float : Float
  -- strconv.ParseFloat(s, 64); `none` is an error.
  pub parse_float : String → Option Float

module _ ⦃F : Floats⦄ where
  pub record PriceLevel : Type 0 where
    pub price : F.Float
    pub amount : F.Float

  pub record TradeInfo : Type 0 where
    pub timestamp : ℤ
    pub trade_id : ℤ
    pub price : F.Float
    pub qty : F.Float
    pub buyer_order_id : ℤ
    pub seller_order_id : ℤ
    pub trade_ts : ℤ
    pub is_buyer_maker : Bool
    pub place_holder : Bool

  pub record IncrementOrderBookInfo : Type 0 where
    pub timestamp : ℤ
    pub trans_ts : ℤ
    pub first_update_id : ℤ
    pub last_update_id : ℤ
    pub prev_last_update_id : ℤ
    pub bids : List PriceLevel
    pub asks : List PriceLevel

  pub record SnapShotInfo : Type 0 where
    pub last_update_id : ℤ
    pub timestamp : ℤ
    pub trade_ts : ℤ
    pub bids : List PriceLevel
    pub asks : List PriceLevel

  pub record SymbolInfo : Type 0 where
    pub symbol : String
    pub trades : List TradeInfo
    pub incs : List IncrementOrderBookInfo
    pub snaps : List SnapShotInfo

  pub record PeriodMessage : Type 0 where
    pub period : ℤ
    pub ts : ℤ
    pub post_ts : ℤ
    pub poster_id : String
    pub symbol_infos : List SymbolInfo

  -- A field that is set only if the text parses; it starts as 0.
  unfoldable pub float_or_zero : String → F.Float
  float_or_zero s = elim (F.parse_float s) [ none ↦ F.zero_float | some v ↦ v ]

  unfoldable pub price_level : AskPrice → PriceLevel
  unfolding float_or_zero
  price_level a = record { price = float_or_zero a.price; amount = float_or_zero a.qty }

  unfoldable pub trade_info : QuoteTrade → TradeInfo
  unfolding float_or_zero
  trade_info t = record {
    timestamp = t.time;
    trade_id = t.trade_id;
    price = float_or_zero t.price;
    qty = float_or_zero t.quantity;
    buyer_order_id = t.buyer_order_id;
    seller_order_id = t.seller_order_id;
    trade_ts = t.trade_time;
    is_buyer_maker = t.is_buyer_maker;
    place_holder = t.placeholder;
  }

  unfoldable pub inc_info : QuoteOrbIncr → IncrementOrderBookInfo
  unfolding price_level
  inc_info i = record {
    timestamp = i.time;
    trans_ts = i.transaction_time;
    first_update_id = i.first_update_id;
    last_update_id = i.last_update_id;
    prev_last_update_id = i.prev_last_update_id;
    bids = map price_level i.bids;
    asks = map price_level i.asks;
  }

  unfoldable pub snapshot_info : QuoteSnapShot → SnapShotInfo
  unfolding price_level
  snapshot_info s = record {
    last_update_id = s.last_update_id;
    timestamp = s.time;
    trade_ts = s.trade_time;
    bids = map price_level s.bids;
    asks = map price_level s.asks;
  }

  -- The first two lists are made anew, the snapshots are appended to what is there.
  unfoldable pub marshall_pb : PeriodNode → SymbolInfo → SymbolInfo
  unfolding trade_info inc_info snapshot_info
  marshall_pb n sinfo = record sinfo {
    trades = map trade_info n.trades.index;
    incs = map inc_info n.incs.index;
    snaps = sinfo.snaps ++ map snapshot_info n.snapshots.index;
  }
