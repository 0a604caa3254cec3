-- ===== src/Receiver/Samples.antt =====
-- The way of four events from the receiver to the aggregator, at concrete inputs.
use gobinace_qaggr_qrecv.Prelude.{
  ℕ, pos, true, false, Option, none, some, [], ◌∷◌, ◌≡◌, refl, inl, inr, ◌==◌, if◌then◌else◌,
}
use gobinace_qaggr_qrecv.Quote.{Message, of_quote, QuoteData}
use gobinace_qaggr_qrecv.Marshal.{Floats}
use gobinace_qaggr_qrecv.Aggregation.Node.{Timing}
use gobinace_qaggr_qrecv.Aggregation.Put.{put_trade, put_inc, put_snapshot}
use gobinace_qaggr_qrecv.Collector.Table.{Table, on_symbol, update_aggr_symbols}
use gobinace_qaggr_qrecv.WsServer.Header.{Bytes}
use gobinace_qaggr_qrecv.Receiver.Events.{
  WsTradeEvent, WsDepthEvent, DepthResponse, trade_of, increment_of, snapshot_of, on_ws_trade_event,
  on_ws_orb_inc_depth_event, on_ws_depth_event, snapshot_message,
}
use gobinace_qaggr_qrecv.Receiver.Encode.{Encoders, encode_gob}
use gobinace_qaggr_qrecv.Quote.Ids.{key_eq}
use gobinace_qaggr_qrecv.Receiver.Fanout.{
  Settings, Frame, fanout, to_upper, encode_message, publish, frames_to_all, frames_for,
}
use gobinace_qaggr_qrecv.Receiver.Path.{receive, first_part, events-arrive}

instance abbrev sample_timing : Timing
sample_timing = record { period = pos 3000; detach = pos 1400 }

-- Every text is read as the number 1.
instance abbrev sample_floats : Floats
sample_floats = record { Float = ℕ; zero_float = 0; parse_float = λ s. some 1 }

abbrev trade_event : WsTradeEvent
trade_event = record {
  event = "trade";
  time = pos 3500;
  symbol = "BTCUSDT";
  trade_id = pos 7;
  price = "1.0";
  quantity = "2.0";
  buyer_order_id = pos 1;
  seller_order_id = pos 2;
  trade_time = pos 3499;
  is_buyer_maker = true;
  placeholder = false;
}

abbrev depth_event : WsDepthEvent
depth_event = record {
  time = pos 3600;
  transaction_time = pos 3599;
  symbol = "BTCUSDT";
  first_update_id = pos 1;
  last_update_id = pos 2;
  prev_last_update_id = pos 0;
  bids = record { price = "1.0"; quantity = "3.0" } ∷ [];
  asks = [];
}

abbrev answer_of_exchange : DepthResponse
answer_of_exchange = record {
  last_update_id = pos 2;
  time = pos 3700;
  trade_time = pos 3699;
  bids = [];
  asks = [];
}

-- A code with one byte for the type of the quote; it is read back as one of the four messages.
abbrev kind_byte : Message → ℕ
kind_byte m = elim m.payload [
  | of_quote q ↦ elim q.content [
    | QuoteData.of_trade t ↦ 1
    | QuoteData.of_order_increment i ↦ 2
    | QuoteData.of_snapshot s ↦ 3
    | _ ↦ 4
  ]
  | _ ↦ 4
]

abbrev one_byte_code : Encoders
one_byte_code = record {
  gob = λ m. (kind_byte m ∷ [], true);
  deflate = λ bs. none;
  marshal = λ info. none;
}

abbrev decode_byte : Bytes → Option Message
decode_byte [] = none
decode_byte (b ∷ bs) =
    if b == 1
    then some (on_ws_trade_event trade_event)
    else if b == 2
    then some (on_ws_orb_inc_depth_event depth_event)
    else if b == 3
    then some (snapshot_message "BTCUSDT" answer_of_exchange)
    else some (on_ws_depth_event depth_event)

abbrev settings : Settings
settings = record { data_encode_type = b'g' ∷ b'o' ∷ b'b' ∷ []; data_compressed = false }

abbrev table : Table
table = update_aggr_symbols ("BTCUSDT" ∷ [])

-- No call of SendBytes fails.
abbrev accepted : Frame → Option ℕ
accepted f = none

abbrev after_sending : Message → Table
after_sending m =
    receive decode_byte (λ s. []) accepted 5
      (fanout one_byte_code accepted settings (4 ∷ 5 ∷ []) false m).frames table

events-arrive_example :
    (after_sending (on_ws_trade_event trade_event)
      ≡ on_symbol "BTCUSDT" (λ s. put_trade s (trade_of trade_event)) table)
    × (after_sending (on_ws_orb_inc_depth_event depth_event)
        ≡ on_symbol "BTCUSDT" (λ s. put_inc s (increment_of depth_event)) table)
    × (after_sending (snapshot_message "BTCUSDT" answer_of_exchange)
        ≡ on_symbol "BTCUSDT"
            (λ s. put_snapshot s (snapshot_of "BTCUSDT" answer_of_exchange))
            table)
    × (after_sending (on_ws_depth_event depth_event) ≡ table)
unfolding on_ws_trade_event on_ws_orb_inc_depth_event on_ws_depth_event snapshot_message to_upper
events-arrive_example =
    events-arrive one_byte_code decode_byte (λ s. []) accepted settings (4 ∷ 5 ∷ []) false 5
      trade_event depth_event depth_event "BTCUSDT" answer_of_exchange table (1, [], refl, refl)
      (2, [], refl, refl) (3, [], refl, refl) (4, [], refl, refl) refl refl (λ f e. refl)
      (inr (inl refl))

abbrev refused : Frame → Option ℕ
refused f = some 1

-- A frame that is refused does not arrive.
refused-lost :
    receive decode_byte
      (λ s. [])
      refused
      5
      (fanout one_byte_code refused settings
        (4 ∷ 5 ∷ [])
        false
        (on_ws_trade_event trade_event)).frames
      table
    ≡ table
unfolding receive fanout encode_message publish frames_to_all frames_for first_part
    on_ws_trade_event encode_gob to_upper gobinace_qaggr_qrecv.Receiver.Encode.bytes_of
    gobinace_qaggr_qrecv.Receiver.Encode.deflated key_eq
refused-lost = refl
