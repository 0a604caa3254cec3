-- ===== src/Spout/Samples.antt =====
-- The fan-out of the aggregator at concrete inputs.
use gobinace_qaggr_qrecv.Prelude.{
  ℕ, ◌≡◌, refl, pos, ◌+ℤ◌, ◌-ℤ◌, ◌*ℤ◌, quot, true, false, Option, none, some, List, [], ◌∷◌,
  if◌then◌else◌,
}
use gobinace_qaggr_qrecv.Marshal.{Floats, PeriodMessage, marshall_pb}
use gobinace_qaggr_qrecv.WsServer.Header.{Bytes}
use gobinace_qaggr_qrecv.Aggregation.Node.{Timing, initial_timing, new_period_node}
use gobinace_qaggr_qrecv.Aggregation.Clock.{time_itr, drain, closing, remaining}
use gobinace_qaggr_qrecv.Collector.Round.{
  Config, Collector, Readings, Outcome, born_of, period_of, collect, find_born, is_zero, visit,
  visited_more, info_of, publish,
}
use gobinace_qaggr_qrecv.Setup.Start.{ok, panicked, ◌>>=◌}
use gobinace_qaggr_qrecv.Spout.Producers.{
  Destination, Sockets, zmq_frame, kafka_message, init_producers, open_producers, send_infos,
  send_message,
}
use gobinace_qaggr_qrecv.Spout.Delivery.{all_known, deliveries, collect-delivers}

instance abbrev sample_timing : Timing
sample_timing = initial_timing

instance abbrev sample_floats : Floats
sample_floats = record { Float = ℕ; zero_float = 0; parse_float = λ s. some 1 }

abbrev settings : Config
settings = record { thunder_id = "qas1"; skip_empty_quote = false; mon_enable = true }

abbrev running : Collector
running = record {
  period_symbols =
      (
        "BTCUSDT",
        record {
          name = "BTCUSDT";
          linked = new_period_node (pos 1704067200000) ∷ new_period_node (pos 1704067203000) ∷ [];
          pending_inc = [];
          pending_trade = [];
          pending_snapshot = [];
        },
      )
      ∷ [];
  last_period_ts = pos 1704067200;
}

abbrev reading : Readings
reading = record {
  now = pos 1704067204401;
  unix = pos 1704067204;
  later = pos 1704067204;
  post_ts = pos 1704067204401;
}

abbrev no_message : PeriodMessage
no_message = record {
  period = pos 0;
  ts = pos 0;
  post_ts = pos 0;
  poster_id = "";
  symbol_infos = [];
}

abbrev outcome_in : Option Outcome → Outcome
outcome_in none = record { state = running; published = none; warned = false }
outcome_in (some o) = o

abbrev message_in : Option PeriodMessage → PeriodMessage
message_in none = no_message
message_in (some pm) = pm

abbrev outcome : Outcome
outcome = outcome_in (collect settings reading running)

abbrev marshal : PeriodMessage → Option Bytes
marshal pm = some (7 ∷ [])

abbrev socks : Sockets
socks = record {
  new_sock = λ s. true;
  connects = λ s. true;
  bytes_of = λ t. 1 ∷ [];
  sends = λ s m bs. true;
  writes = λ s t bs. true;
}

abbrev destinations : List Destination
destinations =
    record { name = "zmq"; enable = true; server = "tcp://a"; topic = "t" }
    ∷ record { name = "amqp"; enable = false; server = "tcp://b"; topic = "t" }
    ∷ record { name = "kafka"; enable = true; server = "c"; topic = "t" }
    ∷ []

collect-delivers_example :
    (init_producers socks destinations [] >>= λ ps.
    open_producers ps >>= λ qs. send_message socks marshal (message_in outcome.published) qs)
    ≡ (if all_known destinations then ok (deliveries socks (7 ∷ []) destinations) else panicked)
unfolding ◌+ℤ◌ ◌-ℤ◌ ◌*ℤ◌ quot collect find_born is_zero born_of period_of visit visited_more info_of
    publish time_itr new_period_node closing remaining drain marshall_pb
collect-delivers_example =
    collect-delivers socks destinations marshal settings reading running outcome
      (message_in outcome.published) (7 ∷ []) (λ s. (refl, refl)) (λ s m bs. refl, λ s t bs. refl)
      refl refl refl

destinations-run :
    (init_producers socks destinations [] >>= λ ps. open_producers ps >>= λ qs.
    send_infos socks
      (some (7 ∷ []))
      (record { symbol = "A"; trades = []; incs = []; snaps = [] } ∷ [])
      qs)
    ≡ ok (
        zmq_frame "tcp://a" true (1 ∷ [])
        ∷ zmq_frame "tcp://a" false (7 ∷ [])
        ∷ kafka_message "c" "t" (7 ∷ [])
        ∷ [])
unfolding init_producers open_producers send_infos
destinations-run = refl

-- A destination whose sends fail gets nothing, and the others are served all the same.
destinations-refused :
    (init_producers socks destinations [] >>= λ ps. open_producers ps >>= λ qs.
    send_infos
      (record socks { sends = λ s m bs. false })
      (some (7 ∷ []))
      (record { symbol = "A"; trades = []; incs = []; snaps = [] } ∷ [])
      qs)
    ≡ ok (kafka_message "c" "t" (7 ∷ []) ∷ [])
unfolding init_producers open_producers send_infos
destinations-refused = refl
