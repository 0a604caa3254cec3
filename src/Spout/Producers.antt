-- ===== src/Spout/Producers.antt =====
-- The producers of the package transport, and init, open and send of FanOutManager. What the libraries
-- of ZeroMQ and Kafka answer are arguments; an error of a send is printed or dropped, and nothing leaves.
use text.Mathlib.Text.{◌==◌ as str_eq}
use gobinace_qaggr_qrecv.Prelude.{
  String, Bool, true, false, Option, none, some, List, [], ◌∷◌, ◌++◌, if◌then◌else◌,
}
use gobinace_qaggr_qrecv.Marshal.{Floats, PeriodMessage, SymbolInfo}
use gobinace_qaggr_qrecv.WsServer.Header.{Bytes}
use gobinace_qaggr_qrecv.Setup.Start.{Start, ok, panicked, ◌>>=◌}

-- FanOutDestination of the settings.
pub record Destination : Type 0 where
  pub name : String
  pub enable : Bool
  pub server : String
  pub topic : String

-- A Producer is nil where the name of the destination is unknown. A ZmqProducer has a socket, a
-- KafkaGoProducer a writer, or not yet.
pub data Producer : Type 0 where
  zmq_producer : String → String → Bool → Producer
  kafka_go_producer : String → String → Bool → Producer
  nil_producer : Producer

-- What leaves: a frame, with more to follow or not, or a message under a topic.
pub data Sent : Type 0 where
  zmq_frame : String → Bool → Bytes → Sent
  kafka_message : String → String → Bytes → Sent

-- What the libraries answer at a server, and the bytes of a text.
pub record Sockets : Type 0 where
  pub new_sock : String → Bool
  pub connects : String → Bool
  pub bytes_of : String → Bytes
  pub sends : String → Bool → Bytes → Bool
  pub writes : String → String → Bytes → Bool

-- The producer for a destination.
unfoldable pub new_producer : Sockets → Destination → Start Producer
new_producer socks d =
    if str_eq d.name "zmq"
    then if socks.new_sock d.server
      then if socks.connects d.server then ok (zmq_producer d.server d.topic true) else panicked
      else panicked
    else if str_eq d.name "kafka"
    then ok (kafka_go_producer d.server d.topic false)
    else ok nil_producer

unfoldable pub init_producers : Sockets → List Destination → List Producer → Start (List Producer)
unfolding new_producer
init_producers socks [] ps = ok ps
init_producers socks (d ∷ rest) ps =
    (if d.enable then (new_producer socks d >>= λ p. ok (ps ++ p ∷ [])) else ok ps)
    >>= init_producers socks rest

-- Open of a producer; a call on nil panics.
unfoldable pub open_producer : Producer → Start Producer
open_producer (zmq_producer server topic sock) = ok (zmq_producer server topic sock)
open_producer (kafka_go_producer server topic p) = ok (kafka_go_producer server topic true)
open_producer nil_producer = panicked

unfoldable pub open_producers : List Producer → Start (List Producer)
unfolding open_producer
open_producers [] = ok []
open_producers (p ∷ ps) = do q ← open_producer p; qs ← open_producers ps; ok (q ∷ qs)

-- SendFrame: if it fails, the error is printed.
unfoldable pub send_frame : Sockets → String → Bool → Bytes → List Sent
send_frame socks server more bs =
    if socks.sends server more bs then zmq_frame server more bs ∷ [] else []

-- Send of the two producers.
unfoldable pub send_zmq : Sockets → String → String → Bytes → Bool → List Sent
unfolding send_frame
send_zmq socks server topic content false = []
send_zmq socks server topic content true =
    (if str_eq topic "" then [] else send_frame socks server true (socks.bytes_of topic))
    ++ send_frame socks server false content

unfoldable pub send_kafka : Sockets → String → String → Bytes → Bool → Start (List Sent)
send_kafka socks server topic content false = panicked
send_kafka socks server topic content true =
    ok (if socks.writes server topic content then kafka_message server topic content ∷ [] else [])

unfoldable pub send_bytes : Sockets → Bytes → Producer → Start (List Sent)
unfolding send_zmq send_kafka
send_bytes socks content (zmq_producer server topic sock) =
    ok (send_zmq socks server topic content sock)
send_bytes socks content (kafka_go_producer server topic p) =
    send_kafka socks server topic content p
send_bytes socks content nil_producer = panicked

unfoldable pub send_all : Sockets → Bytes → List Producer → Start (List Sent)
unfolding send_bytes
send_all socks content [] = ok []
send_all socks content (p ∷ ps) = do
  s ← send_bytes socks content p
  rest ← send_all socks content ps
  ok (s ++ rest)

module _ ⦃F : Floats⦄ where
  -- The line that is printed first reads SymbolInfos[0]; the message is encoded, or there is an error.
  unfoldable pub send_infos :
      Sockets → Option Bytes → List SymbolInfo → List Producer → Start (List Sent)
  unfolding send_all
  send_infos socks encoded [] ps = panicked
  send_infos socks none (info ∷ infos) ps = ok []
  send_infos socks (some bs) (info ∷ infos) ps = send_all socks bs ps

  unfoldable pub send_message :
      Sockets → (PeriodMessage → Option Bytes) → PeriodMessage → List Producer → Start (List Sent)
  unfolding send_infos
  send_message socks marshal pm ps = send_infos socks (marshal pm) pm.symbol_infos ps
