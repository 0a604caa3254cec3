-- ===== src/Receiver/Path.antt =====
-- From an event at the receiver to the state of the aggregator: fanout of
-- cmd/QuoteRecvSerivce/fanout.go, the loop of QuoteReceiver in cmd/QuoteAggrService/market_drain.go, which
-- hands on the first part of a message, and onQuoteDataRecv.
use gobinace_qaggr_qrecv.Prelude.{
  ℕ, String, Bool, true, false, Option, none, some, List, [], ◌∷◌, ◌==◌, ==_iff, if◌then◌else◌, ◌≡◌,
  refl, Bool-cases, inl, inr,
}
use gobinace_qaggr_qrecv.Quote.{Message}
use gobinace_qaggr_qrecv.Quote.Ids.{key_eq}
use gobinace_qaggr_qrecv.Marshal.{Floats}
use gobinace_qaggr_qrecv.Aggregation.Node.{Timing}
use gobinace_qaggr_qrecv.Aggregation.Put.{put_trade, put_inc, put_snapshot}
use gobinace_qaggr_qrecv.Aggregation.Drain.{Has}
use gobinace_qaggr_qrecv.Collector.Table.{Table, on_symbol, on_quote_data_recv}
use gobinace_qaggr_qrecv.WsServer.Header.{Bytes}
use gobinace_qaggr_qrecv.Receiver.Events.{
  WsTradeEvent, WsDepthEvent, DepthResponse, trade_of, increment_of, snapshot_of, on_ws_trade_event,
  on_ws_orb_inc_depth_event, on_ws_depth_event, snapshot_message,
}
use gobinace_qaggr_qrecv.Receiver.Encode.{Encoders, encode_gob, bytes_of, deflated}
use gobinace_qaggr_qrecv.Receiver.Fanout.{
  Settings, Part, topic_part, data_part, Frame, frames_for, frames_to_all, publish, encode_message,
  fanout, to_upper,
}

-- `msg[0]` of the first message that a socket gets: a frame whose SendBytes fails does not leave.
unfoldable pub first_part {ℓ} : {E : Type ℓ} → (Frame → Option E) → ℕ → List Frame → Option Part
first_part answer dest [] = none
first_part answer dest (f ∷ fs) =
    let rest = first_part answer dest fs in
    if f.dest == dest then elim (answer f) [ none ↦ some f.part | some e ↦ rest ] else rest

-- No SendBytes to this socket fails.
abbrev pub AllAccepted {ℓ} : {E : Type ℓ} → (Frame → Option E) → ℕ → Type ℓ
AllAccepted answer dest = (f : Frame) → f.dest ≡ dest → answer f ≡ none

-- The bytes that are handed to onQuoteDataRecv; `text` gives the bytes of a topic.
abbrev pub part_bytes : (String → Bytes) → Part → Bytes
part_bytes text (topic_part t) = text t
part_bytes text (data_part bs) = bs

abbrev whole_frame : Bytes → ℕ → Frame
whole_frame content d = record { dest = d; more = false; part = data_part content }

first_part-frames {ℓ} :
    {E : Type ℓ} (answer : Frame → Option E) (dest : ℕ) (content : Bytes) (producers : List ℕ)
    → AllAccepted answer dest
    → Has dest producers
    → first_part answer dest (frames_to_all none content producers) ≡ some (data_part content)
unfolding first_part frames_to_all frames_for
first_part-frames answer dest content [] a h = absurd h
first_part-frames answer dest content (d ∷ ds) a (inl e) =
    rw ((==_iff d dest).1 e, a (whole_frame content d) e) refl
first_part-frames answer dest content (d ∷ ds) a (inr h) =
    let rest = first_part-frames answer dest content ds a h in
    elim (Bool-cases (d == dest)) [
      | inl e ↦ rw (e, a (whole_frame content d) ((==_iff d dest).0 e)) refl
      | inr e ↦ rw e rest
    ]

module _ ⦃F : Floats⦄ where
  -- What gob promises of a message of registered types: encoding succeeds, and decoding gives the
  -- message back.
  abbrev pub GivesBack : Encoders → (Bytes → Option Message) → Message → Type 0
  GivesBack enc decode m =
      (b : ℕ) × (bs : Bytes) × (enc.gob m ≡ (b ∷ bs, true)) × (decode (b ∷ bs) ≡ some m)

module _ ⦃τ : Timing⦄ where
  -- The aggregator behind a socket, after what was sent to it.
  unfoldable pub receive {ℓ} :
      {E : Type ℓ}
      → (Bytes → Option Message)
      → (String → Bytes)
      → (Frame → Option E)
      → ℕ
      → List Frame
      → Table
      → Table
  receive decode text answer dest frames table = elim (first_part answer dest frames) [
    | none ↦ table
    | some p ↦ on_quote_data_recv (decode (part_bytes text p)) table
  ]

module _ ⦃τ : Timing⦄ ⦃F : Floats⦄ where
  arrives {ℓ} :
      {E : Type ℓ} (enc : Encoders) (decode : Bytes → Option Message) (text : String → Bytes)
      (answer : Frame → Option E) (cfg : Settings) (producers : List ℕ) (dirty : Bool) (dest : ℕ)
      (m : Message) (table : Table)
      → GivesBack enc decode m
      → to_upper cfg.data_encode_type ≡ b'G' ∷ b'O' ∷ b'B' ∷ []
      → cfg.data_compressed ≡ false
      → AllAccepted answer dest
      → Has dest producers
      → receive decode text answer dest (fanout enc answer cfg producers dirty m).frames table
        ≡ on_quote_data_recv (some m) table
  unfolding receive fanout encode_message publish encode_gob bytes_of deflated key_eq
  arrives enc decode text answer cfg producers dirty dest m table g kind plain a h =
      rw (kind, plain, g.2)
        (rw (receive, first_part-frames answer dest (g.0 ∷ g.1) producers a h) (rw (g.3) refl))

  -- The receiver encodes by gob and does not compress, gob gives back what is encoded, the socket of the
  -- aggregator is one of those that the receiver sends to, and no SendBytes to it fails. Then every
  -- trade, depth increment and snapshot that is published is put into the aggregator's symbol of its
  -- name, with the fields that the exchange sent, and a depth event leaves the aggregator as it is.
  pub events-arrive {ℓ} :
      {E : Type ℓ} (enc : Encoders) (decode : Bytes → Option Message) (text : String → Bytes)
      (answer : Frame → Option E) (cfg : Settings) (producers : List ℕ) (dirty : Bool) (dest : ℕ)
      (t : WsTradeEvent) (i d : WsDepthEvent) (symbol : String) (q : DepthResponse) (table : Table)
      → GivesBack enc decode (on_ws_trade_event t)
      → GivesBack enc decode (on_ws_orb_inc_depth_event i)
      → GivesBack enc decode (snapshot_message symbol q)
      → GivesBack enc decode (on_ws_depth_event d)
      → to_upper cfg.data_encode_type ≡ b'G' ∷ b'O' ∷ b'B' ∷ []
      → cfg.data_compressed ≡ false
      → AllAccepted answer dest
      → Has dest producers
      → (let got : Message → Table = λ m.
            receive decode text answer dest
              (fanout enc answer cfg producers dirty m).frames
              table in
          (got (on_ws_trade_event t) ≡ on_symbol t.symbol (λ s. put_trade s (trade_of t)) table)
          × (got (on_ws_orb_inc_depth_event i)
              ≡ on_symbol i.symbol (λ s. put_inc s (increment_of i)) table)
          × (got (snapshot_message symbol q)
              ≡ on_symbol symbol (λ s. put_snapshot s (snapshot_of symbol q)) table)
          × (got (on_ws_depth_event d) ≡ table))
  unfolding on_ws_trade_event on_ws_orb_inc_depth_event on_ws_depth_event snapshot_message
      on_quote_data_recv trade_of increment_of snapshot_of
  events-arrive enc decode text answer cfg producers dirty dest t i d symbol q table gt gi gq gd
        kind plain a h =
      let go = arrives enc decode text answer cfg producers dirty dest in
      (
        go (on_ws_trade_event t) table gt kind plain a h,
        go (on_ws_orb_inc_depth_event i) table gi kind plain a h,
        go (snapshot_message symbol q) table gq kind plain a h,
        go (on_ws_depth_event d) table gd kind plain a h,
      )
