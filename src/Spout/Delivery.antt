-- ===== src/Spout/Delivery.antt =====
-- From a round of the collector to the destinations of the settings.
use text.Mathlib.Text.{◌==◌ as str_eq}
use gobinace_qaggr_qrecv.Prelude.{
  String, Bool, true, false, ◌&&◌, ◌||◌, not, Option, none, some, List, [], ◌∷◌, ◌++◌,
  if◌then◌else◌, ◌≡◌, refl, ap, sym, ◌∙◌, append_assoc, append-nil, pos, Bool-cases, Option-cases,
  inl, inr,
}
use gobinace_qaggr_qrecv.Marshal.{Floats, PeriodMessage, SymbolInfo}
use gobinace_qaggr_qrecv.WsServer.Header.{Bytes}
use gobinace_qaggr_qrecv.Aggregation.Node.{Timing, period_ms}
use gobinace_qaggr_qrecv.Collector.Round.{
  Config, Readings, Collector, Visited, Outcome, publish, collect, visit, find_born, born_of,
  is_zero,
}
use gobinace_qaggr_qrecv.Setup.Start.{ok, panicked, ◌>>=◌}
use gobinace_qaggr_qrecv.Spout.Producers.{
  Destination, Producer, zmq_producer, kafka_go_producer, nil_producer, Sent, zmq_frame,
  kafka_message, Sockets, new_producer, init_producers, open_producer, open_producers, send_bytes,
  send_all, send_infos, send_message,
}

abbrev pub is_zmq : Destination → Bool
is_zmq d = str_eq d.name "zmq"

abbrev pub is_kafka : Destination → Bool
is_kafka d = str_eq d.name "kafka"

-- Each destination that is enabled has a name that is known.
abbrev pub all_known : List Destination → Bool
all_known [] = true
all_known (d ∷ ds) = (not d.enable || (is_zmq d || is_kafka d)) && all_known ds

-- What a destination is to get.
abbrev pub delivery : Sockets → Bytes → Destination → List Sent
delivery socks bs d =
    if is_zmq d
    then (if str_eq d.topic "" then [] else zmq_frame d.server true (socks.bytes_of d.topic) ∷ [])
      ++ zmq_frame d.server false bs ∷ []
    else kafka_message d.server d.topic bs ∷ []

abbrev pub deliveries : Sockets → Bytes → List Destination → List Sent
deliveries socks bs [] = []
deliveries socks bs (d ∷ ds) =
    if d.enable then delivery socks bs d ++ deliveries socks bs ds else deliveries socks bs ds

-- The producers that are made, and those that are open.
abbrev pub made : Destination → Producer
made d =
    if is_zmq d
    then zmq_producer d.server d.topic true
    else if is_kafka d
    then kafka_go_producer d.server d.topic false
    else nil_producer

abbrev pub all_made : List Destination → List Producer
all_made [] = []
all_made (d ∷ ds) = if d.enable then made d ∷ all_made ds else all_made ds

abbrev pub opened : Destination → Producer
opened d =
    if is_zmq d then zmq_producer d.server d.topic true else kafka_go_producer d.server d.topic true

abbrev pub all_opened : List Destination → List Producer
all_opened [] = []
all_opened (d ∷ ds) = if d.enable then opened d ∷ all_opened ds else all_opened ds

module _ (socks : Sockets) where
  abbrev pub AllConnect : Type 0
  AllConnect = (s : String) → (socks.new_sock s ≡ true) × (socks.connects s ≡ true)

  -- No send fails.
  abbrev pub AllSend : Type 0
  AllSend =
      ((s : String) (more : Bool) (bs : Bytes) → socks.sends s more bs ≡ true)
      × ((s topic : String) (bs : Bytes) → socks.writes s topic bs ≡ true)

  new_producer-made : AllConnect → (d : Destination) → new_producer socks d ≡ ok (made d)
  unfolding new_producer
  new_producer-made h d = elim (Bool-cases (is_zmq d)) [
    | inl z ↦ rw (z, (h d.server).0, (h d.server).1) refl
    | inr z ↦ rw z (elim (Bool-cases (is_kafka d)) [ inl k ↦ rw k refl | inr k ↦ rw k refl ])
  ]

  pub init_producers-made :
      AllConnect
      → (ds : List Destination) (ps : List Producer)
      → init_producers socks ds ps ≡ ok (ps ++ all_made ds)
  unfolding init_producers
  init_producers-made h [] ps = ap ok (sym (append-nil ps))
  init_producers-made h (d ∷ ds) ps = elim (Bool-cases (d.enable)) [
    | inl e ↦
        rw (e, new_producer-made h d, init_producers-made h ds (ps ++ made d ∷ []))
          (ap ok (append_assoc ps (made d ∷ []) (all_made ds)))
    | inr e ↦ rw e (init_producers-made h ds ps)
  ]

  abbrev known : Destination → Bool
  known d = is_zmq d || is_kafka d

  open_producer-made :
      (d : Destination) → open_producer (made d) ≡ (if known d then ok (opened d) else panicked)
  unfolding open_producer
  open_producer-made d = elim (Bool-cases (is_zmq d)) [
    | inl z ↦ rw z refl
    | inr z ↦ rw z (elim (Bool-cases (is_kafka d)) [ inl k ↦ rw k refl | inr k ↦ rw k refl ])
  ]

  pub open_producers-made :
      (ds : List Destination)
      → open_producers (all_made ds) ≡ (if all_known ds then ok (all_opened ds) else panicked)
  unfolding open_producers
  open_producers-made [] = refl
  open_producers-made (d ∷ ds) = elim (Bool-cases (d.enable)) [
    | inr e ↦ rw e (open_producers-made ds)
    | inl e ↦
        rw (e, open_producer-made d, open_producers-made ds)
          (both (known d) (all_known ds) (opened d) (all_opened ds))
  ]
    where
      both :
          (b c : Bool) (q : Producer) (qs : List Producer)
          → ((if b then ok q else panicked) >>= λ q.
              (if c then ok qs else panicked) >>= λ qs. ok (q ∷ qs))
            ≡ (if b && c then ok (q ∷ qs) else panicked)
      both true true q qs = refl
      both true false q qs = refl
      both false c q qs = refl

  send_bytes-opened :
      AllSend
      → (bs : Bytes) (d : Destination) → send_bytes socks bs (opened d) ≡ ok (delivery socks bs d)
  unfolding send_bytes
  send_bytes-opened h bs d = elim (Bool-cases (is_zmq d)) [
    | inl z ↦ rw (z, h.0 d.server true (socks.bytes_of d.topic), h.0 d.server false bs) refl
    | inr z ↦ rw (z, h.1 d.server d.topic bs) refl
  ]

  send_all-opened :
      AllSend
      → (bs : Bytes) (ds : List Destination)
      → send_all socks bs (all_opened ds) ≡ ok (deliveries socks bs ds)
  unfolding send_all
  send_all-opened h bs [] = refl
  send_all-opened h bs (d ∷ ds) = elim (Bool-cases (d.enable)) [
    | inl e ↦ rw (e, send_bytes-opened h bs d, send_all-opened h bs ds) refl
    | inr e ↦ rw e (send_all-opened h bs ds)
  ]

module _ ⦃τ : Timing⦄ ⦃F : Floats⦄ where
  abbrev HasInfos : List SymbolInfo → Type 0
  HasInfos infos = (i : SymbolInfo) × (rest : List SymbolInfo) × (infos ≡ i ∷ rest)

  publish-HasInfos :
      (cfg : Config) (r : Readings) (c : Collector) (v : Visited) (infos : List SymbolInfo)
      (pm : PeriodMessage)
      → (publish cfg r c v infos).published ≡ some pm
      → HasInfos pm.symbol_infos
  unfolding publish
  publish-HasInfos cfg r c v [] pm e = cc
  publish-HasInfos cfg r c v (i ∷ rest) pm e = (i, rest, sym (ap infos_in e))
    where
      infos_in : Option PeriodMessage → List SymbolInfo
      infos_in none = []
      infos_in (some m) = m.symbol_infos

  collect-HasInfos :
      (cfg : Config) (r : Readings) (c : Collector) (o : Outcome) (pm : PeriodMessage)
      → collect cfg r c ≡ some o
      → o.published ≡ some pm
      → HasInfos pm.symbol_infos
  unfolding collect
  collect-HasInfos cfg r c o pm e p = elim (Bool-cases (is_zero period_ms)) [
    | inl z ↦ absurd (let x : none ≡ some o = rw z at e in cc)
    | inr z ↦
        elim (Option-cases (
          visit cfg.skip_empty_quote r.now (find_born c.period_symbols (born_of r.unix))
            c.period_symbols (pos 0))) [
              | inl n ↦ absurd (let x : none ≡ some o = rw (z, n) at e in cc)
              | inr (v, n) ↦
                  let x : some (publish cfg r c v v.infos) ≡ some o = rw (z, n) at e in
                  publish-HasInfos cfg r c v v.infos pm (ap (published_in) x ∙ p)
            ]
  ]
    where
      published_in : Option Outcome → Option PeriodMessage
      published_in none = none
      published_in (some q) = q.published

  send_infos-some :
      (socks : Sockets) (bs : Bytes) (infos : List SymbolInfo) (ps : List Producer)
      → HasInfos infos
      → send_infos socks (some bs) infos ps ≡ send_all socks bs ps
  unfolding send_infos
  send_infos-some socks bs [] ps h = cc h.2
  send_infos-some socks bs (i ∷ rest) ps h = refl

  -- The start of the fan-out and a message that a round of the collector publishes, where the sockets
  -- are made, the message is encoded and no call of SendFrame and WriteMessages fails: it panics exactly
  -- if an enabled destination has a name other than zmq and kafka, whose producer is nil. Else each
  -- enabled destination is sent the encoded message, in the order of the settings, once: a ZeroMQ one as
  -- a frame after its topic, if it has one, a Kafka one under its topic. That the message is about some
  -- symbol, without which the call would panic, is what the collector sees to.
  pub collect-delivers :
      (socks : Sockets) (ds : List Destination) (marshal : PeriodMessage → Option Bytes)
      (cfg : Config) (r : Readings) (c : Collector) (o : Outcome) (pm : PeriodMessage) (bs : Bytes)
      → AllConnect socks
      → AllSend socks
      → collect cfg r c ≡ some o
      → o.published ≡ some pm
      → marshal pm ≡ some bs
      → (init_producers socks ds [] >>= λ ps.
          open_producers ps >>= λ qs. send_message socks marshal pm qs)
        ≡ (if all_known ds then ok (deliveries socks bs ds) else panicked)
  unfolding send_message
  collect-delivers socks ds marshal cfg r c o pm bs h s e p m =
      let i = collect-HasInfos cfg r c o pm e p in
      rw (init_producers-made socks h ds [], open_producers-made socks ds)
        (elim (Bool-cases (all_known ds)) [
          | inl k ↦
              rw (k, m)
                (send_infos-some socks bs pm.symbol_infos (all_opened ds) i
                  ∙ send_all-opened socks s bs ds)
          | inr k ↦ rw k refl
        ])
