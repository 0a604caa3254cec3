-- ===== src/Receiver/Fanout.antt =====
-- `fanout` of cmd/QuoteRecvSerivce/fanout.go: one message, to every socket. A socket is known by a
-- number; what SendBytes answers is an argument.
use gobinace_qaggr_qrecv.Prelude.{
  ℕ, ◌-◌, String, Bool, true, false, ◌&&◌, Option, none, some, List, [], ◌∷◌, ◌++◌, map, leb,
  if◌then◌else◌,
}
use gobinace_qaggr_qrecv.Quote.{Message}
use gobinace_qaggr_qrecv.Quote.Ids.{key_eq}
use gobinace_qaggr_qrecv.Marshal.{Floats}
use gobinace_qaggr_qrecv.WsServer.Header.{Bytes}
use gobinace_qaggr_qrecv.Receiver.Encode.{Encoders, Encoded, encode_gob, encode_pb}

pub record Settings : Type 0 where
  pub data_encode_type : Bytes
  pub data_compressed : Bool

-- strings.ToUpper of a text in ASCII; no other letter has one of G, O, B and P as its upper case, so that
-- for the tests below the text may be any.
unfoldable pub to_upper : Bytes → Bytes
to_upper bs = map (λ c. if leb b'a' c && leb c b'z' then c - 32 else c) bs

pub data Part : Type 0 where
  topic_part : String → Part
  data_part : Bytes → Part

-- A call of SendBytes: the socket, whether more parts follow, and the part.
pub record Frame : Type 0 where
  pub dest : ℕ
  pub more : Bool
  pub part : Part

unfoldable pub frames_for : Option String → Bytes → ℕ → List Frame
frames_for none content dest = record { dest = dest; more = false; part = data_part content } ∷ []
frames_for (some topic) content dest =
    record { dest = dest; more = true; part = topic_part topic }
    ∷ record { dest = dest; more = false; part = data_part content }
    ∷ []

unfoldable pub frames_to_all : Option String → Bytes → List ℕ → List Frame
frames_to_all topic content [] = []
frames_to_all topic content (dest ∷ rest) =
    frames_for topic content dest ++ frames_to_all topic content rest

-- `_, err = dest.SendBytes(..)` for each call in turn.
unfoldable pub last_answer {ℓ} :
    {E : Type ℓ} → (Frame → Option E) → Option E → List Frame → Option E
last_answer answer err [] = err
last_answer answer err (f ∷ fs) = last_answer answer (answer f) fs

-- What a call does: the frames, the error that it returns, and the flag `dirty`.
pub record Published {ℓ} (E : Type ℓ) : Type ℓ where
  pub frames : List Frame
  pub err : Option E
  pub dirty : Bool

unfoldable pub publish {ℓ} :
    {E : Type ℓ} → (Frame → Option E) → List ℕ → Bool → Encoded → Published E
publish answer producers dirty (none, topic) = record { frames = []; err = none; dirty = dirty }
publish answer producers dirty (some content, topic) =
    let frames = frames_to_all topic content producers in
    record { frames = frames; err = last_answer answer none frames; dirty = true }

module _ ⦃F : Floats⦄ where
  unfoldable pub encode_message : Encoders → Settings → Message → Encoded
  encode_message enc cfg msg =
      let kind = to_upper cfg.data_encode_type in
      let gob =
        if key_eq kind (b'G' ∷ b'O' ∷ b'B' ∷ [])
        then encode_gob enc cfg.data_compressed msg
        else (none, none) in
      if key_eq kind (b'P' ∷ b'B' ∷ []) then encode_pb enc msg else gob

  unfoldable pub fanout {ℓ} :
      {E : Type ℓ}
      → Encoders
      → (Frame → Option E)
      → Settings
      → List ℕ
      → Bool
      → Message
      → Published E
  unfolding publish encode_message
  fanout enc answer cfg producers dirty msg =
      publish answer producers dirty (encode_message enc cfg msg)
