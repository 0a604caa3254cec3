-- ===== src/WsServer/Data.antt =====
-- What is queued for the clients: NewWsSendData, the queue of enqueue, and the frame of send in
-- wsserver.go. proto.Marshal and the zlib writer are an interface.
use gobinace_qaggr_qrecv.Prelude.{
  ℕ, zero, suc, ◌+◌, ◌-◌, ◌≤◌, ℤ, pos, ◌*ℤ◌, quot, ltb_ℤ, ltb_ℤ-true, ltb_ℤ-false, Bool, true,
  false, Option, none, some, List, [], ◌∷◌, ◌++◌, length, length-append, length-drop, drop,
  if◌then◌else◌, ◌≡◌, refl, sym, ap, ◌∙◌, arith, append_assoc, append-nil, Bool-cases, inl, inr,
}
use gobinace_qaggr_qrecv.Generic.Split.{drop-drop}
use gobinace_qaggr_qrecv.Marshal.{Floats, PeriodMessage}
use gobinace_qaggr_qrecv.WsServer.Header.{Bytes, encode_header}

pub record WsSendData : Type 0 where
  pub period : ℤ
  pub ts : ℤ
  pub size : ℤ
  pub post_ts : ℤ
  pub content : Bytes

module _ ⦃F : Floats⦄ where
  -- `none` is an error.
  pub record Wire : Type 0 where
    pub marshal : PeriodMessage → Option Bytes
    pub deflate : Bytes → Option Bytes

  -- Where the compression fails the data stays as it is.
  unfoldable pub compressed : Wire → Bool → Bytes → Bytes
  compressed wire false bs = bs
  compressed wire true bs = elim (wire.deflate bs) [ none ↦ bs | some z ↦ z ]

  unfoldable pub new_ws_send_data : Wire → Bool → PeriodMessage → Option WsSendData
  unfolding compressed
  new_ws_send_data wire compress_data pm = elim (wire.marshal pm) [
    | none ↦ none
    | some bs ↦ some (record {
      period = pm.period;
      ts = pm.ts;
      size = pos (length bs);
      post_ts = pos 0;
      content = compressed wire compress_data bs;
    })
  ]

-- `DataCacheTime*60/3`
unfoldable pub queue_limit : ℤ → ℤ
queue_limit data_cache_time = quot (data_cache_time *ℤ pos 60) (pos 3)

-- `PushBack`, and the front goes if there are more than the limit.
unfoldable pub push_queue : ℤ → WsSendData → List WsSendData → List WsSendData
push_queue limit m queue =
    let queue' = queue ++ m ∷ [] in
    if ltb_ℤ limit (pos (length queue')) then drop 1 queue' else queue'

-- The bytes of one websocket message; `now` is the clock in milliseconds. The header always says
-- that the data is compressed.
unfoldable pub frame : Bool → ℤ → WsSendData → Bytes
frame send_msg_hdr now m =
    if send_msg_hdr
    then encode_header (record {
      version = pos 1;
      compress = pos 1;
      period = m.period;
      timestamp = m.ts;
      post_timestamp = now;
    })
      ++ m.content
    else m.content

unfoldable pub push_all : ℤ → List WsSendData → List WsSendData → List WsSendData
push_all limit [] queue = queue
push_all limit (m ∷ ms) queue = push_all limit ms (push_queue limit m queue)

-- The last `n` entries.
abbrev pub last_of : ℕ → List WsSendData → List WsSendData
last_of n ms = drop (length ms - n) ms

drop_one-append :
    (k : ℕ) (xs : List WsSendData) (m : WsSendData)
    → k ≤ length xs
    → drop k (xs ++ m ∷ []) ≡ drop k xs ++ m ∷ []
drop_one-append zero xs m h = refl
drop_one-append (suc k) [] m h = absurd (omega arith)
drop_one-append (suc k) (x ∷ xs) m h = drop_one-append k xs m (omega arith)

push_queue-last_of :
    (n : ℕ) (ms : List WsSendData) (m : WsSendData)
    → push_queue (pos n) m (last_of n ms) ≡ last_of n (ms ++ m ∷ [])
unfolding push_queue
push_queue-last_of n ms m =
    let k = length ms - n in
    let q = drop k ms ++ m ∷ [] in
    let moved = drop_one-append k ms m (omega arith) in
    let size : length q ≡ length ms - k + 1 =
      length-append (drop k ms) (m ∷ []) ∙ ap (λ j. j + 1) (length-drop k ms) in
    let all = length-append ms (m ∷ []) in
    elim (Bool-cases (ltb_ℤ (pos n) (pos (length q)))) [
      | inl h ↦
          let l = ltb_ℤ-true (pos n) (pos (length q)) h in
          rw h (
            ap (drop 1) (sym moved)
            ∙ drop-drop k 1 (ms ++ m ∷ [])
            ∙ ap (λ j. drop j (ms ++ m ∷ [])) {x = k + 1} (omega arith))
      | inr h ↦
          let l = ltb_ℤ-false (pos n) (pos (length q)) h in
          rw h (sym moved ∙ ap (λ j. drop j (ms ++ m ∷ [])) {x = k} (omega arith))
    ]

-- The queue holds the last messages, as many as the limit says, in their order.
pub push_all-last_of :
    (n : ℕ) (ms old : List WsSendData) → push_all (pos n) ms (last_of n old) ≡ last_of n (old ++ ms)
unfolding push_all
push_all-last_of n [] old = ap (last_of n) (sym (append-nil old))
push_all-last_of n (m ∷ ms) old =
    ap (push_all (pos n) ms) (push_queue-last_of n old m)
    ∙ push_all-last_of n ms (old ++ m ∷ [])
    ∙ ap (last_of n) (append_assoc old (m ∷ []) ms)
