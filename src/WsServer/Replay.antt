-- ===== src/WsServer/Replay.antt =====
-- Two ways in which a client of wsserver.go goes wrong: a loop that waits for itself, and a message
-- that comes twice.
use gobinace_qaggr_qrecv.Prelude.{
  ℤ, pos, ◌<ℤ◌, ltb, ltb_ℤ, leb_ℤ, true, false, Option, none, some, List, [], ◌∷◌, ◌++◌, length,
  ◌>>=◌, ◌≡◌, refl, ap, ◌∙◌, Bool-cases, inl, inr, arith,
}
use gobinace_qaggr_qrecv.WsServer.Data.{WsSendData, push_queue}
use gobinace_qaggr_qrecv.WsServer.Client.{
  to_msg, Job, scanning, replaying, flushing, gap, World, Limits, Action, enqueue, scan, replay,
  lock, flush, unlock, sync, take, put, spawn, replayable, send_msg, post_msg, act_job, act_take,
  act_put, act_spawn, act, run,
}
use gobinace_qaggr_qrecv.WsServer.Stages.{Holds, Holds-if}
use gobinace_qaggr_qrecv.Aggregation.Drain.{Has, Has-append_right}

-- The loop holds a message for msgCh, and msgCh is full.
abbrev pub IsFull : Limits → World → Type 0
IsFull lim w = (m : WsSendData) × (w.hand ≡ to_msg m) × (ltb (length w.msg) lim.msg ≡ false)

-- The loop holds a message for msgCh, msgCh is full, and `ms` has been sent.
abbrev pub IsStuck : Limits → List WsSendData → World → Type 0
IsStuck lim ms w = IsFull lim w × (w.sent ≡ ms)

act_job-IsStuck :
    (lim : Limits) (ms : List WsSendData) (a : Action) (j : Job) (w : World)
    → IsStuck lim ms w
    → Holds (IsStuck lim ms) (act_job lim a j w)
unfolding act_job post_msg send_msg
act_job-IsStuck lim ms scan scanning w h = h
act_job-IsStuck lim ms replay (replaying (m ∷ todo)) w h = rw ((h.0).1, (h.0).2) tt
act_job-IsStuck lim ms lock (replaying []) w h = h
act_job-IsStuck lim ms flush (flushing (m ∷ todo)) w h = rw ((h.0).1, (h.0).2) tt
act_job-IsStuck lim ms unlock (flushing []) w h = h
act_job-IsStuck lim ms sync gap w h = h
act_job-IsStuck lim ms a j w h = tt

act-IsStuck :
    (lim : Limits) (ms : List WsSendData) (a : Action) (w : World)
    → IsStuck lim ms w
    → Holds (IsStuck lim ms) (act lim a w)
unfolding act act_take act_put act_spawn send_msg
act-IsStuck lim ms (enqueue m) w h = Holds-if (IsStuck lim ms) (ltb (length w.live) lim.live) _ h
act-IsStuck lim ms take w h = rw ((h.0).1) tt
act-IsStuck lim ms put w h = rw ((h.0).1) (rw ((h.0).2) tt)
act-IsStuck lim ms spawn w h = rw ((h.0).1) tt
act-IsStuck lim ms a w h = act_job-IsStuck lim ms a w.job w h

-- The loop of a client is the only one that takes from msgCh, and puts on it too: once it has a
-- message for msgCh while that is full, the client is never sent anything again.
pub run-IsStuck :
    (lim : Limits) (actions : List Action) (ms : List WsSendData) (w : World)
    → IsStuck lim ms w
    → Holds (IsStuck lim ms) (run lim actions w)
unfolding run
run-IsStuck lim [] ms w h = h
run-IsStuck lim (a ∷ actions) ms w h =
    go (act lim a w) (act-IsStuck lim ms a w h) (λ v. run-IsStuck lim actions ms v)
  where
    go :
        (o : Option World)
        → Holds (IsStuck lim ms) o
        → ((v : World) → IsStuck lim ms v → Holds (IsStuck lim ms) (run lim actions v))
        → Holds (IsStuck lim ms) (o >>= run lim actions)
    go none h k = tt
    go (some v) h k = k v h

replayable-Has :
    (start : ℤ) (queue : List WsSendData) (m : WsSendData)
    → leb_ℤ start m.ts ≡ true
    → Has m queue
    → Has m (replayable start queue)
unfolding replayable
replayable-Has start [] m h i = absurd i
replayable-Has start (x ∷ queue) m h (inl e) =
    rw (ap (λ (y : WsSendData). leb_ℤ start y.ts) e ∙ h) (inl e)
replayable-Has start (x ∷ queue) m h (inr i) =
    let rest = replayable-Has start queue m h i in
    elim (Bool-cases (leb_ℤ start x.ts)) [ inl e ↦ rw e (inr rest) | inr e ↦ rw e rest ]

push_queue-Has :
    (limit : ℤ) (m : WsSendData) (queue : List WsSendData)
    → pos 0 <ℤ limit
    → Has m (push_queue limit m queue)
unfolding push_queue
push_queue-Has limit m [] h = let l : ltb_ℤ limit (pos 1) ≡ false = ground arith in rw l (inl refl)
push_queue-Has limit m (x ∷ queue) h =
    let i = Has-append_right m queue (m ∷ []) (inl refl) in
    elim (Bool-cases (ltb_ℤ limit (pos (length (x ∷ queue ++ m ∷ []))))) [
      | inl e ↦ rw e i
      | inr e ↦ rw e (inr i)
    ]

-- The queue holds one message at least and msgLiveCh has room. A message whose time is not before the
-- client's start, enqueued after the client is registered, directly before the replay reads the queue,
-- comes to the client by both ways: it is among those to replay, and waits in msgLiveCh as well.
pub enqueue-scan_twice :
    (lim : Limits) (w : World) (m : WsSendData)
    → w.job ≡ scanning
    → ltb (length w.live) lim.live ≡ true
    → leb_ℤ lim.start m.ts ≡ true
    → pos 0 <ℤ lim.queue
    → (v : World) × (todo : List WsSendData) × (run lim (enqueue m ∷ scan ∷ []) w ≡ some v)
      × (v.job ≡ replaying todo)
      × Has m todo
      × Has m v.live
unfolding run act act_job
enqueue-scan_twice lim w m j l t q = rw l (
    let u = record w { queue = push_queue lim.queue m w.queue; live = w.live ++ m ∷ [] } in
    let todo = replayable lim.start u.queue in
    (
      record u { job = replaying todo },
      todo,
      ap (λ k. act_job lim scan k u >>= run lim []) j,
      refl,
      replayable-Has lim.start u.queue m t (push_queue-Has lim.queue m w.queue q),
      Has-append_right m w.live (m ∷ []) (inl refl),
    ))
