-- ===== src/WsServer/Client.antt =====
-- One client of wsserver.go and the queue it is served from: `run`, the goroutine that replays the
-- queue to it, and what `enqueue` hands to it. Each action is one step between two channel or lock
-- operations; `none` says that it cannot happen now. The lock of the client is held exactly while the
-- job is `flushing`. Sends on a full channel wait, and so do the holders of the locks.
use gobinace_qaggr_qrecv.Prelude.{
  ℕ, ℤ, ltb, leb_ℤ, is_nought, ◌==◌, Bool, true, Option, none, some, List, [], ◌∷◌, ◌++◌, length,
  if◌then◌else◌, ◌>>=◌,
}
use gobinace_qaggr_qrecv.WsServer.Data.{WsSendData, push_queue}

-- What the loop of `run` has taken from msgLiveCh and not yet put on: it goes to msgCh or to accmsg.
pub data Hand : Type 0 where
  free : Hand
  to_msg to_acc : WsSendData → Hand

-- Where the replaying goroutine is: before the queue is read, with messages of the queue to send, with
-- messages of accmsg to send, after it, and ended.
pub data Job : Type 0 where
  scanning : Job
  replaying flushing : List WsSendData → Job
  gap finished : Job

pub record World : Type 0 where
  pub queue : List WsSendData
  pub live : List WsSendData
  pub acc : List WsSendData
  pub msg : List WsSendData
  -- The messages for which `go c.send(pm)` has been called.
  pub sent : List WsSendData
  pub pre_sync_ok : Bool
  pub hand : Hand
  pub job : Job

-- The numbers that the settings fix: the start that the client asks for, the limit of the queue, and
-- the room in msgCh and in msgLiveCh (1024).
pub record Limits : Type 0 where
  pub start : ℤ
  pub queue : ℤ
  pub msg : ℕ
  pub live : ℕ

pub data Action : Type 0 where
  enqueue : WsSendData → Action
  scan replay lock flush unlock sync : Action
  take put spawn : Action

-- The messages from the start on.
unfoldable pub replayable : ℤ → List WsSendData → List WsSendData
replayable start [] = []
replayable start (m ∷ queue) =
    let rest = replayable start queue in if leb_ℤ start m.ts then m ∷ rest else rest

-- A send on msgCh.
unfoldable pub send_msg : Limits → WsSendData → World → Option World
send_msg lim m w =
    if ltb (length w.msg) lim.msg then some (record w { msg = w.msg ++ m ∷ [] }) else none

-- The same by the replaying goroutine: without a buffer, the message goes from hand to hand while the
-- loop waits in its select, and the loop calls send of it.
unfoldable pub post_msg : Limits → Hand → List WsSendData → WsSendData → World → Option World
unfolding send_msg
post_msg lim free [] m w =
    if lim.msg == 0 then some (record w { sent = w.sent ++ m ∷ [] }) else send_msg lim m w
post_msg lim h ms m w = send_msg lim m w

unfoldable pub act_job : Limits → Action → Job → World → Option World
unfolding post_msg
act_job lim scan scanning w = some (record w { job = replaying (replayable lim.start w.queue) })
act_job lim replay (replaying (m ∷ ms)) w =
    post_msg lim w.hand w.msg m (record w { job = replaying ms })
act_job lim lock (replaying []) w = some (record w { job = flushing w.acc })
act_job lim flush (flushing (m ∷ ms)) w =
    post_msg lim w.hand w.msg m (record w { job = flushing ms })
act_job lim unlock (flushing []) w = some (record w { acc = []; job = gap })
act_job lim sync gap w = some (record w { pre_sync_ok = true; job = finished })
act_job lim a j w = none

-- `case pm := <-c.msgLiveCh`, with the test that follows.
unfoldable pub act_take : Hand → List WsSendData → World → Option World
act_take free (m ∷ ms) w =
    some (record w { live = ms; hand = if w.pre_sync_ok then to_msg m else to_acc m })
act_take h ms w = none

-- What the loop has taken is put on; appending to accmsg waits for the lock.
unfoldable pub act_put : Limits → Hand → Job → World → Option World
unfolding send_msg
act_put lim free j w = none
act_put lim (to_msg m) j w = send_msg lim m (record w { hand = free })
act_put lim (to_acc m) (flushing ms) w = none
act_put lim (to_acc m) j w = some (record w { hand = free; acc = w.acc ++ m ∷ [] })

-- `case pm := <-c.msgCh: go c.send(pm)`
unfoldable pub act_spawn : Hand → List WsSendData → World → Option World
act_spawn free (m ∷ ms) w = some (record w { msg = ms; sent = w.sent ++ m ∷ [] })
act_spawn h ms w = none

unfoldable pub act : Limits → Action → World → Option World
unfolding act_job act_take act_put act_spawn
act lim (enqueue m) w =
    if ltb (length w.live) lim.live
    then some (record w { queue = push_queue lim.queue m w.queue; live = w.live ++ m ∷ [] })
    else none
act lim take w = act_take w.hand w.live w
act lim put w = act_put lim w.hand w.job w
act lim spawn w = act_spawn w.hand w.msg w
act lim a w = act_job lim a w.job w

unfoldable pub run : Limits → List Action → World → Option World
run lim [] w = some w
run lim (a ∷ actions) w = act lim a w >>= run lim actions

-- The client as its loop starts: with a start of 0 nothing is replayed.
unfoldable pub start_client : ℤ → List WsSendData → World
start_client start queue = record {
  queue = queue;
  live = [];
  acc = [];
  msg = [];
  sent = [];
  pre_sync_ok = is_nought start;
  hand = free;
  job = if is_nought start then finished else scanning;
}
