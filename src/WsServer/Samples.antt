-- ===== src/WsServer/Samples.antt =====
-- Runs of wsserver.go at concrete inputs, and the theorems at inputs that meet their hypotheses.
use text.Mathlib.Text.{◌==◌ as str_eq}
use gobinace_qaggr_qrecv.Prelude.{
  ℕ, ℤ, pos, negsuc, true, false, Option, none, some, List, [], ◌∷◌, ◌++◌, map, length, ◌≡◌, ◌↔◌,
  refl, arith,
}
use gobinace_qaggr_qrecv.Aggregation.Drain.{Has}
use gobinace_qaggr_qrecv.Generic.Dicts.{lookup}
use gobinace_qaggr_qrecv.WsServer.Header.{
  MessageHeaderFixed, Bytes, write_be, wrap, write_int8, write_int64, encode_header, decode_header,
  decode_header-encode_header,
}
use gobinace_qaggr_qrecv.WsServer.Access.{
  WsUserAccount, Session, find_account, IsLetIn, HasAccount, find_account_iff,
}
use gobinace_qaggr_qrecv.WsServer.Sessions
use gobinace_qaggr_qrecv.WsServer.Data.{WsSendData, push_queue, push_all, last_of, push_all-last_of}
use gobinace_qaggr_qrecv.WsServer.Client.{
  World, Limits, Action, enqueue, scan, replay, lock, unlock, sync, take, put, spawn, scanning,
  replaying, finished, free, to_msg, replayable, send_msg, post_msg, act_job, act_take, act_put,
  act_spawn, act, run, start_client,
}
use gobinace_qaggr_qrecv.WsServer.Stages.{Holds}
use gobinace_qaggr_qrecv.WsServer.Replay.{IsStuck, run-IsStuck, enqueue-scan_twice}

abbrev sample_header : MessageHeaderFixed
sample_header = record {
  version = pos 1;
  compress = pos 1;
  period = pos 7;
  timestamp = negsuc 0;
  post_timestamp = pos 256;
}

header_bytes :
    encode_header sample_header
    ≡ 1 ∷ 1 ∷ 0 ∷ 0 ∷ 0 ∷ 0 ∷ 0 ∷ 0 ∷ 0 ∷ 7 ∷ 255 ∷ 255 ∷ 255 ∷ 255 ∷ 255 ∷ 255 ∷ 255 ∷ 255 ∷ 0 ∷ 0
      ∷ 0 ∷ 0 ∷ 0 ∷ 0 ∷ 1 ∷ 0 ∷ []
unfolding encode_header write_int8 write_int64 wrap write_be
header_bytes = refl

decode_header-encode_header_example :
    (decode_header (encode_header sample_header ++ 42 ∷ []) ≡ (sample_header, 42 ∷ []))
    × (length (encode_header sample_header) ≡ 26)
decode_header-encode_header_example =
    decode_header-encode_header sample_header (42 ∷ [])
      (omega arith, omega arith, omega arith, omega arith, omega arith)

abbrev accounts : List WsUserAccount
accounts =
    record { user = "ann"; passwd = "x"; enable = false; ips = (b'1' ∷ []) ∷ [] }
    ∷ record { user = "ann"; passwd = "y"; enable = true; ips = [] }
    ∷ []

abbrev caller : Bytes
caller = b'2' ∷ b':' ∷ b'9' ∷ []

find_account_iff_example :
    IsLetIn (find_account accounts "ann" caller) ↔ HasAccount accounts "ann" caller
find_account_iff_example = find_account_iff accounts "ann" caller

abbrev first_session : Session
first_session = record {
  id = 1;
  user = record { user = "ann"; passwd = "y"; enable = true; ips = [] };
  start = pos 5000;
}

-- A second request, and then the end of the first session.
abbrev visits : List Sessions.Event
visits =
    Sessions.request "ann" caller (pos 0) (pos 5000) 1
    ∷ Sessions.request "ann" caller (pos 60) (pos 9000) 2
    ∷ Sessions.ended first_session
    ∷ []

run-online_example :
    lookup str_eq "ann" (Sessions.run accounts [] visits)
    ≡ Sessions.online accounts "ann" visits (lookup str_eq "ann" [])
run-online_example = Sessions.run-online accounts visits [] "ann"

abbrev sent_at : ℕ → WsSendData
sent_at t = record { period = pos 0; ts = pos t; size = pos 0; post_ts = pos 0; content = [] }

push_all-last_of_example :
    push_all (pos 2) (sent_at 1 ∷ sent_at 2 ∷ sent_at 3 ∷ []) (last_of 2 [])
    ≡ last_of 2 ([] ++ sent_at 1 ∷ sent_at 2 ∷ sent_at 3 ∷ [])
push_all-last_of_example = push_all-last_of 2 (sent_at 1 ∷ sent_at 2 ∷ sent_at 3 ∷ []) []

abbrev limits : Limits
limits = record { start = pos 2; queue = pos 20; msg = 2; live = 4 }

abbrev queue : List WsSendData
queue = sent_at 1 ∷ sent_at 2 ∷ sent_at 3 ∷ []

-- The fourth message comes between the replay of accmsg and the end of the replay.
abbrev unlucky : List Action
unlucky =
    scan
    ∷ replay
    ∷ replay
    ∷ lock
    ∷ unlock
    ∷ enqueue (sent_at 4)
    ∷ take
    ∷ put
    ∷ sync
    ∷ enqueue (sent_at 5)
    ∷ spawn
    ∷ take
    ∷ put
    ∷ spawn
    ∷ spawn
    ∷ []

abbrev sent_and_kept : Option World → List ℤ × List ℤ
sent_and_kept none = ([], [])
sent_and_kept (some w) =
    (map (λ (m : WsSendData). m.ts) w.sent, map (λ (m : WsSendData). m.ts) w.acc)

unlucky-run :
    sent_and_kept (run limits unlucky (start_client limits.start queue))
    ≡ (pos 2 ∷ pos 3 ∷ pos 5 ∷ [], pos 4 ∷ [])
unfolding run act act_job act_take act_put act_spawn send_msg start_client replayable push_queue
unlucky-run = refl

abbrev full_client : World
full_client = record {
  queue = [];
  live = [];
  acc = [];
  msg = sent_at 1 ∷ sent_at 2 ∷ [];
  sent = [];
  pre_sync_ok = true;
  hand = to_msg (sent_at 3);
  job = finished;
}

run-IsStuck_example :
    Holds
      (IsStuck limits [])
      (run limits (enqueue (sent_at 4) ∷ enqueue (sent_at 5) ∷ []) full_client)
run-IsStuck_example =
    run-IsStuck limits (enqueue (sent_at 4) ∷ enqueue (sent_at 5) ∷ []) [] full_client
      ((sent_at 3, refl, refl), refl)

abbrev new_client : World
new_client = record {
  queue = queue;
  live = [];
  acc = [];
  msg = [];
  sent = [];
  pre_sync_ok = false;
  hand = free;
  job = scanning;
}

enqueue-scan_twice_example :
    (v : World) × (todo : List WsSendData) × (run limits
        (enqueue (sent_at 4) ∷ scan ∷ [])
        new_client
      ≡ some v)
    × (v.job ≡ replaying todo)
    × Has (sent_at 4) todo
    × Has (sent_at 4) v.live
enqueue-scan_twice_example =
    enqueue-scan_twice limits new_client (sent_at 4) refl refl refl (omega arith)

abbrev unbuffered : Limits
unbuffered = record { start = pos 1; queue = pos 20; msg = 0; live = 4 }

abbrev replaying_one : World
replaying_one = record {
  queue = [];
  live = [];
  acc = [];
  msg = [];
  sent = [];
  pre_sync_ok = false;
  hand = free;
  job =
      replaying
        (record { period = pos 1; ts = pos 1; size = pos 0; post_ts = pos 0; content = [] } ∷ []);
}

-- Without a buffer a replayed message goes to the loop while that waits, and not while it holds one.
unbuffered-sent :
    act unbuffered replay replaying_one
    ≡ some (record replaying_one {
      job = replaying [];
      sent =
          record { period = pos 1; ts = pos 1; size = pos 0; post_ts = pos 0; content = [] } ∷ [];
    })
unfolding act act_job post_msg
unbuffered-sent = refl
