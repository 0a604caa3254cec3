-- ===== src/WsServer/LoopSamples.antt =====
-- The heartbeat of wsserver.go at concrete inputs.
use gobinace_qaggr_qrecv.Prelude.{
  ℕ, pos, true, false, none, some, List, [], ◌∷◌, ◌≡◌, ◌≤◌, refl, Bool,
}
use gobinace_qaggr_qrecv.WsServer.Data.{WsSendData}
use gobinace_qaggr_qrecv.WsServer.Client.{World, Limits, take, put, spawn, free, finished, run, act}
use gobinace_qaggr_qrecv.WsServer.Heartbeat.{
  Beating, Turn, client, beat, turn, run_turns, beats, actions_of, run_turns-beats,
}

abbrev message_at : ℕ → WsSendData
message_at n = record { period = pos n; ts = pos n; size = pos 0; post_ts = pos 0; content = [] }

abbrev limits : Limits
limits = record { start = pos 0; queue = pos 20; msg = 2; live = 4 }

abbrev world : List WsSendData → List WsSendData → World
world live sent = record {
  queue = [];
  live = live;
  acc = [];
  msg = [];
  sent = sent;
  pre_sync_ok = true;
  hand = free;
  job = finished;
}

abbrev turns : List Turn
turns = client take ∷ client put ∷ beat false ∷ client spawn ∷ []

abbrev beaten : Beating
beaten = record {
  world = world [] (message_at 1 ∷ []);
  timer_hb = false;
  pings = 1;
  is_open = false;
}

run_turns-beats_example :
    (beats turns ≤ 1)
    × (beaten.pings ≡ beats turns)
    × (beats turns ≡ 1 → (ok : Bool) → turn limits (beat ok) beaten ≡ none)
    × (run limits (actions_of turns) (world (message_at 1 ∷ []) []) ≡ some beaten.world)
unfolding run_turns act
run_turns-beats_example = run_turns-beats limits turns (world (message_at 1 ∷ []) []) beaten refl
