-- ===== src/Market/Samples.antt =====
-- The market services at concrete inputs.
use gobinace_qaggr_qrecv.Prelude.{
  pos, pos, true, false, some, List, [], ◌∷◌, ◌++◌, ◌≡◌, refl, arith, String,
}
use gobinace_qaggr_qrecv.Market.Queue.{
  Action, on_timer, do_snap_shot, put, hand, receive, fetch, act_put, act_hand, act_receive,
  act_fetch, act, run, none_asked, count, asked,
}
use gobinace_qaggr_qrecv.Market.Served.{IsBounded, Empties, run-serves}
use gobinace_qaggr_qrecv.Market.Service.{Service, tick, on_error, IsFresh, tick-IsFresh}
use gobinace_qaggr_qrecv.Market.Plan.{Manager, open_services, IsPlan, open_services-IsPlan}

abbrev silent : Service
silent = record {
  id = b'0' ∷ [];
  symbols = "BTCUSDT" ∷ [];
  connected = true;
  latest_update_time = pos 1000;
}

-- The first attempt fails.
tick-IsFresh_example :
    ((r : Service) × (tick (pos 120) (pos 1500) (false ∷ true ∷ []) (pos 1503) silent ≡ some r)
      × IsFresh (pos 120) (pos 1500) silent r)
    × ((r : Service) × (tick (pos 120) (pos 1500) (false ∷ true ∷ []) (pos 1503) (on_error silent)
          ≡ some r)
        × (r.connected ≡ true)
        × IsFresh (pos 120) (pos 1500) silent r)
tick-IsFresh_example =
    tick-IsFresh (pos 120) (pos 1500) (pos 1503) (false ∷ true ∷ []) silent (omega arith)
      (omega arith) (omega arith) tt

abbrev names : List String
names = "A" ∷ "B" ∷ "C" ∷ []

open_services-IsPlan_example :
    (mgr : Manager) × (open_services names (pos 2) ≡ some mgr) × IsPlan names 2 mgr
open_services-IsPlan_example = open_services-IsPlan names 2 (omega arith)

-- A channel without a buffer; the sender of "B" is first.
abbrev requests : List Action
requests = on_timer ∷ do_snap_shot "B" ∷ put 0 ∷ hand 1 ∷ receive ∷ hand 0 ∷ fetch 1 ∷ []

run-serves_example :
    let r = run ("A" ∷ "B" ∷ []) 0 requests none_asked in
    IsBounded 0 r.0
    × (more : List Action) × Empties ("A" ∷ "B" ∷ []) 0 r.0 more
    × ((k : String)
        → count k (r.1 ++ (run ("A" ∷ "B" ∷ []) 0 more r.0).1)
          ≡ count k (asked ("A" ∷ "B" ∷ []) requests))
run-serves_example = run-serves ("A" ∷ "B" ∷ []) 0 requests

run-requests :
    run ("A" ∷ "B" ∷ []) 0 requests none_asked
    ≡ (record { waiting = "B" ∷ []; queue = []; tasks = "A" ∷ [] }, "B" ∷ [])
unfolding run act act_put act_hand act_receive act_fetch
run-requests = refl

run-buffered :
    run [] 1
      (do_snap_shot "A" ∷ do_snap_shot "B" ∷ put 1 ∷ put 0 ∷ receive ∷ put 0 ∷ fetch 0 ∷ [])
      none_asked
    ≡ (record { waiting = []; queue = "B" ∷ []; tasks = [] }, "A" ∷ [])
unfolding run act act_put act_hand act_receive act_fetch
run-buffered = refl
