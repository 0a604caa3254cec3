-- ===== src/Market/Service.antt =====
-- One connection of a market service: its handlers, its timer and its attempts to connect. The
-- exchange library is assumed to take what `reset` sends on stopC. The map `updates` is read by nothing
-- and left out.
use gobinace_qaggr_qrecv.Prelude.{
  ℤ, pos, ◌-ℤ◌, ◌≤ℤ◌, ◌<ℤ◌, ltb_ℤ, ltb_ℤ-false, int_laws, is_nought, String, Bool, true, false,
  Option, none, some, List, [], ◌∷◌, if◌then◌else◌, ◌≡◌, refl, arith, Bool-cases, inl, inr,
}
use gobinace_qaggr_qrecv.Quote.{Message}
use gobinace_qaggr_qrecv.Quote.Ids.{Key}
use gobinace_qaggr_qrecv.Receiver.Events.{
  WsTradeEvent, WsDepthEvent, WsKlineEvent, WsAggTradeEvent, on_ws_trade_event, on_ws_depth_event,
  on_ws_orb_inc_depth_event, on_ws_kline_event, on_ws_agg_trade_event,
}

-- `connected` says that stopC is not nil; the times are in seconds.
pub record Service : Type 0 where
  pub id : Key
  pub symbols : List String
  pub connected : Bool
  pub latest_update_time : ℤ

-- The timeouts of the settings, with the defaults of main.go.
pub record Timeouts : Type 0 where
  pub recv_trade : ℤ
  pub recv_orb_inc : ℤ

abbrev or_default : ℤ → ℤ
or_default n = if is_nought n then pos 120 else n

unfoldable pub normalize : Timeouts → Timeouts
normalize t = record {
  recv_trade = or_default t.recv_trade;
  recv_orb_inc = or_default t.recv_orb_inc;
}

unfoldable pub reset : Service → Service
reset s = record s { connected = false; latest_update_time = pos 0 }

-- `error`, without the wait.
unfoldable pub on_error : Service → Service
unfolding reset
on_error s = reset s

-- The loop of `doConnect`, over the answers of the library, true for a connection; `none` says that
-- it has not ended with these answers. `at` is the clock after it.
unfoldable pub do_connect : List Bool → ℤ → Service → Option Service
do_connect [] at s = none
do_connect (false ∷ answers) at s = do_connect answers at s
do_connect (true ∷ answers) at s = some (record s { connected = true; latest_update_time = at })

-- A round of the timer in `run`.
unfoldable pub tick : ℤ → ℤ → List Bool → ℤ → Service → Option Service
unfolding reset
tick timeout now answers at s =
    if ltb_ℤ timeout (now -ℤ s.latest_update_time) then do_connect answers at (reset s) else some s

unfoldable pub touched : ℤ → Service → Service
touched now s = record s { latest_update_time = now }

-- The five services: what a handler does, and the round of the timer.
unfoldable pub trade_handler : ℤ → WsTradeEvent → Service → Service × Message
unfolding touched
trade_handler now e s = (touched now s, on_ws_trade_event e)

unfoldable pub depth_handler : ℤ → WsDepthEvent → Service → Service × Message
unfolding touched
depth_handler now e s = (touched now s, on_ws_depth_event e)

unfoldable pub orb_inc_handler : ℤ → WsDepthEvent → Service → Service × Message
unfolding touched
orb_inc_handler now e s = (touched now s, on_ws_orb_inc_depth_event e)

unfoldable pub kline_handler : ℤ → WsKlineEvent → Service → Service × Message
unfolding touched
kline_handler now e s = (touched now s, on_ws_kline_event e)

unfoldable pub agg_trade_handler : ℤ → WsAggTradeEvent → Service → Service × Message
unfolding touched
agg_trade_handler now e s = (touched now s, on_ws_agg_trade_event e)

unfoldable pub trade_tick : Timeouts → ℤ → List Bool → ℤ → Service → Option Service
unfolding tick
trade_tick t = tick t.recv_trade

unfoldable pub depth_tick : Timeouts → ℤ → List Bool → ℤ → Service → Option Service
unfolding tick
depth_tick t = tick t.recv_orb_inc

unfoldable pub kline_tick : Timeouts → ℤ → List Bool → ℤ → Service → Option Service
unfolding tick
kline_tick t = tick t.recv_orb_inc

unfoldable pub agg_trade_tick : Timeouts → ℤ → List Bool → ℤ → Service → Option Service
unfolding tick
agg_trade_tick t = tick t.recv_orb_inc

-- The symbols of which a snapshot is asked for, once a connection for depth increments is made.
unfoldable pub snapshots_wanted : Bool → Service → List String
snapshots_wanted recv_snap_shot_enable s = if recv_snap_shot_enable then s.symbols else []

-- The second part: the snapshots that are asked for.
unfoldable pub orb_inc_tick :
    Timeouts → Bool → ℤ → List Bool → ℤ → Service → Option (Service × List String)
unfolding reset
orb_inc_tick t recv_snap_shot_enable now answers at s =
    if ltb_ℤ t.recv_orb_inc (now -ℤ s.latest_update_time)
    then elim (do_connect answers at (reset s)) [
      | none ↦ none
      | some r ↦ some (r, snapshots_wanted recv_snap_shot_enable r)
    ]
    else some (s, [])

-- Some answer is a connection.
abbrev pub Succeeds : List Bool → Type 0
Succeeds [] = ⊥
Succeeds (true ∷ answers) = Unit
Succeeds (false ∷ answers) = Succeeds answers

do_connect-some :
    (answers : List Bool) (at : ℤ) (s : Service)
    → Succeeds answers
    → do_connect answers at s ≡ some (record s { connected = true; latest_update_time = at })
unfolding do_connect
do_connect-some [] at s h = absurd h
do_connect-some (true ∷ answers) at s h = refl
do_connect-some (false ∷ answers) at s h = do_connect-some answers at s h

-- The service after a round at `now`: its last update is not older than the timeout, and it has the
-- symbols of before.
abbrev pub IsFresh : ℤ → ℤ → Service → Service → Type 0
IsFresh timeout now s r =
    (now -ℤ r.latest_update_time ≤ℤ timeout) × (r.symbols ≡ s.symbols) × (r.id ≡ s.id)

lost : (timeout now : ℤ) → timeout <ℤ now → ltb_ℤ timeout (now -ℤ pos 0) ≡ true
unfolding ◌-ℤ◌
lost timeout now h = ground arith

-- If the timeout is not negative, the clock is past it and does not go back, and the library connects
-- in the end: a round of the timer ends, and the service has then not been silent, at the time of the
-- round, for longer than the timeout, and has the symbols and the id of before. A service whose
-- connection was lost is connected again by the next round.
pub tick-IsFresh :
    (timeout now at : ℤ) (answers : List Bool) (s : Service)
    → pos 0 ≤ℤ timeout
    → now ≤ℤ at
    → timeout <ℤ now
    → Succeeds answers
    → ((r : Service) × (tick timeout now answers at s ≡ some r) × IsFresh timeout now s r)
      × ((r : Service) × (tick timeout now answers at (on_error s) ≡ some r)
          × (r.connected ≡ true)
          × IsFresh timeout now s r)
unfolding tick on_error reset
tick-IsFresh timeout now at answers s p c l h = (
  elim (Bool-cases (ltb_ℤ timeout (now -ℤ s.latest_update_time))) [
    | inl e ↦ rw (e, do_connect-some answers at (reset s) h) (_, refl, (omega int_laws, refl, refl))
    | inr e ↦ rw e (s, refl, (ltb_ℤ-false timeout (now -ℤ s.latest_update_time) e, refl, refl))
  ],
  rw (lost timeout now l) (
      rw (do_connect-some answers at (reset (on_error s)) h)
        (_, refl, refl, (omega int_laws, refl, refl))),
)
