-- ===== src/WsServer/Heartbeat.antt =====
-- The heartbeat of the loop of `run` in wsserver.go, beside the cases that Client has. `timer_hb` is made
-- before the loop, and time.After delivers once.
use gobinace_qaggr_qrecv.Prelude.{
  some-injective, ℕ, suc, ◌+◌, ◌≤◌, Bool, true, false, Option, none, some, List, [], ◌∷◌,
  if◌then◌else◌, ◌>>=◌, ◌≡◌, refl, subst, arith, Option-cases, inl, inr,
}
use gobinace_qaggr_qrecv.WsServer.Client.{
  Hand, free, to_msg, to_acc, World, Limits, Action, act as act_client, run as run_client,
}

-- `timer_hb` is what is left in the timer; `is_open` is the connection.
pub record Beating : Type 0 where
  pub world : World
  pub timer_hb : Bool
  pub pings : ℕ
  pub is_open : Bool

pub data Turn : Type 0 where
  client : Action → Turn
  beat : Bool → Turn

-- `case <-timer_hb`, with the answer of WriteMessage.
unfoldable pub act_beat : Bool → Hand → Bool → Beating → Option Beating
act_beat ok free true b =
    some (record b {
      timer_hb = false;
      pings = suc b.pings;
      is_open = if ok then b.is_open else false;
    })
act_beat ok (to_msg m) true b = none
act_beat ok (to_acc m) true b = none
act_beat ok h false b = none

unfoldable pub turn : Limits → Turn → Beating → Option Beating
unfolding act_beat
turn lim (client a) b = do w ← act_client lim a b.world; some (record b { world = w })
turn lim (beat ok) b = act_beat ok b.world.hand b.timer_hb b

unfoldable pub run_turns : Limits → List Turn → Beating → Option Beating
unfolding turn
run_turns lim [] b = some b
run_turns lim (t ∷ turns) b = turn lim t b >>= run_turns lim turns

abbrev pub before_loop : World → Beating
before_loop w = record { world = w; timer_hb = true; pings = 0; is_open = true }

abbrev pub beats : List Turn → ℕ
beats [] = 0
beats (client a ∷ turns) = beats turns
beats (beat ok ∷ turns) = suc (beats turns)

abbrev pub actions_of : List Turn → List Action
actions_of [] = []
actions_of (client a ∷ turns) = a ∷ actions_of turns
actions_of (beat ok ∷ turns) = actions_of turns

-- The pings that the timer still has.
abbrev left : Bool → ℕ
left true = 1
left false = 0

-- What a run from `b` shows at its end.
abbrev IsBeaten : Limits → List Turn → Beating → Beating → Type 0
IsBeaten lim turns b e =
    (beats turns + left e.timer_hb ≡ left b.timer_hb)
    × (b.pings + beats turns ≡ e.pings)
    × (run_client lim (actions_of turns) b.world ≡ some e.world)

run-IsBeaten :
    (lim : Limits) (turns : List Turn) (b e : Beating)
    → run_turns lim turns b ≡ some e
    → IsBeaten lim turns b e
unfolding run_turns run_client
run-IsBeaten lim [] b e h =
    subst (IsBeaten lim [] b) (some-injective h) (omega arith, omega arith, refl)
run-IsBeaten lim (client a ∷ turns) b e h = elim (Option-cases (act_client lim a b.world)) [
  | inl n ↦ absurd (cc (rw n at h))
  | inr (w, f) ↦
      let k = run-IsBeaten lim turns (record b { world = w }) e (rw f at h) in (k.0, k.1, rw f k.2)
]
run-IsBeaten lim (beat ok ∷ turns) b e h =
    beaten b.world.hand b.timer_hb (λ c. run-IsBeaten lim turns c e) refl h
  where
    beaten :
        (hand : Hand) (timer : Bool)
        → ((c : Beating) → run_turns lim turns c ≡ some e → IsBeaten lim turns c e)
        → b.timer_hb ≡ timer
        → (act_beat ok hand timer b >>= run_turns lim turns) ≡ some e
        → IsBeaten lim (beat ok ∷ turns) b e
    beaten free false rest t g = cc
    beaten (to_msg m) false rest t g = cc
    beaten (to_acc m) false rest t g = cc
    beaten free true rest t g =
        let k =
          rest
            (record b {
              timer_hb = false;
              pings = suc b.pings;
              is_open = if ok then b.is_open else false;
            })
            g in
        (rw t (omega (arith, k.0)), omega (arith, k.1), k.2)
    beaten (to_msg m) true rest t g = cc
    beaten (to_acc m) true rest t g = cc

turn-none :
    (ok : Bool) (hand : Hand) (timer : Bool) (b : Beating)
    → left timer ≡ 0
    → act_beat ok hand timer b ≡ none
unfolding act_beat
turn-none ok free false b z = refl
turn-none ok (to_msg m) false b z = refl
turn-none ok (to_acc m) false b z = refl
turn-none ok hand true b z = absurd (omega arith)

-- However long the loop runs, and in whatever order its cases come: there is one heartbeat at most, each
-- heartbeat is a ping, after one there is never another, and the messages go the way that they go without.
pub run_turns-beats :
    (lim : Limits) (turns : List Turn) (w : World) (e : Beating)
    → run_turns lim turns (before_loop w) ≡ some e
    → (beats turns ≤ 1)
      × (e.pings ≡ beats turns)
      × (beats turns ≡ 1 → (ok : Bool) → turn lim (beat ok) e ≡ none)
      × (run_client lim (actions_of turns) w ≡ some e.world)
unfolding turn
run_turns-beats lim turns w e h =
    let k = run-IsBeaten lim turns (before_loop w) e h in
    (
      omega (arith, k.0),
      omega (arith, k.1),
      (λ one ok. turn-none ok e.world.hand e.timer_hb e (omega (arith, k.0, one))),
      k.2,
    )
