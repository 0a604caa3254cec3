-- ===== src/Account/Timer.antt =====
-- Timer of cmd/QuoteAggrService/config.go. The two readings of the clock in a call are arguments.
use gobinace_qaggr_qrecv.Prelude.{
  ℤ, ◌+ℤ◌, ◌≤ℤ◌, ◌<ℤ◌, ltb_ℤ, ltb_ℤ-true, Bool, true, false, List, [], ◌∷◌, if◌then◌else◌,
  Bool-cases, inl, inr, arith,
}

pub record Timer : Type 0 where
  pub last_ts : ℤ
  pub period : ℤ

unfoldable pub new_timer : ℤ → ℤ → Timer
new_timer period now = record { last_ts = now; period = period }

-- A call, and whether it calls onTimer.
unfoldable pub tick : ℤ → ℤ → Timer → Timer × Bool
tick now later t =
    if ltb_ℤ (t.last_ts +ℤ t.period) now then (record t { last_ts = later }, true) else (t, false)

-- The calls, with their readings, and the second readings of those that call onTimer.
unfoldable pub run : List (ℤ × ℤ) → Timer → List ℤ
unfolding tick
run [] t = []
run ((now, later) ∷ calls) t =
    let r = tick now later t in let rest = run calls r.0 in if r.1 then later ∷ rest else rest

-- In each call the clock does not go back.
abbrev pub Forward : List (ℤ × ℤ) → Type 0
Forward [] = Unit
Forward ((now, later) ∷ calls) = (now ≤ℤ later) × Forward calls

-- Each more than a period after the one before.
abbrev pub AreSpaced : ℤ → ℤ → List ℤ → Type 0
AreSpaced period last [] = Unit
AreSpaced period last (at ∷ ats) = (last +ℤ period <ℤ at) × AreSpaced period at ats

run-spaced :
    (calls : List (ℤ × ℤ)) (t : Timer) → Forward calls → AreSpaced t.period t.last_ts (run calls t)
unfolding run
run-spaced [] t h = tt
run-spaced ((now, later) ∷ calls) t h = elim (Bool-cases (ltb_ℤ (t.last_ts +ℤ t.period) now)) [
  | inl e ↦ rw e (
    later_still (t.last_ts +ℤ t.period) now later (ltb_ℤ-true (t.last_ts +ℤ t.period) now e) h.0,
    run-spaced calls (record t { last_ts = later }) h.1,
  )
  | inr e ↦ rw e (run-spaced calls t h.1)
]
  where
    later_still : (a b c : ℤ) → a <ℤ b → b ≤ℤ c → a <ℤ c
    later_still a b c p q = omega arith

-- A new timer calls onTimer for the first time more than a period after it was made, and each time
-- again more than a period after the last time, whatever the calls of tick, if the clock does not go
-- back within a call.
pub run-AreSpaced :
    (period now : ℤ) (calls : List (ℤ × ℤ))
    → Forward calls
    → AreSpaced period now (run calls (new_timer period now))
unfolding new_timer
run-AreSpaced period now calls h = run-spaced calls (new_timer period now) h
