-- ===== src/Collector/History.antt =====
-- Histories of the aggregator's controller.go: received messages, rounds of timedPeriodCollect, and
-- changes of the iteration order, in any sequence, from the table that updateAggrSymbols makes.
use gobinace_qaggr_qrecv.Prelude.{
  ℕ, ℤ, pos, ◌+ℤ◌, ◌≤ℤ◌, ◌<ℤ◌, +ℤ_parts, String, Option, none, some, List, [], ◌∷◌, arith,
  Bool-cases, inl, inr, ltb_ℤ,
}
use gobinace_qaggr_qrecv.Quote.{Message}
use gobinace_qaggr_qrecv.Aggregation.Node.{Timing, period_ms, detach_time}
use gobinace_qaggr_qrecv.Aggregation.Windows.{Phase, idle, one, two, clock_step, close_or_wait}
use gobinace_qaggr_qrecv.Marshal.{Floats, PeriodMessage}
use gobinace_qaggr_qrecv.Collector.Table.{Table, on_quote_data_recv, swap_at, update_aggr_symbols}
use gobinace_qaggr_qrecv.Collector.Round.{Config, Collector, Readings, Outcome, born_of, collect}
use gobinace_qaggr_qrecv.Collector.Lockstep.{InPhase, IsAbout, RoundSpec, collect-RoundSpec}
use gobinace_qaggr_qrecv.Collector.Grid.{IsOnGrid, born_of-IsOnGrid, next-IsOnGrid}
use gobinace_qaggr_qrecv.Collector.Routes.{
  on_quote_data_recv-InPhase, swap_at-InPhase, update_aggr_symbols-InPhase,
}

pub data Event : Type 0 where
  received : Option Message → Event
  round : Readings → Event
  swap : ℕ → Event

module _ ⦃τ : Timing⦄ ⦃F : Floats⦄ where
  abbrev pub Run : Type 0
  Run = Option (List PeriodMessage × Collector)

  abbrev with_table : Collector → Table → Option (Option PeriodMessage × Collector)
  with_table c t = some (none, record c { period_symbols = t })

  abbrev of_outcome : Option Outcome → Option (Option PeriodMessage × Collector)
  of_outcome none = none
  of_outcome (some o) = some (o.published, o.state)

  unfoldable pub step : Config → Collector → Event → Option (Option PeriodMessage × Collector)
  step cfg c (received m) = with_table c (on_quote_data_recv m c.period_symbols)
  step cfg c (round r) = of_outcome (collect cfg r c)
  step cfg c (swap n) = with_table c (swap_at n c.period_symbols)

  abbrev after : Option PeriodMessage → Run → Run
  after m none = none
  after none (some (ms, c)) = some (ms, c)
  after (some m) (some (ms, c)) = some (m ∷ ms, c)

  -- The messages that a history publishes, oldest first; `none` is a panic.
  unfoldable pub run : Config → Collector → List Event → Run
  run cfg c [] = some ([], c)
  run cfg c (e ∷ es) = elim (step cfg c e) [ none ↦ none | some (m, d) ↦ after m (run cfg d es) ]

  -- Starts of windows on the grid, from `b` on, each at least one period after the one before it.
  abbrev pub IsRising : ℤ → List PeriodMessage → Type 0
  IsRising b [] = Unit
  IsRising b (m ∷ ms) = (b ≤ℤ m.ts) × IsOnGrid m.ts × IsRising (m.ts +ℤ period_ms) ms

  abbrev pub RisesFrom : Phase → List PeriodMessage → Type 0
  RisesFrom idle ms = (b : ℤ) × IsRising b ms
  RisesFrom (one b) ms = IsRising b ms
  RisesFrom (two b) ms = IsRising b ms

  abbrev pub PhaseOnGrid : Phase → Type 0
  PhaseOnGrid idle = Unit
  PhaseOnGrid (one b) = IsOnGrid b
  PhaseOnGrid (two b) = IsOnGrid b

  abbrev with_message : Option PeriodMessage → List PeriodMessage → List PeriodMessage
  with_message none ms = ms
  with_message (some m) ms = m ∷ ms

  IsRising-mono : (a b : ℤ) (ms : List PeriodMessage) → a ≤ℤ b → IsRising b ms → IsRising a ms
  IsRising-mono a b [] h r = tt
  IsRising-mono a b (m ∷ ms) h r = (omega arith, r.1, r.2)

  -- After a call: some phase is common to all symbols, and messages that rise from it rise, with the
  -- one of this call, from the phase before.
  abbrev pub StepSpec : Phase → Option (Option PeriodMessage × Collector) → Type 0
  StepSpec p none = ⊥
  StepSpec p (some (m, c)) =
      (q : Phase) × InPhase q c.period_symbols
      × PhaseOnGrid q
      × ((ms : List PeriodMessage) → RisesFrom q ms → RisesFrom p (with_message m ms))

  -- The history returned, and what it published rises from the phase.
  abbrev pub RunRises : Phase → Run → Type 0
  RunRises p none = ⊥
  RunRises p (some (ms, c)) = RisesFrom p ms

module _ ⦃τ : Timing⦄ ⦃F : Floats⦄ (positive : pos 0 <ℤ period_ms) where
  close_or_wait-Rises :
      (r : Readings) (b : ℤ) (m : Option PeriodMessage)
      → IsOnGrid b
      → IsAbout r (close_or_wait b r.now).1 m
      → PhaseOnGrid (close_or_wait b r.now).0
        × ((ms : List PeriodMessage)
            → RisesFrom (close_or_wait b r.now).0 ms
            → IsRising b (with_message m ms))
  close_or_wait-Rises r b m g = elim (Bool-cases (ltb_ℤ (b +ℤ period_ms +ℤ detach_time) r.now)) [
    | inl e ↦ rw e (closes m)
    | inr e ↦ rw e (waits m)
  ]
    where
      closes :
          (m : Option PeriodMessage)
          → IsAbout r (some (b, b +ℤ period_ms)) m
          → IsOnGrid (b +ℤ period_ms)
            × ((ms : List PeriodMessage)
                → IsRising (b +ℤ period_ms) ms
                → IsRising b (with_message m ms))
      closes none a = (
        next-IsOnGrid b g,
        λ ms h. IsRising-mono b (b +ℤ period_ms) ms (omega (arith, +ℤ_parts b period_ms)) h,
      )
      closes (some x) a = (next-IsOnGrid b g, λ ms h. rw (a.0) (omega arith, g, h))

      waits :
          (m : Option PeriodMessage)
          → IsAbout r none m
          → IsOnGrid b
            × ((ms : List PeriodMessage) → IsRising b ms → IsRising b (with_message m ms))
      waits none a = (g, λ ms h. h)
      waits (some x) a = absurd a

  clock_step-Rises :
      (r : Readings) (p : Phase) (m : Option PeriodMessage)
      → PhaseOnGrid p
      → IsAbout r (clock_step p r.now (born_of r.unix)).1 m
      → PhaseOnGrid (clock_step p r.now (born_of r.unix)).0
        × ((ms : List PeriodMessage)
            → RisesFrom (clock_step p r.now (born_of r.unix)).0 ms
            → RisesFrom p (with_message m ms))
  clock_step-Rises r idle none g a = (born_of-IsOnGrid r.unix, λ ms h. (born_of r.unix, h))
  clock_step-Rises r idle (some m) g a = absurd a
  clock_step-Rises r (one b) m g a = close_or_wait-Rises r b m g a
  clock_step-Rises r (two b) m g a = close_or_wait-Rises r b m g a

  round-StepSpec :
      (r : Readings) (p : Phase) (c : Collector) (o : Option Outcome)
      → PhaseOnGrid p
      → RoundSpec p r c o
      → StepSpec p (of_outcome o)
  round-StepSpec r p c none g h = h
  round-StepSpec r p c (some o) g h =
      let f = clock_step-Rises r p o.published g h.2 in
      ((clock_step p r.now (born_of r.unix)).0, h.0, f.0, f.1)

  step-StepSpec :
      (cfg : Config) (c : Collector) (p : Phase) (e : Event)
      → InPhase p c.period_symbols
      → PhaseOnGrid p
      → StepSpec p (step cfg c e)
  unfolding step
  step-StepSpec cfg c p (received m) h g =
      (p, on_quote_data_recv-InPhase m p c.period_symbols h, g, λ ms k. k)
  step-StepSpec cfg c p (round r) h g =
      round-StepSpec r p c (collect cfg r c) g (collect-RoundSpec cfg r c p (λ z. ground arith) h)
  step-StepSpec cfg c p (swap n) h g = (p, swap_at-InPhase p n c.period_symbols h, g, λ ms k. k)

  after-RunRises :
      (p q : Phase) (m : Option PeriodMessage) (k : Run)
      → ((ms : List PeriodMessage) → RisesFrom q ms → RisesFrom p (with_message m ms))
      → RunRises q k
      → RunRises p (after m k)
  after-RunRises p q m none f h = h
  after-RunRises p q none (some (ms, c)) f h = f ms h
  after-RunRises p q (some m) (some (ms, c)) f h = f ms h

  RisesFrom-nil : (p : Phase) → RisesFrom p []
  RisesFrom-nil idle = (pos 0, tt)
  RisesFrom-nil (one b) = tt
  RisesFrom-nil (two b) = tt

  run-RunRises :
      (cfg : Config) (c : Collector) (p : Phase) (es : List Event)
      → InPhase p c.period_symbols
      → PhaseOnGrid p
      → RunRises p (run cfg c es)
  unfolding run
  run-RunRises cfg c p [] h g = RisesFrom-nil p
  run-RunRises cfg c p (e ∷ es) h g =
      go (step cfg c e) (step-StepSpec cfg c p e h g) (λ d q. run-RunRises cfg d q es)
    where
      go :
          (k : Option (Option PeriodMessage × Collector))
          → StepSpec p k
          → ((d : Collector) (q : Phase)
              → InPhase q d.period_symbols
              → PhaseOnGrid q
              → RunRises q (run cfg d es))
          → RunRises p (elim k [ none ↦ none | some (m, d) ↦ after m (run cfg d es) ])
      go none s ih = absurd s
      go (some (m, d)) s ih = after-RunRises p s.0 m (run cfg d es) s.3 (ih d s.0 s.1 s.2)

  -- If the period is positive: from a fresh table, whatever is received, whatever the clock reads and in
  -- whatever order the symbols are visited, no round panics, and the published messages have starts on
  -- the grid of periods from the origin, each at least one period after the one before it: no window is
  -- published twice, and none out of order.
  pub run_rises :
      (cfg : Config) (l : List String) (last : ℤ) (es : List Event)
      → RunRises idle
          (run cfg (record { period_symbols = update_aggr_symbols l; last_period_ts = last }) es)
  run_rises cfg l last es = run-RunRises cfg _ idle es (update_aggr_symbols-InPhase l) tt
