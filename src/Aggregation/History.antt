-- ===== src/Aggregation/History.antt =====
-- Histories of one symbol: the calls that cmd/QuoteAggrService/controller.go makes on a SymbolDef,
-- in any order, and the windows that they close. The symbol's mutex makes each call one step.
use gobinace_qaggr_qrecv.Prelude.{
  ℤ, pos, ◌+ℤ◌, String, All, ◌≡◌, refl, Option, none, some, List, [], ◌∷◌, ltb_ℤ, Bool-cases, inl,
  inr,
}
use gobinace_qaggr_qrecv.Quote.{QuoteTrade, QuoteOrbIncr, QuoteSnapShot}
use gobinace_qaggr_qrecv.Aggregation.Node.{
  Timing, PeriodNode, SymbolDef, period_ms, detach_time, new_symbol_def,
}
use gobinace_qaggr_qrecv.Aggregation.Put.{put_trade, put_inc, put_snapshot}
use gobinace_qaggr_qrecv.Aggregation.Clock.{Tick, panicked, ticked, time_itr}
use gobinace_qaggr_qrecv.Aggregation.Windows.{
  Bounds, bounds, Chain, IsChained, Phase, idle, one, two, phase, phase_of, clock_step,
  close_or_wait, closed_bounds, Refines, put_trade-bounds, put_inc-bounds, put_snapshot-bounds,
  time_itr-Refines,
}

pub data Event : Type 0 where
  trade : QuoteTrade → Event
  inc : QuoteOrbIncr → Event
  snapshot : QuoteSnapShot → Event
  tick : ℤ → ℤ → Event

-- The nodes that a tick hands on.
abbrev pub handed : {A : Type 0} → Option A → List A → List A
handed none ns = ns
handed (some n) ns = n ∷ ns

-- The nodes that a history closes, oldest first, and the last state; `none` is a panic.
abbrev pub Outcome : Type 0
Outcome = Option (List PeriodNode × SymbolDef)

abbrev pub after : Option PeriodNode → Outcome → Outcome
after o none = none
after o (some (ns, s)) = some (handed o ns, s)

-- What a call keeps of the state, and what it says of the node that it closes.
abbrev pub Keeps : (SymbolDef → Type 0) → (PeriodNode → Type 0) → Tick → Type 0
Keeps P Q panicked = ⊥
Keeps P Q (ticked s o) = P s × All Q (handed o [])

abbrev pub Ran : (SymbolDef → Type 0) → (PeriodNode → Type 0) → Outcome → Type 0
Ran P Q none = ⊥
Ran P Q (some (ns, s)) = P s × All Q ns

module _ ⦃τ : Timing⦄ where
  unfoldable pub step : SymbolDef → Event → Tick
  step s (trade t) = ticked (put_trade s t) none
  step s (inc i) = ticked (put_inc s i) none
  step s (snapshot q) = ticked (put_snapshot s q) none
  step s (tick now born) = time_itr s now born

  unfoldable pub run : SymbolDef → List Event → Outcome
  run s [] = some ([], s)
  run s (e ∷ es) = elim (step s e) [ panicked ↦ none | ticked r o ↦ after o (run r es) ]

  module _ (P : SymbolDef → Type 0) (Q : PeriodNode → Type 0) where
    Ran-after :
        (o : Option PeriodNode) (r : Outcome)
        → All Q (handed o [])
        → Ran P Q r
        → Ran P Q (after o r)
    Ran-after none (some (ns, s)) q h = h
    Ran-after (some n) (some (ns, s)) q h = (h.0, (q.0, h.1))
    Ran-after o none q h = absurd h

    -- The rule of induction over histories: every call returns, `P` stays, and `Q` holds of each
    -- closed node.
    pub run_induction :
        ((s : SymbolDef) (e : Event) → P s → Keeps P Q (step s e))
        → (s : SymbolDef) (es : List Event) → P s
        → Ran P Q (run s es)
    unfolding run
    run_induction keep s [] p = (p, tt)
    run_induction keep s (e ∷ es) p = go (step s e) (keep s e p) (λ r. run_induction keep r es)
      where
        go :
            (k : Tick)
            → Keeps P Q k
            → ((r : SymbolDef) → P r → Ran P Q (run r es))
            → Ran P Q (elim k [ panicked ↦ none | ticked r o ↦ after o (run r es) ])
        go panicked h ih = absurd h
        go (ticked r o) h ih = Ran-after o (run r es) h.1 (ih r h.0)

  -- Windows of one period each, each from the end of the one before it, the first from `b` on.
  abbrev pub Contiguous : ℤ → List Bounds → Type 0
  Contiguous b [] = Unit
  Contiguous b (w ∷ ws) = (w.0 ≡ b) × (w.1 ≡ b +ℤ period_ms) × Contiguous (b +ℤ period_ms) ws

  abbrev pub ContiguousFrom : Phase → List Bounds → Type 0
  ContiguousFrom idle ws = (b : ℤ) × Contiguous b ws
  ContiguousFrom (one b) ws = Contiguous b ws
  ContiguousFrom (two b) ws = Contiguous b ws

  close_or_wait-Contiguous :
      (b now : ℤ) (ws : List Bounds)
      → ContiguousFrom (close_or_wait b now).0 ws
      → Contiguous b (handed (close_or_wait b now).1 ws)
  close_or_wait-Contiguous b now ws =
      elim (Bool-cases (ltb_ℤ (b +ℤ period_ms +ℤ detach_time) now)) [
        | inl e ↦ rw e (λ h. (refl, refl, h))
        | inr e ↦ rw e (λ h. h)
      ]

  clock_step-Contiguous :
      (p : Phase) (now born : ℤ) (ws : List Bounds)
      → ContiguousFrom (clock_step p now born).0 ws
      → ContiguousFrom p (handed (clock_step p now born).1 ws)
  clock_step-Contiguous idle now born ws h = (born, h)
  clock_step-Contiguous (one b) now born ws h = close_or_wait-Contiguous b now ws h
  clock_step-Contiguous (two b) now born ws h = close_or_wait-Contiguous b now ws h

  -- The state is chained again, and what the later windows continue, the windows with the one that
  -- this call closed continue from the phase before the call.
  abbrev pub Extends : Phase → Tick → Type 0
  Extends p panicked = ⊥
  Extends p (ticked s o) =
      IsChained s
      × ((ws : List Bounds)
          → ContiguousFrom (phase s) ws
          → ContiguousFrom p (handed (closed_bounds o) ws))

  Refines-Extends :
      (p : Phase) (now born : ℤ) (k : Tick) → Refines (clock_step p now born) k → Extends p k
  Refines-Extends p now born panicked h = h
  Refines-Extends p now born (ticked s o) h =
      (h.0, λ ws c. rw h.2 (clock_step-Contiguous p now born ws (rw h.1 at c)))

  unmoved :
      (p : List Bounds) (s : SymbolDef)
      → bounds s.linked ≡ p
      → Chain p
      → Extends (phase_of p) (ticked s none)
  unmoved p s e c = (rw e c, λ ws. rw e (λ h. h))

  step-Extends : (s : SymbolDef) (e : Event) → IsChained s → Extends (phase s) (step s e)
  unfolding step
  step-Extends s (trade t) c = unmoved _ (put_trade s t) (put_trade-bounds s t) c
  step-Extends s (inc i) c = unmoved _ (put_inc s i) (put_inc-bounds s i) c
  step-Extends s (snapshot q) c = unmoved _ (put_snapshot s q) (put_snapshot-bounds s q) c
  step-Extends s (tick now born) c =
      Refines-Extends (phase s) now born (time_itr s now born) (time_itr-Refines s now born c)

  -- The history returned, with contiguous windows and a chained state.
  abbrev pub IsContiguous : Phase → Outcome → Type 0
  IsContiguous p none = ⊥
  IsContiguous p (some (ns, s)) = ContiguousFrom p (bounds ns) × IsChained s

  after-IsContiguous :
      (p q : Phase) (o : Option PeriodNode) (r : Outcome)
      → ((ws : List Bounds) → ContiguousFrom q ws → ContiguousFrom p (handed (closed_bounds o) ws))
      → IsContiguous q r
      → IsContiguous p (after o r)
  after-IsContiguous p q o none f h = h
  after-IsContiguous p q none (some (ns, s)) f h = (f (bounds ns) h.0, h.1)
  after-IsContiguous p q (some n) (some (ns, s)) f h = (f (bounds ns) h.0, h.1)

  ContiguousFrom-nil : (p : Phase) → ContiguousFrom p []
  ContiguousFrom-nil idle = (pos 0, tt)
  ContiguousFrom-nil (one b) = tt
  ContiguousFrom-nil (two b) = tt

  run-IsContiguous :
      (s : SymbolDef) (es : List Event) → IsChained s → IsContiguous (phase s) (run s es)
  unfolding run
  run-IsContiguous s [] c = (ContiguousFrom-nil (phase s), c)
  run-IsContiguous s (e ∷ es) c = go (step s e) (step-Extends s e c) (λ r. run-IsContiguous r es)
    where
      go :
          (k : Tick)
          → Extends (phase s) k
          → ((r : SymbolDef) → IsChained r → IsContiguous (phase r) (run r es))
          → IsContiguous (phase s) (elim k [ panicked ↦ none | ticked r o ↦ after o (run r es) ])
      go panicked h ih = absurd h
      go (ticked r o) h ih = after-IsContiguous (phase s) (phase r) o (run r es) h.1 (ih r h.0)

  -- From a new symbol, whatever quotes and clock readings come: no call panics, and the windows that
  -- are closed, in the order of closing, last one period each and leave no gap and no overlap.
  pub run-Contiguous :
      (name : String) (es : List Event) → IsContiguous idle (run (new_symbol_def name) es)
  unfolding new_symbol_def
  run-Contiguous name es = run-IsContiguous (new_symbol_def name) es tt
