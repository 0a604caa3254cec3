-- ===== src/Aggregation/Windows.antt =====
-- The windows of a symbol as the clock sees them: their bounds alone, and an abstract machine that
-- put_trade, put_inc, put_snapshot and timeItr of aggregation.go refine.
use gobinace_qaggr_qrecv.Prelude.{
  ℤ, ◌+ℤ◌, ltb_ℤ, ◌≡◌, refl, ap, Bool-cases, inl, inr, Option, none, some, List, [], ◌∷◌,
  if◌then◌else◌,
}
use gobinace_qaggr_qrecv.Quote.{QuoteTrade, QuoteOrbIncr, QuoteSnapShot}
use gobinace_qaggr_qrecv.Aggregation.Node.{
  Timing, PeriodNode, SymbolDef, period_ms, detach_time, back_of, set_back, new_period_node,
}
use gobinace_qaggr_qrecv.Aggregation.Put.{
  put_trade, put_inc, put_snapshot, add_trade, add_inc, add_snapshot,
}
use gobinace_qaggr_qrecv.Aggregation.Cases.{put_trade_cases, put_inc_cases, put_snapshot_cases}
use gobinace_qaggr_qrecv.Aggregation.Clock.{
  Tick, panicked, ticked, time_itr, time_linked, detach, closing, remaining,
}

abbrev pub Bounds : Type 0
Bounds = ℤ × ℤ

abbrev pub node_bounds : PeriodNode → Bounds
node_bounds n = (n.start, n.end)

abbrev pub bounds : List PeriodNode → List Bounds
bounds [] = []
bounds (n ∷ ns) = node_bounds n ∷ bounds ns

bounds-set_back :
    (n : PeriodNode) (rest : List PeriodNode) (b : PeriodNode)
    → node_bounds b ≡ node_bounds (back_of n rest)
    → bounds (set_back n rest b) ≡ bounds (n ∷ rest)
unfolding back_of set_back
bounds-set_back n [] b p = ap (λ w. w ∷ []) p
bounds-set_back n (m ∷ ms) b p = ap (λ t. node_bounds n ∷ t) (bounds-set_back m ms b p)

-- The abstract machine: no window yet, one window, or two, from a start on.
pub data Phase : Type 0 where
  idle : Phase
  one two : ℤ → Phase

abbrev pub phase_of : List Bounds → Phase
phase_of [] = idle
phase_of (w ∷ []) = one w.0
phase_of (w ∷ v ∷ ws) = two w.0

abbrev pub phase : SymbolDef → Phase
phase s = phase_of (bounds s.linked)

abbrev pub closed_bounds : Option PeriodNode → Option Bounds
closed_bounds none = none
closed_bounds (some n) = some (node_bounds n)

module _ ⦃τ : Timing⦄ where
  -- At most two windows, each one period long, the second from the end of the first.
  abbrev pub Chain : List Bounds → Type 0
  Chain [] = Unit
  Chain (w ∷ []) = w.1 ≡ w.0 +ℤ period_ms
  Chain (w ∷ v ∷ []) = (w.1 ≡ w.0 +ℤ period_ms) × (v.0 ≡ w.1) × (v.1 ≡ v.0 +ℤ period_ms)
  Chain (w ∷ v ∷ u ∷ ws) = ⊥

  abbrev pub IsChained : SymbolDef → Type 0
  IsChained s = Chain (bounds s.linked)

  -- A trade moves no window.
  pub put_trade-bounds :
      (s : SymbolDef) (t : QuoteTrade) → bounds (put_trade s t).linked ≡ bounds s.linked
  unfolding add_trade
  put_trade-bounds s t =
      put_trade_cases (λ r. bounds r.linked ≡ bounds s.linked) s t refl (λ b e _ _. rw e)
        (λ f n ms e _ _. rw e)
        (λ f n ms e _ _. rw (e, bounds-set_back n ms (add_trade t (back_of n ms)) refl))
        (λ f n ms e _. refl)

  -- An increment moves no window.
  pub put_inc-bounds :
      (s : SymbolDef) (i : QuoteOrbIncr) → bounds (put_inc s i).linked ≡ bounds s.linked
  unfolding add_inc
  put_inc-bounds s i =
      put_inc_cases (λ r. bounds r.linked ≡ bounds s.linked) s i refl (λ b e _ _. rw e)
        (λ f n ms e _ _. rw e)
        (λ f n ms e _ _. rw (e, bounds-set_back n ms (add_inc i (back_of n ms)) refl))
        (λ f n ms e _. refl)

  -- A snapshot moves no window.
  pub put_snapshot-bounds :
      (s : SymbolDef) (q : QuoteSnapShot) → bounds (put_snapshot s q).linked ≡ bounds s.linked
  unfolding add_snapshot
  put_snapshot-bounds s q =
      put_snapshot_cases (λ r. bounds r.linked ≡ bounds s.linked) s q refl (λ b e _ _. rw e)
        (λ f n ms e _ _. rw e)
        (λ f n ms e _ _. rw (e, bounds-set_back n ms (add_snapshot q (back_of n ms)) refl))
        (λ f n ms e _. refl)

  abbrev pub close_or_wait : ℤ → ℤ → Phase × Option Bounds
  close_or_wait b tick =
      if ltb_ℤ (b +ℤ period_ms +ℤ detach_time) tick
      then (two (b +ℤ period_ms), some (b, b +ℤ period_ms))
      else (two b, none)

  -- One tick of the abstract machine, with the window that it closes.
  abbrev pub clock_step : Phase → ℤ → ℤ → Phase × Option Bounds
  clock_step idle tick born = (one born, none)
  clock_step (one b) tick born = close_or_wait b tick
  clock_step (two b) tick born = close_or_wait b tick

  -- The tick did not panic, left a chain, and did to the windows what the machine does.
  abbrev pub Refines : Phase × Option Bounds → Tick → Type 0
  Refines r panicked = ⊥
  Refines r (ticked s o) = IsChained s × (phase s ≡ r.0) × (closed_bounds o ≡ r.1)

  time_linked-Refines :
      (s : SymbolDef) (l : List PeriodNode) (tick born : ℤ)
      → s.linked ≡ l
      → Chain (bounds l)
      → Refines (clock_step (phase_of (bounds l)) tick born) (time_linked s l tick born)
  unfolding time_linked closing remaining new_period_node
  time_linked-Refines s [] tick born e c = (refl, refl, refl)
  time_linked-Refines s (f ∷ []) tick born e c =
      rw (← c) (elim (Bool-cases (ltb_ℤ (f.end +ℤ detach_time) tick)) [
        | inl h ↦ rw h ((refl, refl, refl), refl, refl)
        | inr h ↦ rw h ((c, refl, refl), refl, refl)
      ])
  time_linked-Refines s (f ∷ b ∷ []) tick born e c =
      rw (← c.0) (elim (Bool-cases (ltb_ℤ (f.end +ℤ detach_time) tick)) [
        | inl h ↦ rw (h, detach, e) ((c.2, refl, refl), ap two c.1, refl)
        | inr h ↦ rw (h, e) (c, refl, refl)
      ])
  time_linked-Refines s (f ∷ b ∷ g ∷ ns) tick born e c = absurd c

  -- timeItr refines the machine, from every state whose windows are in a chain.
  pub time_itr-Refines :
      (s : SymbolDef) (tick born : ℤ)
      → IsChained s
      → Refines (clock_step (phase s) tick born) (time_itr s tick born)
  unfolding time_itr
  time_itr-Refines s tick born c = time_linked-Refines s s.linked tick born refl c
