-- ===== src/Aggregation/Nodes.antt =====
-- Properties of each node of a symbol, through the operations of aggregation.go: which times a node
-- admits, and rules that carry a property of nodes from one state to the next.
use gobinace_qaggr_qrecv.Prelude.{
  ℤ, pos, ◌-ℤ◌, ◌≤ℤ◌, ◌<ℤ◌, -ℤ_parts, ◌≡◌, false, List, [], ◌∷◌, arith, All,
}
use gobinace_qaggr_qrecv.Quote.{QuoteTrade, QuoteOrbIncr, QuoteSnapShot, trade_key, inc_key}
use gobinace_qaggr_qrecv.Aggregation.Node.{
  Timing, PeriodNode, SymbolDef, period_ms, has_key, back_of, set_back,
}
use gobinace_qaggr_qrecv.Aggregation.Put.{
  outside, place, in_front, in_back, add_trade, add_inc, add_snapshot, put_trade, put_inc,
  put_snapshot,
}
use gobinace_qaggr_qrecv.Aggregation.Cases.{put_trade_cases, put_inc_cases, put_snapshot_cases}

module _ ⦃τ : Timing⦄ where
  -- Within the window, or up to one period before it.
  abbrev pub Admits : PeriodNode → ℤ → Type 0
  Admits n time = (n.start -ℤ period_ms ≤ℤ time) × (time <ℤ n.end)

module _ ⦃τ : Timing⦄ (positive : pos 0 <ℤ period_ms) where
  outside-Admits : (n : PeriodNode) (time : ℤ) → outside n time ≡ false → Admits n time
  unfolding outside
  outside-Admits n time h = ground (arith, -ℤ_parts n.start period_ms)

  place_front-Admits : (f b : PeriodNode) (time : ℤ) → place f b time ≡ in_front → Admits f time
  unfolding place
  place_front-Admits f b time h = ground arith

  place_back-Admits : (f b : PeriodNode) (time : ℤ) → place f b time ≡ in_back → Admits b time
  unfolding place
  place_back-Admits f b time h = ground (arith, -ℤ_parts b.start period_ms)

  module _ (P : PeriodNode → Type 0) where
    All-back_of : (n : PeriodNode) (ms : List PeriodNode) → All P (n ∷ ms) → P (back_of n ms)
    unfolding back_of
    All-back_of n [] h = h.0
    All-back_of n (m ∷ ms) h = All-back_of m ms h.1

    All-set_back :
        (n : PeriodNode) (ms : List PeriodNode) (b : PeriodNode)
        → All P (n ∷ ms)
        → P b
        → All P (set_back n ms b)
    unfolding set_back
    All-set_back n [] b h p = (p, tt)
    All-set_back n (m ∷ ms) b h p = (h.0, All-set_back m ms b h.1 p)

    pub put_trade-All :
        (s : SymbolDef) (t : QuoteTrade)
        → ((n : PeriodNode)
            → P n
            → Admits n t.time
            → has_key (trade_key t) n.trades.by_id ≡ false
            → P (add_trade t n))
        → All P s.linked
        → All P (put_trade s t).linked
    put_trade-All s t keep all =
        put_trade_cases (λ r. All P r.linked) s t all
          (λ b e o h. (keep b (rw e at all).0 (outside-Admits b t.time o) h, tt))
          (λ f n ms e p h.
            let a = rw e at all in (keep f a.0 (place_front-Admits f _ t.time p) h, a.1))
          (λ f n ms e p h.
            let a = rw e at all in
            (
              a.0,
              All-set_back n ms _ a.1
                  (keep _ (All-back_of n ms a.1) (place_back-Admits f _ t.time p) h),
            ))
          (λ f n ms e p. all)

    pub put_inc-All :
        (s : SymbolDef) (i : QuoteOrbIncr)
        → ((n : PeriodNode)
            → P n
            → Admits n i.time
            → has_key (inc_key i) n.incs.by_id ≡ false
            → P (add_inc i n))
        → All P s.linked
        → All P (put_inc s i).linked
    put_inc-All s i keep all =
        put_inc_cases (λ r. All P r.linked) s i all
          (λ b e o h. (keep b (rw e at all).0 (outside-Admits b i.time o) h, tt))
          (λ f n ms e p h.
            let a = rw e at all in (keep f a.0 (place_front-Admits f _ i.time p) h, a.1))
          (λ f n ms e p h.
            let a = rw e at all in
            (
              a.0,
              All-set_back n ms _ a.1
                  (keep _ (All-back_of n ms a.1) (place_back-Admits f _ i.time p) h),
            ))
          (λ f n ms e p. all)

    pub put_snapshot-All :
        (s : SymbolDef) (q : QuoteSnapShot)
        → ((n : PeriodNode) → P n → Admits n q.time → P (add_snapshot q n))
        → All P s.linked
        → All P (put_snapshot s q).linked
    put_snapshot-All s q keep all =
        put_snapshot_cases (λ r. All P r.linked) s q all
          (λ b e o h. (keep b (rw e at all).0 (outside-Admits b q.time o), tt))
          (λ f n ms e p h.
            let a = rw e at all in (keep f a.0 (place_front-Admits f _ q.time p), a.1))
          (λ f n ms e p h.
            let a = rw e at all in
            (
              a.0,
              All-set_back n ms _ a.1
                  (keep _ (All-back_of n ms a.1) (place_back-Admits f _ q.time p)),
            ))
          (λ f n ms e p. all)
