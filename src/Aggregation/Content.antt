-- ===== src/Aggregation/Content.antt =====
-- What the nodes of aggregation.go hold: within a node each trade id and each increment id once, and
-- only items whose time the node admits. So it is when a node is closed.
use gobinace_qaggr_qrecv.Prelude.{
  ℤ, pos, ◌<ℤ◌, -ℤ_parts, ◌≡◌, String, true, false, List, [], ◌∷◌, arith, All, All-append,
  Bool-cases, inl, inr,
}
use gobinace_qaggr_qrecv.Quote.{
  QuoteTrade, QuoteOrbIncr, QuoteSnapShot, trade_key, inc_key, snapshot_key,
}
use gobinace_qaggr_qrecv.Quote.Ids.{Key}
use gobinace_qaggr_qrecv.Aggregation.Node.{
  Timing, Lane, PeriodNode, SymbolDef, period_ms, has_key, new_period_node, append_item,
  new_symbol_def,
}
use gobinace_qaggr_qrecv.Aggregation.Put.{add_trade, add_inc, add_snapshot}
use gobinace_qaggr_qrecv.Aggregation.Clock.{time_itr, within, drain, closing, remaining}
use gobinace_qaggr_qrecv.Aggregation.Cases.{time_itr_cases}
use gobinace_qaggr_qrecv.Aggregation.Lane.{
  Distinct, IsIndexed, IsIndexed-empty, IsIndexed-record_item, Distinct-append_item,
}
use gobinace_qaggr_qrecv.Aggregation.Nodes.{Admits, put_trade-All, put_inc-All, put_snapshot-All}
use gobinace_qaggr_qrecv.Aggregation.History.{
  Event, trade, inc, snapshot, tick, step, run, Keeps, Ran, run_induction,
}

module _ ⦃τ : Timing⦄ where
  abbrev pub AllAdmitted {ℓ} : {A : Type ℓ} → (A → ℤ) → PeriodNode → List A → Type 0
  AllAdmitted time n = All (λ a. Admits n (time a))

  pub record IsSound (n : PeriodNode) : Type 0 where
    pub trades_indexed : IsIndexed trade_key n.trades
    pub incs_indexed : IsIndexed inc_key n.incs
    pub trade_times : AllAdmitted (λ (t : QuoteTrade). t.time) n n.trades.index
    pub inc_times : AllAdmitted (λ (i : QuoteOrbIncr). i.time) n n.incs.index
    pub snapshot_times : AllAdmitted (λ (q : QuoteSnapShot). q.time) n n.snapshots.index

  -- What holds of a node that is handed on.
  pub record IsClean (n : PeriodNode) : Type 0 where
    pub trades_distinct : Distinct trade_key n.trades.index
    pub incs_distinct : Distinct inc_key n.incs.index
    pub trade_times : AllAdmitted (λ (t : QuoteTrade). t.time) n n.trades.index
    pub inc_times : AllAdmitted (λ (i : QuoteOrbIncr). i.time) n n.incs.index
    pub snapshot_times : AllAdmitted (λ (q : QuoteSnapShot). q.time) n n.snapshots.index

  new_period_node-IsSound : (b : ℤ) → IsSound (new_period_node b)
  unfolding new_period_node
  new_period_node-IsSound b = record {
    trades_indexed = IsIndexed-empty trade_key;
    incs_indexed = IsIndexed-empty inc_key;
    trade_times = tt;
    inc_times = tt;
    snapshot_times = tt;
  }

  add_trade-IsSound :
      (t : QuoteTrade) (n : PeriodNode)
      → IsSound n
      → Admits n t.time
      → has_key (trade_key t) n.trades.by_id ≡ false
      → IsSound (add_trade t n)
  unfolding add_trade
  add_trade-IsSound t n v a h = record {
    trades_indexed = IsIndexed-record_item trade_key t n.trades h v.trades_indexed;
    incs_indexed = v.incs_indexed;
    trade_times = All-append _ n.trades.index (t ∷ []) v.trade_times (a, tt);
    inc_times = v.inc_times;
    snapshot_times = v.snapshot_times;
  }

  add_inc-IsSound :
      (i : QuoteOrbIncr) (n : PeriodNode)
      → IsSound n
      → Admits n i.time
      → has_key (inc_key i) n.incs.by_id ≡ false
      → IsSound (add_inc i n)
  unfolding add_inc
  add_inc-IsSound i n v a h = record {
    trades_indexed = v.trades_indexed;
    incs_indexed = IsIndexed-record_item inc_key i n.incs h v.incs_indexed;
    trade_times = v.trade_times;
    inc_times = All-append _ n.incs.index (i ∷ []) v.inc_times (a, tt);
    snapshot_times = v.snapshot_times;
  }

  add_snapshot-IsSound :
      (q : QuoteSnapShot) (n : PeriodNode)
      → IsSound n
      → Admits n q.time
      → IsSound (add_snapshot q n)
  unfolding add_snapshot
  add_snapshot-IsSound q n v a = record {
    trades_indexed = v.trades_indexed;
    incs_indexed = v.incs_indexed;
    trade_times = v.trade_times;
    inc_times = v.inc_times;
    snapshot_times = All-append _ n.snapshots.index (q ∷ []) v.snapshot_times (a, tt);
  }

  abbrev pub AllSound : SymbolDef → Type 0
  AllSound s = All IsSound s.linked

module _ ⦃τ : Timing⦄ (positive : pos 0 <ℤ period_ms) where
  -- What is within the window is admitted.
  within-Admits : (n : PeriodNode) (time : ℤ) → within n time ≡ true → Admits n time
  unfolding within
  within-Admits n time h = ground (arith, -ℤ_parts n.start period_ms)

  module _ {ℓ} {A : Type ℓ} (time : A → ℤ) (key : A → Key) (n : PeriodNode) where
    -- A drained lane is as it was, or has one new item, from within the window, at its end.
    drain_cases {κ} :
        (P : Lane A → Type κ) (l : Lane A)
        → P l
        → ((a : A)
            → within n (time a) ≡ true
            → has_key (key a) l.by_id ≡ false
            → P (append_item a l))
        → (xs : List A) → P (drain time key n xs l).0
    unfolding drain
    drain_cases P l same more [] = same
    drain_cases P l same more (a ∷ rest) = elim (Bool-cases (within n (time a))) [
      | inr w ↦ rw w (drain_cases P l same more rest)
      | inl w ↦ elim (Bool-cases (has_key (key a) l.by_id)) [
        | inl h ↦ rw (w, h) same
        | inr h ↦ rw (w, h) (more a w h)
      ]
    ]

    drain-Distinct :
        (l : Lane A) (xs : List A) → IsIndexed key l → Distinct key (drain time key n xs l).0.index
    drain-Distinct l xs i =
        drain_cases (λ m. Distinct key m.index) l i.distinct
          (λ a w h. Distinct-append_item key a l h i) xs

    drain-AllAdmitted :
        (l : Lane A) (xs : List A)
        → AllAdmitted time n l.index
        → AllAdmitted time n (drain time key n xs l).0.index
    unfolding append_item
    drain-AllAdmitted l xs v =
        drain_cases (λ m. AllAdmitted time n m.index) l v
          (λ a w h. All-append _ l.index (a ∷ []) v (within-Admits n (time a) w, tt)) xs

  closing-IsClean : (s : SymbolDef) (n : PeriodNode) → IsSound n → IsClean (closing s n)
  unfolding closing
  closing-IsClean s n v = record {
    trades_distinct = drain-Distinct _ trade_key n n.trades s.pending_trade v.trades_indexed;
    incs_distinct = drain-Distinct _ inc_key n n.incs s.pending_inc v.incs_indexed;
    trade_times = drain-AllAdmitted _ trade_key n n.trades s.pending_trade v.trade_times;
    inc_times = drain-AllAdmitted _ inc_key n n.incs s.pending_inc v.inc_times;
    snapshot_times =
        drain-AllAdmitted _ snapshot_key n n.snapshots s.pending_snapshot v.snapshot_times;
  }

  time_itr-Keeps :
      (s : SymbolDef) (now born : ℤ) → AllSound s → Keeps AllSound IsClean (time_itr s now born)
  unfolding remaining
  time_itr-Keeps s now born all =
      time_itr_cases (Keeps AllSound IsClean) s now born
        (λ e. ((new_period_node-IsSound born, tt), tt))
        (λ f e h. (((rw e at all).0, (new_period_node-IsSound f.end, tt)), tt))
        (λ f e h. (
          (new_period_node-IsSound f.end, (new_period_node-IsSound _, tt)),
          (closing-IsClean s f (rw e at all).0, tt),
        ))
        (λ f b ms e h. (all, tt))
        (λ f b ms e h.
          let a = rw e at all in
          (
            (a.1.0, All-append IsSound ms _ a.1.1 (new_period_node-IsSound b.end, tt)),
            (closing-IsClean s f a.0, tt),
          ))

  step-Keeps : (s : SymbolDef) (e : Event) → AllSound s → Keeps AllSound IsClean (step s e)
  unfolding step
  step-Keeps s (trade t) all = (put_trade-All positive IsSound s t (add_trade-IsSound t) all, tt)
  step-Keeps s (inc i) all = (put_inc-All positive IsSound s i (add_inc-IsSound i) all, tt)
  step-Keeps s (snapshot q) all =
      (put_snapshot-All positive IsSound s q (add_snapshot-IsSound q) all, tt)
  step-Keeps s (tick now born) all = time_itr-Keeps s now born all

  -- From a new symbol, whatever quotes and clock readings come, no call panics, and each node that is
  -- closed has no trade id twice and no increment id twice; each of its trades, increments and
  -- snapshots has a time before the node's end and at most one period before its start. The nodes that
  -- stay open satisfy this too, and their maps hold exactly the ids of their slices.
  pub run-IsClean :
      (name : String) (es : List Event) → Ran AllSound IsClean (run (new_symbol_def name) es)
  unfolding new_symbol_def
  run-IsClean name es = run_induction AllSound IsClean step-Keeps (new_symbol_def name) es tt
