-- ===== src/Aggregation/Drain.antt =====
-- The pending trades of aggregation.go once their window is gone: `detach` moves one of them at most,
-- and one that it leaves behind stays in the list for good.
use gobinace_qaggr_qrecv.Prelude.{
  Option, if◌then◌else◌, All, ℤ, pos, ◌+ℤ◌, ◌<ℤ◌, +ℤ_parts, ltb_ℤ, ◌≡◌, refl, ◌⊎◌, inl, inr, true,
  false, Bool-cases, List, [], ◌∷◌, ◌++◌, arith, none, some,
}
use gobinace_qaggr_qrecv.Quote.{QuoteTrade, trade_key}
use gobinace_qaggr_qrecv.Quote.Ids.{Key}
use gobinace_qaggr_qrecv.Aggregation.Node.{
  Timing, Lane, PeriodNode, SymbolDef, has_key, append_item, period_ms, detach_time,
  new_period_node,
}
use gobinace_qaggr_qrecv.Aggregation.Put.{put_trade, put_inc, put_snapshot}
use gobinace_qaggr_qrecv.Aggregation.Clock.{
  Tick, panicked, ticked, time_itr, within, drain, closing, remaining,
}
use gobinace_qaggr_qrecv.Aggregation.Cases.{
  put_trade_cases, put_inc_cases, put_snapshot_cases, time_itr_cases, time_itr-close,
}
use gobinace_qaggr_qrecv.Aggregation.Windows.{
  Bounds, bounds, Chain, IsChained, put_trade-bounds, put_inc-bounds, put_snapshot-bounds,
}
use gobinace_qaggr_qrecv.Aggregation.History.{
  Event, trade, inc, snapshot, tick, step, run, Keeps, Ran, run_induction,
}

-- An entry of a list.
abbrev pub Has : {A : Type 0} → A → List A → Type 0
Has a [] = ⊥
Has a (x ∷ xs) = (x ≡ a) ⊎ Has a xs

Has-append_left : {A : Type 0} (a : A) (xs ys : List A) → Has a xs → Has a (xs ++ ys)
Has-append_left a [] ys h = absurd h
Has-append_left a (x ∷ xs) ys (inl e) = inl e
Has-append_left a (x ∷ xs) ys (inr h) = inr (Has-append_left a xs ys h)

pub Has-append_right : {A : Type 0} (a : A) (xs ys : List A) → Has a ys → Has a (xs ++ ys)
Has-append_right a [] ys h = h
Has-append_right a (x ∷ xs) ys h = inr (Has-append_right a xs ys h)

-- The front window starts after the time.
abbrev pub StartsAfter : ℤ → List Bounds → Type 0
StartsAfter time [] = ⊥
StartsAfter time (w ∷ ws) = time <ℤ w.0

-- The window does not cover the trade's time.
abbrev pub Misses : QuoteTrade → PeriodNode → Type 0
Misses t n = within n t.time ≡ false

module _ ⦃τ : Timing⦄ where
  module _ {A : Type 0} (time : A → ℤ) (key : A → Key) (n : PeriodNode) (l : Lane A) where
    -- Entries outside the window stay.
    Has-drain :
        (a : A) (xs : List A)
        → within n (time a) ≡ false
        → Has a xs
        → Has a (drain time key n xs l).1
    unfolding drain
    Has-drain a [] o h = absurd h
    Has-drain a (x ∷ xs) o h = elim (Bool-cases (within n (time x))) [
      | inl w ↦ rw w (elim h [ inl e ↦ cc | inr t ↦ t ])
      | inr w ↦ rw w (elim h [ inl e ↦ inl e | inr t ↦ inr (Has-drain a xs o t) ])
    ]

    -- Of the entries within the window only the first one is moved.
    drain-first :
        (b : A) (xs ys : List A)
        → All (λ x. within n (time x) ≡ false) xs
        → within n (time b) ≡ true
        → (drain time key n (xs ++ b ∷ ys) l).0
          ≡ (if has_key (key b) l.by_id then l else append_item b l)
    unfolding drain
    drain-first b [] ys o w = rw w refl
    drain-first b (x ∷ xs) ys o w = rw o.0 (drain-first b xs ys o.1 w)

    -- Entries behind one that is within the window stay, whatever their time.
    Has-drain_behind :
        (a b : A) (xs ys : List A)
        → within n (time b) ≡ true
        → Has a ys
        → Has a (drain time key n (xs ++ b ∷ ys) l).1
    unfolding drain
    Has-drain_behind a b [] ys w h = rw w h
    Has-drain_behind a b (x ∷ xs) ys w h = elim (Bool-cases (within n (time x))) [
      | inl v ↦ rw v (Has-append_right a xs (b ∷ ys) (inr h))
      | inr v ↦ rw v (inr (Has-drain_behind a b xs ys w h))
    ]

  -- The trade is pending and its window is gone.
  pub record IsStranded (t : QuoteTrade) (s : SymbolDef) : Type 0 where
    pub chained : IsChained s
    pub pending : Has t s.pending_trade
    pub past : StartsAfter t.time (bounds s.linked)

  module _ (positive : pos 0 <ℤ period_ms) (t : QuoteTrade) where
    -- A call that moves no window and takes nothing out of the list.
    unmoved :
        (s r : SymbolDef)
        → bounds r.linked ≡ bounds s.linked
        → (Has t s.pending_trade → Has t r.pending_trade)
        → IsStranded t s
        → Keeps (IsStranded t) (Misses t) (ticked r none)
    unmoved s r e f v =
        (record { chained = rw e v.chained; pending = f v.pending; past = rw e v.past }, tt)

    put_trade-pending :
        (s : SymbolDef) (u : QuoteTrade)
        → Has t s.pending_trade
        → Has t (put_trade s u).pending_trade
    put_trade-pending s u h =
        put_trade_cases (λ r. Has t r.pending_trade) s u h (λ _ _ _ _. h) (λ _ _ _ _ _ _. h)
          (λ _ _ _ _ _ _. h) (λ _ _ _ _ _. Has-append_left t s.pending_trade (u ∷ []) h)

    misses : (f : PeriodNode) → t.time <ℤ f.start → Misses t f
    unfolding within
    misses f h = ground arith

    time_itr-IsStranded :
        (s : SymbolDef) (now born : ℤ)
        → IsStranded t s
        → Keeps (IsStranded t) (Misses t) (time_itr s now born)
    unfolding remaining closing new_period_node within
    time_itr-IsStranded s now born v =
        time_itr_cases (Keeps (IsStranded t) (Misses t)) s now born (λ e. absurd (rw e at v.past))
          (λ f e h. (
            record {
              chained = (rw e at v.chained, refl, refl);
              pending = v.pending;
              past = rw e at v.past;
            },
            tt,
          ))
          (λ f e h.
            let past = rw e at v.past in
            let chain = rw e at v.chained in
            (
              record {
                chained = (refl, refl, refl);
                pending =
                    Has-drain _ trade_key f f.trades t s.pending_trade (misses f past) v.pending;
                past = rw chain (omega (arith, +ℤ_parts f.start period_ms));
              },
              (misses f past, tt),
            ))
          (λ f b ms e h. (v, tt))
          (λ f b ms e h. two_nodes f b ms (rw e at v.chained) (rw e at v.past))
      where
        two_nodes :
            (f b : PeriodNode) (ms : List PeriodNode)
            → Chain (bounds (f ∷ b ∷ ms))
            → t.time <ℤ f.start
            → Keeps (IsStranded t) (Misses t) (ticked (remaining s f b ms) (some (closing s f)))
        two_nodes f b [] c past = (
          record {
            chained = (c.2, refl, refl);
            pending = Has-drain _ trade_key f f.trades t s.pending_trade (misses f past) v.pending;
            past = rw (c.1, c.0) (omega (arith, +ℤ_parts f.start period_ms));
          },
          (misses f past, tt),
        )
        two_nodes f b (m ∷ ms) c past = absurd c

    step-IsStranded :
        (s : SymbolDef) (e : Event) → IsStranded t s → Keeps (IsStranded t) (Misses t) (step s e)
    unfolding step
    step-IsStranded s (trade u) v =
        unmoved s (put_trade s u) (put_trade-bounds s u) (put_trade-pending s u) v
    step-IsStranded s (inc i) v =
        unmoved s (put_inc s i) (put_inc-bounds s i)
          (λ h.
            put_inc_cases (λ r. Has t r.pending_trade) s i h (λ _ _ _ _. h) (λ _ _ _ _ _ _. h)
              (λ _ _ _ _ _ _. h) (λ _ _ _ _ _. h))
          v
    step-IsStranded s (snapshot q) v =
        unmoved s (put_snapshot s q) (put_snapshot-bounds s q)
          (λ h.
            put_snapshot_cases (λ r. Has t r.pending_trade) s q h (λ _ _ _ _. h) (λ _ _ _ _ _ _. h)
              (λ _ _ _ _ _ _. h) (λ _ _ _ _ _. h))
          v
    step-IsStranded s (tick now born) v = time_itr-IsStranded s now born v

    -- A stranded trade stays pending through every history, and no node that is closed from then on
    -- covers its time.
    pub run-IsStranded :
        (s : SymbolDef) (es : List Event)
        → IsStranded t s
        → Ran (IsStranded t) (Misses t) (run s es)
    run-IsStranded = run_induction (IsStranded t) (Misses t) step-IsStranded

  left-IsStranded :
      pos 0 <ℤ period_ms
      → (s : SymbolDef) (f b : PeriodNode) (xs ys : List QuoteTrade) (first t : QuoteTrade)
      → Chain (bounds (f ∷ b ∷ []))
      → s.pending_trade ≡ xs ++ first ∷ ys
      → within f first.time ≡ true
      → Has t ys
      → within f t.time ≡ true
      → IsStranded t (remaining s f b [])
  unfolding remaining new_period_node
  left-IsStranded positive s f b xs ys first t c p w h v = record {
    chained = (c.2, refl, refl);
    pending = rw p (Has-drain_behind _ trade_key f f.trades t first xs ys w h);
    past = rw c.1 (unfold within in ground arith);
  }

  -- The node that is handed on has the trades that the window had, and of the pending ones the first
  -- one that the window covers, unless it has the id already.
  abbrev pub HandsOn : PeriodNode → QuoteTrade → Option PeriodNode → Type 0
  HandsOn f first o =
      (n : PeriodNode) × (o ≡ some n)
      × (n.trades.index ≡ (
          if has_key (trade_key first) f.trades.by_id
          then f.trades.index
          else f.trades.index ++ first ∷ []))

  -- After a call: such a node is handed on, and the trade is stranded in each state that a history then
  -- reaches.
  abbrev pub StrandsFor : PeriodNode → QuoteTrade → QuoteTrade → List Event → Tick → Type 0
  StrandsFor f first t es panicked = ⊥
  StrandsFor f first t es (ticked s o) =
      HandsOn f first o × Ran (IsStranded t) (Misses t) (run s es)

  closing-HandsOn :
      (s : SymbolDef) (f : PeriodNode) (xs ys : List QuoteTrade) (first : QuoteTrade)
      → s.pending_trade ≡ xs ++ first ∷ ys
      → All (λ x. within f x.time ≡ false) xs
      → within f first.time ≡ true
      → HandsOn f first (some (closing s f))
  unfolding closing append_item
  closing-HandsOn s f xs ys first p o w = (
    closing s f,
    refl,
    rw (p, drain-first (λ t. t.time) trade_key f f.trades first xs ys o w)
        (elim (Bool-cases (has_key (trade_key first) f.trades.by_id)) [
          | inl e ↦ rw e refl
          | inr e ↦ rw e refl
        ]),
  )

  -- The period is positive, the symbol has two contiguous windows and the front one is to close. Two
  -- pending trades lie within it, and of the pending ones the first of them is the first that does. Then
  -- the node that is handed on has the trades of the window and that first one, unless its id is there
  -- already; the other one stays pending, whatever comes then, and no later window covers it.
  pub time_itr-strands :
      pos 0 <ℤ period_ms
      → (s : SymbolDef) (f b : PeriodNode) (now born : ℤ) (xs ys : List QuoteTrade)
        (first t : QuoteTrade) (es : List Event)
      → IsChained s
      → s.linked ≡ f ∷ b ∷ []
      → ltb_ℤ (f.end +ℤ detach_time) now ≡ true
      → s.pending_trade ≡ xs ++ first ∷ ys
      → All (λ x. within f x.time ≡ false) xs
      → within f first.time ≡ true
      → Has t ys
      → within f t.time ≡ true
      → StrandsFor f first t es (time_itr s now born)
  time_itr-strands positive s f b now born xs ys first t es c e late p o w h v =
      rw (time_itr-close s f b [] now born e late) (
        closing-HandsOn s f xs ys first p o w,
        run-IsStranded positive t (remaining s f b []) es
            (left-IsStranded positive s f b xs ys first t (rw e at c) p w h v),
      )
