-- ===== src/Aggregation/Cases.antt =====
-- The ways through put_trade, put_inc, put_snapshot and timeItr of aggregation.go, as rules for a
-- property of the state: it is left alone, or one of a few writes is made under the tests that lead
-- to it.
use gobinace_qaggr_qrecv.Prelude.{
  ℤ, ◌+ℤ◌, ltb_ℤ, some, none, ◌≡◌, refl, sym, subst, true, false, Bool-cases, inl, inr, List, [],
  ◌∷◌, ◌++◌,
}
use gobinace_qaggr_qrecv.Quote.{
  QuoteTrade, QuoteOrbIncr, QuoteSnapShot, trade_key, inc_key, snapshot_key,
}
use gobinace_qaggr_qrecv.Aggregation.Node.{
  Timing, PeriodNode, SymbolDef, has_key, back_of, set_back, detach_time, new_period_node,
}
use gobinace_qaggr_qrecv.Aggregation.Put.{
  Place, too_early, too_late, in_front, in_back, later, outside, place, add_trade, add_inc,
  add_snapshot, put_trade, put_inc, put_snapshot, put_trade_linked, put_inc_linked,
  put_snapshot_linked,
}
use gobinace_qaggr_qrecv.Aggregation.Clock.{
  Tick, ticked, time_itr, time_linked, detach, closing, remaining,
}

module _ ⦃τ : Timing⦄ where
  pub put_trade_cases {ℓ} :
      (P : SymbolDef → Type ℓ) (s : SymbolDef) (t : QuoteTrade)
      → P s
      → ((b : PeriodNode)
          → s.linked ≡ b ∷ []
          → outside b t.time ≡ false
          → has_key (trade_key t) b.trades.by_id ≡ false
          → P (record s { linked = add_trade t b ∷ [] }))
      → ((f n : PeriodNode) (ms : List PeriodNode)
          → s.linked ≡ f ∷ n ∷ ms
          → place f (back_of n ms) t.time ≡ in_front
          → has_key (trade_key t) f.trades.by_id ≡ false
          → P (record s { linked = add_trade t f ∷ n ∷ ms }))
      → ((f n : PeriodNode) (ms : List PeriodNode)
          → s.linked ≡ f ∷ n ∷ ms
          → place f (back_of n ms) t.time ≡ in_back
          → has_key (trade_key t) (back_of n ms).trades.by_id ≡ false
          → P (record s { linked = f ∷ set_back n ms (add_trade t (back_of n ms)) }))
      → ((f n : PeriodNode) (ms : List PeriodNode)
          → s.linked ≡ f ∷ n ∷ ms
          → place f (back_of n ms) t.time ≡ later
          → P (record s { pending_trade = s.pending_trade ++ t ∷ [] }))
      → P (put_trade s t)
  unfolding put_trade
  put_trade_cases P s t same alone front back later' = by_list s.linked refl
    where
      two_nodes :
          (f n : PeriodNode) (ms : List PeriodNode)
          → s.linked ≡ f ∷ n ∷ ms
          → (p : Place) → place f (back_of n ms) t.time ≡ p
          → P (put_trade_linked s (f ∷ n ∷ ms) t)
      two_nodes f n ms e too_early p = rw (p, put_trade_linked) same
      two_nodes f n ms e too_late p = rw (p, put_trade_linked) same
      two_nodes f n ms e in_front p =
          rw (p, put_trade_linked)
            (elim (Bool-cases (has_key (trade_key t) f.trades.by_id)) [
              | inl h ↦ rw h same
              | inr h ↦ rw h (front f n ms e p h)
            ])
      two_nodes f n ms e in_back p =
          rw (p, put_trade_linked)
            (elim (Bool-cases (has_key (trade_key t) (back_of n ms).trades.by_id)) [
              | inl h ↦ rw h same
              | inr h ↦ rw h (back f n ms e p h)
            ])
      two_nodes f n ms e later p = rw (p, put_trade_linked) (later' f n ms e p)

      by_list : (l : List PeriodNode) → s.linked ≡ l → P (put_trade_linked s l t)
      by_list [] e = same
      by_list (b ∷ []) e = elim (Bool-cases (outside b t.time)) [
        | inl o ↦ rw o same
        | inr o ↦ elim (Bool-cases (has_key (trade_key t) b.trades.by_id)) [
          | inl h ↦ rw (o, h) same
          | inr h ↦ rw (o, h) (alone b e o h)
        ]
      ]
      by_list (f ∷ n ∷ ms) e = two_nodes f n ms e (place f (back_of n ms) t.time) refl

  pub put_inc_cases {ℓ} :
      (P : SymbolDef → Type ℓ) (s : SymbolDef) (i : QuoteOrbIncr)
      → P s
      → ((b : PeriodNode)
          → s.linked ≡ b ∷ []
          → outside b i.time ≡ false
          → has_key (inc_key i) b.incs.by_id ≡ false
          → P (record s { linked = add_inc i b ∷ [] }))
      → ((f n : PeriodNode) (ms : List PeriodNode)
          → s.linked ≡ f ∷ n ∷ ms
          → place f (back_of n ms) i.time ≡ in_front
          → has_key (inc_key i) f.incs.by_id ≡ false
          → P (record s { linked = add_inc i f ∷ n ∷ ms }))
      → ((f n : PeriodNode) (ms : List PeriodNode)
          → s.linked ≡ f ∷ n ∷ ms
          → place f (back_of n ms) i.time ≡ in_back
          → has_key (inc_key i) (back_of n ms).incs.by_id ≡ false
          → P (record s { linked = f ∷ set_back n ms (add_inc i (back_of n ms)) }))
      → ((f n : PeriodNode) (ms : List PeriodNode)
          → s.linked ≡ f ∷ n ∷ ms
          → place f (back_of n ms) i.time ≡ later
          → P (record s { pending_inc = s.pending_inc ++ i ∷ [] }))
      → P (put_inc s i)
  unfolding put_inc
  put_inc_cases P s i same alone front back later' = by_list s.linked refl
    where
      two_nodes :
          (f n : PeriodNode) (ms : List PeriodNode)
          → s.linked ≡ f ∷ n ∷ ms
          → (p : Place) → place f (back_of n ms) i.time ≡ p
          → P (put_inc_linked s (f ∷ n ∷ ms) i)
      two_nodes f n ms e too_early p = rw (p, put_inc_linked) same
      two_nodes f n ms e too_late p = rw (p, put_inc_linked) same
      two_nodes f n ms e in_front p =
          rw (p, put_inc_linked)
            (elim (Bool-cases (has_key (inc_key i) f.incs.by_id)) [
              | inl h ↦ rw h same
              | inr h ↦ rw h (front f n ms e p h)
            ])
      two_nodes f n ms e in_back p =
          rw (p, put_inc_linked)
            (elim (Bool-cases (has_key (inc_key i) (back_of n ms).incs.by_id)) [
              | inl h ↦ rw h same
              | inr h ↦ rw h (back f n ms e p h)
            ])
      two_nodes f n ms e later p = rw (p, put_inc_linked) (later' f n ms e p)

      by_list : (l : List PeriodNode) → s.linked ≡ l → P (put_inc_linked s l i)
      by_list [] e = same
      by_list (b ∷ []) e = elim (Bool-cases (outside b i.time)) [
        | inl o ↦ rw o same
        | inr o ↦ elim (Bool-cases (has_key (inc_key i) b.incs.by_id)) [
          | inl h ↦ rw (o, h) same
          | inr h ↦ rw (o, h) (alone b e o h)
        ]
      ]
      by_list (f ∷ n ∷ ms) e = two_nodes f n ms e (place f (back_of n ms) i.time) refl

  pub put_snapshot_cases {ℓ} :
      (P : SymbolDef → Type ℓ) (s : SymbolDef) (q : QuoteSnapShot)
      → P s
      → ((b : PeriodNode)
          → s.linked ≡ b ∷ []
          → outside b q.time ≡ false
          → has_key (snapshot_key q) b.snapshots.by_id ≡ false
          → P (record s { linked = add_snapshot q b ∷ [] }))
      → ((f n : PeriodNode) (ms : List PeriodNode)
          → s.linked ≡ f ∷ n ∷ ms
          → place f (back_of n ms) q.time ≡ in_front
          → has_key (snapshot_key q) f.trades.by_id ≡ false
          → P (record s { linked = add_snapshot q f ∷ n ∷ ms }))
      → ((f n : PeriodNode) (ms : List PeriodNode)
          → s.linked ≡ f ∷ n ∷ ms
          → place f (back_of n ms) q.time ≡ in_back
          → has_key (snapshot_key q) (back_of n ms).snapshots.by_id ≡ false
          → P (record s { linked = f ∷ set_back n ms (add_snapshot q (back_of n ms)) }))
      → ((f n : PeriodNode) (ms : List PeriodNode)
          → s.linked ≡ f ∷ n ∷ ms
          → place f (back_of n ms) q.time ≡ later
          → P (record s { pending_snapshot = s.pending_snapshot ++ q ∷ [] }))
      → P (put_snapshot s q)
  unfolding put_snapshot
  put_snapshot_cases P s q same alone front back later' = by_list s.linked refl
    where
      two_nodes :
          (f n : PeriodNode) (ms : List PeriodNode)
          → s.linked ≡ f ∷ n ∷ ms
          → (p : Place) → place f (back_of n ms) q.time ≡ p
          → P (put_snapshot_linked s (f ∷ n ∷ ms) q)
      two_nodes f n ms e too_early p = rw (p, put_snapshot_linked) same
      two_nodes f n ms e too_late p = rw (p, put_snapshot_linked) same
      two_nodes f n ms e in_front p =
          rw (p, put_snapshot_linked)
            (elim (Bool-cases (has_key (snapshot_key q) f.trades.by_id)) [
              | inl h ↦ rw h same
              | inr h ↦ rw h (front f n ms e p h)
            ])
      two_nodes f n ms e in_back p =
          rw (p, put_snapshot_linked)
            (elim (Bool-cases (has_key (snapshot_key q) (back_of n ms).snapshots.by_id)) [
              | inl h ↦ rw h same
              | inr h ↦ rw h (back f n ms e p h)
            ])
      two_nodes f n ms e later p = rw (p, put_snapshot_linked) (later' f n ms e p)

      by_list : (l : List PeriodNode) → s.linked ≡ l → P (put_snapshot_linked s l q)
      by_list [] e = same
      by_list (b ∷ []) e = elim (Bool-cases (outside b q.time)) [
        | inl o ↦ rw o same
        | inr o ↦ elim (Bool-cases (has_key (snapshot_key q) b.snapshots.by_id)) [
          | inl h ↦ rw (o, h) same
          | inr h ↦ rw (o, h) (alone b e o h)
        ]
      ]
      by_list (f ∷ n ∷ ms) e = two_nodes f n ms e (place f (back_of n ms) q.time) refl

  pub time_itr_cases {ℓ} :
      (K : Tick → Type ℓ) (s : SymbolDef) (tick born : ℤ)
      → (s.linked ≡ [] → K (ticked (record s { linked = new_period_node born ∷ [] }) none))
      → ((f : PeriodNode)
          → s.linked ≡ f ∷ []
          → ltb_ℤ (f.end +ℤ detach_time) tick ≡ false
          → K (ticked (record s { linked = f ∷ new_period_node f.end ∷ [] }) none))
      → ((f : PeriodNode)
          → s.linked ≡ f ∷ []
          → ltb_ℤ (f.end +ℤ detach_time) tick ≡ true
          → K (ticked (remaining s f (new_period_node f.end) []) (some (closing s f))))
      → ((f b : PeriodNode) (ms : List PeriodNode)
          → s.linked ≡ f ∷ b ∷ ms
          → ltb_ℤ (f.end +ℤ detach_time) tick ≡ false
          → K (ticked s none))
      → ((f b : PeriodNode) (ms : List PeriodNode)
          → s.linked ≡ f ∷ b ∷ ms
          → ltb_ℤ (f.end +ℤ detach_time) tick ≡ true
          → K (ticked (remaining s f b ms) (some (closing s f))))
      → K (time_itr s tick born)
  unfolding time_itr remaining closing
  time_itr_cases K s tick born first wait close wait₂ close₂ = go s.linked refl
    where
      go : (l : List PeriodNode) → s.linked ≡ l → K (time_linked s l tick born)
      go [] e = first e
      go (f ∷ []) e = elim (Bool-cases (ltb_ℤ (f.end +ℤ detach_time) tick)) [
        | inl h ↦ rw h (close f e h)
        | inr h ↦ rw h (wait f e h)
      ]
      go (f ∷ b ∷ ms) e = elim (Bool-cases (ltb_ℤ (f.end +ℤ detach_time) tick)) [
        | inl h ↦ rw (h, detach, e) (close₂ f b ms e h)
        | inr h ↦ rw h (wait₂ f b ms e h)
      ]

  -- A tick that is late enough closes the front of two nodes.
  pub time_itr-close :
      (s : SymbolDef) (f b : PeriodNode) (ms : List PeriodNode) (tick born : ℤ)
      → s.linked ≡ f ∷ b ∷ ms
      → ltb_ℤ (f.end +ℤ detach_time) tick ≡ true
      → time_itr s tick born ≡ ticked (remaining s f b ms) (some (closing s f))
  unfolding time_itr remaining closing
  time_itr-close s f b ms tick born e h =
      subst (λ l. time_linked s l tick born ≡ ticked (remaining s f b ms) (some (closing s f)))
        (sym e) (rw (h, detach, e))
