-- ===== src/Aggregation/Copies.antt =====
-- Redundant feeds: copies of a trade in aggregation.go that come later, with other calls in between.
use gobinace_qaggr_qrecv.Prelude.{
  ◌≡◌, refl, ◌∙◌, ◌⊎◌, inl, inr, Bool, true, false, ◌||◌, none, some, List, [], ◌∷◌, All,
  Bool-cases,
}
use gobinace_qaggr_qrecv.Quote.{QuoteTrade, QuoteOrbIncr, QuoteSnapShot, trade_key}
use gobinace_qaggr_qrecv.Quote.Ids.{key_eq}
use gobinace_qaggr_qrecv.Aggregation.Node.{
  Timing, PeriodNode, SymbolDef, has_key, record_item, back_of, set_back,
}
use gobinace_qaggr_qrecv.Aggregation.Put.{
  Place, too_early, too_late, in_front, in_back, later, outside, place, add_trade, add_inc,
  add_snapshot, put_trade, put_inc, put_snapshot, put_trade_linked,
}
use gobinace_qaggr_qrecv.Aggregation.Clock.{ticked}
use gobinace_qaggr_qrecv.Aggregation.Cases.{put_trade_cases, put_inc_cases, put_snapshot_cases}
use gobinace_qaggr_qrecv.Aggregation.Windows.{IsChained, Chain, bounds}
use gobinace_qaggr_qrecv.Aggregation.Duplicates.{GoesPending, key_eq_refl}
use gobinace_qaggr_qrecv.Aggregation.History.{
  Event, trade, inc, snapshot, tick, Outcome, after, Ran, run, step,
}

-- A call that puts an item.
abbrev pub IsPut : Event → Type 0
IsPut (trade t) = Unit
IsPut (inc i) = Unit
IsPut (snapshot q) = Unit
IsPut (tick now born) = ⊥

module _ ⦃τ : Timing⦄ (t : QuoteTrade) where
  abbrev HasId : PeriodNode → Type 0
  HasId n = has_key (trade_key t) n.trades.by_id ≡ true

  -- The trade is dropped: its place is nowhere, or the node of its place has its id.
  abbrev KeptAt : PeriodNode → PeriodNode → Place → Type 0
  KeptAt f b too_early = Unit
  KeptAt f b too_late = Unit
  KeptAt f b in_front = HasId f
  KeptAt f b in_back = HasId b
  KeptAt f b later = ⊥

  abbrev KeptIn : List PeriodNode → Type 0
  KeptIn [] = Unit
  KeptIn (b ∷ []) = (outside b t.time ≡ true) ⊎ HasId b
  KeptIn (f ∷ b ∷ []) = KeptAt f b (place f b t.time)
  KeptIn (f ∷ b ∷ m ∷ ms) = ⊥

  KeptIn-drops : (s : SymbolDef) (l : List PeriodNode) → KeptIn l → put_trade_linked s l t ≡ s
  unfolding put_trade_linked back_of
  KeptIn-drops s [] k = refl
  KeptIn-drops s (b ∷ []) (inl o) = rw o refl
  KeptIn-drops s (b ∷ []) (inr h) = elim (Bool-cases (outside b t.time)) [
    | inl o ↦ rw o refl
    | inr o ↦ rw (o, h) refl
  ]
  KeptIn-drops s (f ∷ b ∷ []) k = by_place (place f b t.time) refl k
    where
      by_place :
          (p : Place) → place f b t.time ≡ p → KeptAt f b p → put_trade_linked s (f ∷ b ∷ []) t ≡ s
      by_place too_early e k = rw (e, put_trade_linked) refl
      by_place too_late e k = rw (e, put_trade_linked) refl
      by_place in_front e k = rw (e, put_trade_linked) (rw k refl)
      by_place in_back e k = rw (e, put_trade_linked) (rw k refl)
      by_place later e k = absurd k
  KeptIn-drops s (f ∷ b ∷ m ∷ ms) k = absurd k

  add_trade-HasId : (n : PeriodNode) → HasId (add_trade t n)
  unfolding add_trade record_item has_key
  add_trade-HasId n = rw (key_eq_refl (trade_key t)) refl

  -- The first copy is recorded, or dropped for good.
  put_trade-KeptIn :
      (s : SymbolDef) (l : List PeriodNode)
      → s.linked ≡ l
      → Chain (bounds l)
      → ¬ GoesPending l t.time
      → KeptIn (put_trade_linked s l t).linked
  unfolding put_trade_linked back_of set_back
  put_trade-KeptIn s [] e c np = rw e tt
  put_trade-KeptIn s (b ∷ []) e c np = elim (Bool-cases (outside b t.time)) [
    | inl o ↦ rw (o, e) (inl o)
    | inr o ↦ elim (Bool-cases (has_key (trade_key t) b.trades.by_id)) [
      | inl h ↦ rw (o, h, e) (inr h)
      | inr h ↦ rw (o, h) (inr (add_trade-HasId b))
    ]
  ]
  put_trade-KeptIn s (f ∷ b ∷ []) e c np = by_place (place f b t.time) refl
    where
      front_place : place (add_trade t f) b t.time ≡ place f b t.time
      front_place = unfold place add_trade in refl

      back_place : place f (add_trade t b) t.time ≡ place f b t.time
      back_place = unfold place add_trade in refl

      by_place :
          (p : Place) → place f b t.time ≡ p → KeptIn (put_trade_linked s (f ∷ b ∷ []) t).linked
      by_place too_early q = rw (q, put_trade_linked) (rw e (rw q tt))
      by_place too_late q = rw (q, put_trade_linked) (rw e (rw q tt))
      by_place in_front q = elim (Bool-cases (has_key (trade_key t) f.trades.by_id)) [
        | inl h ↦ rw (q, put_trade_linked) (rw h (rw e (rw q h)))
        | inr h ↦ rw (q, put_trade_linked) (rw h (rw (front_place ∙ q) (add_trade-HasId f)))
      ]
      by_place in_back q = elim (Bool-cases (has_key (trade_key t) b.trades.by_id)) [
        | inl h ↦ rw (q, put_trade_linked) (rw h (rw e (rw q h)))
        | inr h ↦ rw (q, put_trade_linked) (rw h (rw (back_place ∙ q) (add_trade-HasId b)))
      ]
      by_place later q = absurd (np q)
  put_trade-KeptIn s (f ∷ b ∷ m ∷ ms) e c np = absurd c

  -- A node with the same bounds that has the id if the other has it.
  abbrev Covers : PeriodNode → PeriodNode → Type 0
  Covers n m = (m.start ≡ n.start) × (m.end ≡ n.end) × (HasId n → HasId m)

  add_trade-Covers : (u : QuoteTrade) (n : PeriodNode) → Covers n (add_trade u n)
  unfolding add_trade record_item has_key
  add_trade-Covers u n = (refl, refl, λ h. more (key_eq (trade_key u) (trade_key t)) h)
    where
      more : (b : Bool) {c : Bool} → c ≡ true → (b || c) ≡ true
      more true e = refl
      more false e = e

  add_inc-Covers : (i : QuoteOrbIncr) (n : PeriodNode) → Covers n (add_inc i n)
  unfolding add_inc
  add_inc-Covers i n = (refl, refl, λ h. h)

  add_snapshot-Covers : (q : QuoteSnapShot) (n : PeriodNode) → Covers n (add_snapshot q n)
  unfolding add_snapshot
  add_snapshot-Covers q n = (refl, refl, λ h. h)

  KeptIn-alone : (n m : PeriodNode) → Covers n m → KeptIn (n ∷ []) → KeptIn (m ∷ [])
  unfolding outside
  KeptIn-alone n m c (inl o) = inl (rw (c.0, c.1) o)
  KeptIn-alone n m c (inr h) = inr (c.2 h)

  KeptAt-Covers :
      (f g b a : PeriodNode) (p : Place)
      → (HasId f → HasId g)
      → (HasId b → HasId a)
      → KeptAt f b p
      → KeptAt g a p
  KeptAt-Covers f g b a too_early x y k = tt
  KeptAt-Covers f g b a too_late x y k = tt
  KeptAt-Covers f g b a in_front x y k = x k
  KeptAt-Covers f g b a in_back x y k = y k
  KeptAt-Covers f g b a later x y k = k

  -- A write to the front, or to the back.
  KeptIn-front :
      (f g n : PeriodNode) (ms : List PeriodNode)
      → Covers f g
      → KeptIn (f ∷ n ∷ ms)
      → KeptIn (g ∷ n ∷ ms)
  unfolding place
  KeptIn-front f g n [] c k =
      let same : place g n t.time ≡ place f n t.time = rw (c.0, c.1) refl in
      rw same (KeptAt-Covers f g n n (place f n t.time) c.2 (λ h. h) k)
  KeptIn-front f g n (m ∷ ms) c k = k

  KeptIn-back :
      (f n b : PeriodNode) (ms : List PeriodNode)
      → Covers (back_of n ms) b
      → KeptIn (f ∷ n ∷ ms)
      → KeptIn (f ∷ set_back n ms b)
  unfolding place back_of set_back
  KeptIn-back f n b [] c k =
      let same : place f b t.time ≡ place f n t.time = rw (c.0, c.1) refl in
      rw same (KeptAt-Covers f f n b (place f n t.time) (λ h. h) c.2 k)
  KeptIn-back f n b (m ∷ ms) c k = absurd k

  step-KeptIn :
      (s : SymbolDef) (e : Event)
      → IsPut e
      → KeptIn s.linked
      → (r : SymbolDef) × (step s e ≡ ticked r none) × KeptIn r.linked
  unfolding step
  step-KeptIn s (trade u) h k = (
    put_trade s u,
    refl,
    put_trade_cases (λ r. KeptIn r.linked) s u k
        (λ b e _ _. KeptIn-alone b (add_trade u b) (add_trade-Covers u b) (rw e at k))
        (λ f n ms e _ _. KeptIn-front f (add_trade u f) n ms (add_trade-Covers u f) (rw e at k))
        (λ f n ms e _ _. KeptIn-back f n _ ms (add_trade-Covers u (back_of n ms)) (rw e at k))
        (λ _ _ _ _ _. k),
  )
  step-KeptIn s (inc i) h k = (
    put_inc s i,
    refl,
    put_inc_cases (λ r. KeptIn r.linked) s i k
        (λ b e _ _. KeptIn-alone b (add_inc i b) (add_inc-Covers i b) (rw e at k))
        (λ f n ms e _ _. KeptIn-front f (add_inc i f) n ms (add_inc-Covers i f) (rw e at k))
        (λ f n ms e _ _. KeptIn-back f n _ ms (add_inc-Covers i (back_of n ms)) (rw e at k))
        (λ _ _ _ _ _. k),
  )
  step-KeptIn s (snapshot q) h k = (
    put_snapshot s q,
    refl,
    put_snapshot_cases (λ r. KeptIn r.linked) s q k
        (λ b e _ _. KeptIn-alone b (add_snapshot q b) (add_snapshot-Covers q b) (rw e at k))
        (λ f n ms e _ _.
          KeptIn-front f (add_snapshot q f) n ms (add_snapshot-Covers q f) (rw e at k))
        (λ f n ms e _ _. KeptIn-back f n _ ms (add_snapshot-Covers q (back_of n ms)) (rw e at k))
        (λ _ _ _ _ _. k),
  )
  step-KeptIn s (tick now born) h k = absurd h

  -- In the state that is reached a copy of the trade changes nothing.
  abbrev pub DropsCopy : Outcome → Type 0
  DropsCopy = Ran (λ r. put_trade r t ≡ r) (λ n. Unit)

  run-DropsCopy :
      (es : List Event) (s : SymbolDef) → All IsPut es → KeptIn s.linked → DropsCopy (run s es)
  unfolding run put_trade
  run-DropsCopy [] s h k = (KeptIn-drops s s.linked k, tt)
  run-DropsCopy (e ∷ es) s h k =
      let p = step-KeptIn s e h.0 k in
      rw (run, p.1) (go (run p.0 es) (run-DropsCopy es p.0 h.1 p.2))
    where
      go : (o : Outcome) → DropsCopy o → DropsCopy (after none o)
      go none x = x
      go (some (ns, s)) x = x

  -- The windows are contiguous, and the time of the trade does not lie behind the back window, where it
  -- would wait in the pending list. Then, after the trade was put and whatever else is put before the
  -- clock moves the windows, a copy of the trade changes nothing.
  pub put_trade_copies :
      (s : SymbolDef) (es : List Event)
      → IsChained s
      → ¬ GoesPending s.linked t.time
      → All IsPut es
      → DropsCopy (run (put_trade s t) es)
  put_trade_copies s es c np h =
      run-DropsCopy es (put_trade s t) h (unfold put_trade in put_trade-KeptIn s s.linked refl c np)
