-- ===== src/Aggregation/Duplicates.antt =====
-- Redundant feeds: what copies of a snapshot do in aggregation.go. Several receivers may send the same
-- market data, and the maps by id are there to drop the copies.
use gobinace_qaggr_qrecv.Prelude.{
  ℕ, zero, suc, ◌++◌, append-nil, append_assoc, ℤ, ◌≡◌, refl, ap, ◌∙◌, sym, subst, true, false,
  List, [], ◌∷◌,
}
use gobinace_qaggr_qrecv.Quote.{QuoteSnapShot, snapshot_key}
use gobinace_qaggr_qrecv.Quote.Ids.{Key, key_eq, key_eq_iff}
use gobinace_qaggr_qrecv.Aggregation.Node.{Timing, PeriodNode, SymbolDef, has_key, back_of}
use gobinace_qaggr_qrecv.Aggregation.Put.{
  in_front, later, place, add_snapshot, put_snapshot, put_snapshot_linked,
}

pub key_eq_refl : (k : Key) → key_eq k k ≡ true
key_eq_refl k = (key_eq_iff k k).1 refl

module _ ⦃τ : Timing⦄ where
  -- An item of this time goes to a pending list.
  abbrev pub GoesPending : List PeriodNode → ℤ → Type 0
  GoesPending [] time = ⊥
  GoesPending (b ∷ []) time = ⊥
  GoesPending (f ∷ n ∷ ms) time = place f (back_of n ms) time ≡ later

  -- `n` copies of a snapshot that come one after another, and as a list.
  abbrev pub put_copies : ℕ → QuoteSnapShot → SymbolDef → SymbolDef
  put_copies zero q s = s
  put_copies (suc n) q s = put_copies n q (put_snapshot s q)

  abbrev pub copies : ℕ → QuoteSnapShot → List QuoteSnapShot
  copies zero q = []
  copies (suc n) q = q ∷ copies n q

  -- A front window with these snapshots more.
  abbrev pub HasMore : SymbolDef → PeriodNode → PeriodNode → List QuoteSnapShot → SymbolDef → Type 0
  HasMore s f b more r =
      (g : PeriodNode) × (r ≡ record s { linked = g ∷ b ∷ [] })
      × (g.trades ≡ f.trades)
      × (g.snapshots.index ≡ f.snapshots.index ++ more)

  put_snapshot-front :
      (s : SymbolDef) (f b : PeriodNode) (q : QuoteSnapShot)
      → s.linked ≡ f ∷ b ∷ []
      → place f b q.time ≡ in_front
      → has_key (snapshot_key q) f.trades.by_id ≡ false
      → put_snapshot s q ≡ record s { linked = add_snapshot q f ∷ b ∷ [] }
  unfolding put_snapshot back_of
  put_snapshot-front s f b q e p h =
      subst (λ l. put_snapshot_linked s l q ≡ record s { linked = add_snapshot q f ∷ b ∷ [] })
        (sym e) (rw (p, put_snapshot_linked) (rw h))

  -- The symbol has two windows, the snapshot's time belongs to the front one, and no trade of the front
  -- has the id of the snapshot. Then of any number of copies of it that come one after another each is
  -- kept in the front: the test asks the map of the trades.
  pub put_snapshot_repeats :
      (n : ℕ) (s : SymbolDef) (f b : PeriodNode) (q : QuoteSnapShot)
      → s.linked ≡ f ∷ b ∷ []
      → place f b q.time ≡ in_front
      → has_key (snapshot_key q) f.trades.by_id ≡ false
      → HasMore s f b (copies n q) (put_copies n q s)
  unfolding add_snapshot
  put_snapshot_repeats zero s f b q e p h = (
    f,
    ap (λ (l : List PeriodNode). let r : SymbolDef = record s { linked = l } in r) e,
    refl,
    sym (append-nil f.snapshots.index),
  )
  put_snapshot_repeats (suc n) s f b q e p h =
      let g = add_snapshot q f in
      let s1 : SymbolDef = record s { linked = g ∷ b ∷ [] } in
      let r = put_snapshot_repeats n s1 g b q refl (same ∙ p) h in
      rw (put_snapshot-front s f b q e p h)
        (r.0, r.1, r.2, r.3 ∙ append_assoc f.snapshots.index (q ∷ []) (copies n q))
    where
      same : place (add_snapshot q f) b q.time ≡ place f b q.time
      same = unfold place add_snapshot in refl

  -- And if a trade of the front has an id that is the snapshot's time, the snapshot is dropped.
  pub put_snapshot_shadowed :
      (s : SymbolDef) (f b : PeriodNode) (q : QuoteSnapShot)
      → s.linked ≡ f ∷ b ∷ []
      → place f b q.time ≡ in_front
      → has_key (snapshot_key q) f.trades.by_id ≡ true
      → put_snapshot s q ≡ s
  unfolding put_snapshot back_of
  put_snapshot_shadowed s f b q e p h =
      subst (λ l. put_snapshot_linked s l q ≡ s) (sym e) (rw (p, put_snapshot_linked) (rw h))
