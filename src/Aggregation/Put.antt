-- ===== src/Aggregation/Put.antt =====
-- put_trade, put_inc and put_snapshot of aggregation.go.
use gobinace_qaggr_qrecv.Prelude.{
  ℤ, ◌+ℤ◌, ◌-ℤ◌, ltb_ℤ, leb_ℤ, Bool, ◌&&◌, ◌||◌, List, [], ◌∷◌, ◌++◌, if◌then◌else◌,
}
use gobinace_qaggr_qrecv.Quote.{
  QuoteTrade, QuoteOrbIncr, QuoteSnapShot, trade_key, inc_key, snapshot_key,
}
use gobinace_qaggr_qrecv.Aggregation.Node.{
  Timing, PeriodNode, SymbolDef, period_ms, late_limit, has_key, record_item, back_of, set_back,
}

-- `time < start || time >= end`, the test while there is one node.
unfoldable pub outside : PeriodNode → ℤ → Bool
outside n time = ltb_ℤ time n.start || leb_ℤ n.end time

-- Where an item goes while there are a front and a back node.
pub data Place : Type 0 where
  too_early too_late in_front in_back later : Place

unfoldable pub add_trade : QuoteTrade → PeriodNode → PeriodNode
unfolding record_item
add_trade t n = record n { trades = record_item (trade_key t) t n.trades }

unfoldable pub add_inc : QuoteOrbIncr → PeriodNode → PeriodNode
unfolding record_item
add_inc i n = record n { incs = record_item (inc_key i) i n.incs }

unfoldable pub add_snapshot : QuoteSnapShot → PeriodNode → PeriodNode
unfolding record_item
add_snapshot s n = record n { snapshots = record_item (snapshot_key s) s n.snapshots }

module _ ⦃τ : Timing⦄ where
  unfoldable pub place : PeriodNode → PeriodNode → ℤ → Place
  place front back time =
      if ltb_ℤ time (front.start -ℤ period_ms)
      then too_early
      else if leb_ℤ (back.end +ℤ late_limit) time
      then too_late
      else if ltb_ℤ time front.end
      then in_front
      else if leb_ℤ back.start time && ltb_ℤ time back.end
      then in_back
      else later

  unfoldable pub put_trade_linked : SymbolDef → List PeriodNode → QuoteTrade → SymbolDef
  put_trade_linked s [] t = s
  put_trade_linked s (back ∷ []) t =
      if outside back t.time
      then s
      else if has_key (trade_key t) back.trades.by_id
      then s
      else record s { linked = add_trade t back ∷ [] }
  put_trade_linked s (front ∷ next ∷ rest) t =
      let back = back_of next rest in
      elim (place front back t.time) [
        | too_early ↦ s
        | too_late ↦ s
        | in_front ↦
            if has_key (trade_key t) front.trades.by_id
            then s
            else record s { linked = add_trade t front ∷ next ∷ rest }
        | in_back ↦
            if has_key (trade_key t) back.trades.by_id
            then s
            else record s { linked = front ∷ set_back next rest (add_trade t back) }
        | later ↦ record s { pending_trade = s.pending_trade ++ t ∷ [] }
      ]

  unfoldable pub put_trade : SymbolDef → QuoteTrade → SymbolDef
  unfolding put_trade_linked
  put_trade s t = put_trade_linked s s.linked t

  unfoldable pub put_inc_linked : SymbolDef → List PeriodNode → QuoteOrbIncr → SymbolDef
  put_inc_linked s [] i = s
  put_inc_linked s (back ∷ []) i =
      if outside back i.time
      then s
      else if has_key (inc_key i) back.incs.by_id
      then s
      else record s { linked = add_inc i back ∷ [] }
  put_inc_linked s (front ∷ next ∷ rest) i =
      let back = back_of next rest in
      elim (place front back i.time) [
        | too_early ↦ s
        | too_late ↦ s
        | in_front ↦
            if has_key (inc_key i) front.incs.by_id
            then s
            else record s { linked = add_inc i front ∷ next ∷ rest }
        | in_back ↦
            if has_key (inc_key i) back.incs.by_id
            then s
            else record s { linked = front ∷ set_back next rest (add_inc i back) }
        | later ↦ record s { pending_inc = s.pending_inc ++ i ∷ [] }
      ]

  unfoldable pub put_inc : SymbolDef → QuoteOrbIncr → SymbolDef
  unfolding put_inc_linked
  put_inc s i = put_inc_linked s s.linked i

  -- In front of two nodes the source looks the snapshot's id up in the front's trademap.
  unfoldable pub put_snapshot_linked : SymbolDef → List PeriodNode → QuoteSnapShot → SymbolDef
  put_snapshot_linked s [] q = s
  put_snapshot_linked s (back ∷ []) q =
      if outside back q.time
      then s
      else if has_key (snapshot_key q) back.snapshots.by_id
      then s
      else record s { linked = add_snapshot q back ∷ [] }
  put_snapshot_linked s (front ∷ next ∷ rest) q =
      let back = back_of next rest in
      elim (place front back q.time) [
        | too_early ↦ s
        | too_late ↦ s
        | in_front ↦
            if has_key (snapshot_key q) front.trades.by_id
            then s
            else record s { linked = add_snapshot q front ∷ next ∷ rest }
        | in_back ↦
            if has_key (snapshot_key q) back.snapshots.by_id
            then s
            else record s { linked = front ∷ set_back next rest (add_snapshot q back) }
        | later ↦ record s { pending_snapshot = s.pending_snapshot ++ q ∷ [] }
      ]

  unfoldable pub put_snapshot : SymbolDef → QuoteSnapShot → SymbolDef
  unfolding put_snapshot_linked
  put_snapshot s q = put_snapshot_linked s s.linked q
