-- ===== src/Aggregation/Clock.antt =====
-- timeItr and detach of aggregation.go. `detach` on a single node dereferences a nil front (the
-- source panics); timeItr calls it on two nodes or more. container/list clears the links of an
-- element that it removes, so that `e.Next()` of a removed element is nil and a loop which removes
-- `e` stops there.
use gobinace_qaggr_qrecv.Prelude.{
  ℤ, ◌+ℤ◌, ltb_ℤ, leb_ℤ, Bool, ◌&&◌, Option, none, some, List, [], ◌∷◌, ◌++◌, if◌then◌else◌,
}
use gobinace_qaggr_qrecv.Quote.{trade_key, inc_key, snapshot_key}
use gobinace_qaggr_qrecv.Quote.Ids.{Key}
use gobinace_qaggr_qrecv.Aggregation.Node.{
  Timing, Lane, PeriodNode, SymbolDef, detach_time, has_key, append_item, new_period_node,
}

-- `time >= pn.start && time < pn.end`
unfoldable pub within : PeriodNode → ℤ → Bool
within n time = leb_ℤ n.start time && ltb_ℤ time n.end

-- One of the three loops of `detach` over a pending list: up to its first entry within the closed
-- node, which is moved to the node's slice if the map does not have its id.
module _ {ℓ} {A : Type ℓ} (time : A → ℤ) (key : A → Key) (pn : PeriodNode) where
  unfoldable pub drain : List A → Lane A → Lane A × List A
  unfolding within append_item
  drain [] lane = (lane, [])
  drain (a ∷ rest) lane =
      let kept = drain rest lane in
      if within pn (time a)
      then ((if has_key (key a) lane.by_id then lane else append_item a lane), rest)
      else (kept.0, a ∷ kept.1)

-- The node that `detach` returns: the front, with what its three loops append.
unfoldable pub closing : SymbolDef → PeriodNode → PeriodNode
closing s pn = record pn {
  trades = (drain (λ t. t.time) trade_key pn s.pending_trade pn.trades).0;
  incs = (drain (λ i. i.time) inc_key pn s.pending_inc pn.incs).0;
  snapshots = (drain (λ q. q.time) snapshot_key pn s.pending_snapshot pn.snapshots).0;
}

-- The outcome of timeItr: the new state and the node that it closed.
pub data Tick : Type 0 where
  panicked : Tick
  ticked : SymbolDef → Option PeriodNode → Tick

unfoldable pub closed : Option (PeriodNode × SymbolDef) → Tick
closed none = panicked
closed (some (pn, s)) = ticked s (some pn)

module _ ⦃τ : Timing⦄ where
  -- What it leaves: the front is gone, a node stands from the end of the new front, and the three
  -- pending lists are drained.
  unfoldable pub remaining : SymbolDef → PeriodNode → PeriodNode → List PeriodNode → SymbolDef
  remaining s pn pnx rest = record s {
    linked = pnx ∷ rest ++ new_period_node pnx.end ∷ [];
    pending_trade = (drain (λ t. t.time) trade_key pn s.pending_trade pn.trades).1;
    pending_inc = (drain (λ i. i.time) inc_key pn s.pending_inc pn.incs).1;
    pending_snapshot = (drain (λ q. q.time) snapshot_key pn s.pending_snapshot pn.snapshots).1;
  }

  -- `none` is the panic on a nil front.
  unfoldable pub detach_linked : SymbolDef → List PeriodNode → Option (PeriodNode × SymbolDef)
  detach_linked s [] = none
  detach_linked s (pn ∷ []) = none
  detach_linked s (pn ∷ pnx ∷ rest) = some (closing s pn, remaining s pn pnx rest)

  unfoldable pub detach : SymbolDef → Option (PeriodNode × SymbolDef)
  unfolding detach_linked
  detach s = detach_linked s s.linked

  -- The end of timeItr: `tick > pn.end + DETACH_TIME`.
  unfoldable pub time_front : SymbolDef → List PeriodNode → ℤ → Tick
  unfolding closed detach
  time_front s [] tick = panicked
  time_front s (pn ∷ rest) tick =
      if ltb_ℤ (pn.end +ℤ detach_time) tick then closed (detach s) else ticked s none

  unfoldable pub time_linked : SymbolDef → List PeriodNode → ℤ → ℤ → Tick
  unfolding time_front new_period_node
  time_linked s [] tick born = ticked (record s { linked = new_period_node born ∷ [] }) none
  time_linked s (pn ∷ []) tick born =
      let linked = pn ∷ new_period_node pn.end ∷ [] in
      time_front (record s { linked = linked }) linked tick
  time_linked s (pn ∷ next ∷ rest) tick born = time_front s (pn ∷ next ∷ rest) tick

  -- `timeItr now bornTs`, where `tick` is now.UnixMilli().
  unfoldable pub time_itr : SymbolDef → ℤ → ℤ → Tick
  unfolding time_linked
  time_itr s tick born = time_linked s s.linked tick born
