-- ===== src/Aggregation/Samples.antt =====
-- Runs of aggregation.go at concrete inputs, and the theorems at inputs that meet their hypotheses.
use gobinace_qaggr_qrecv.Prelude.{
  ℕ, ◌≡◌, refl, ℤ, pos, ◌+ℤ◌, ◌-ℤ◌, true, false, none, some, List, [], ◌∷◌, map, inl, arith,
}
use gobinace_qaggr_qrecv.Quote.{
  QuoteTrade, QuoteOrbIncr, QuoteSnapShot, trade_key, inc_key, snapshot_key,
}
use gobinace_qaggr_qrecv.Quote.Ids.{format_int, key_eq}
use gobinace_qaggr_qrecv.Aggregation.Node.{
  Timing, initial_timing, PeriodNode, SymbolDef, new_symbol_def, new_period_node, has_key, back_of,
  set_back,
}
use gobinace_qaggr_qrecv.Aggregation.Put.{
  put_trade, put_inc, put_snapshot, place, outside, add_snapshot, add_trade, add_inc,
}
use gobinace_qaggr_qrecv.Aggregation.Clock.{time_itr, within, drain, closing, remaining}
use gobinace_qaggr_qrecv.Aggregation.Windows.{idle, Refines, clock_step, time_itr-Refines, phase}
use gobinace_qaggr_qrecv.Aggregation.History.{
  Event, trade, inc, snapshot, tick, step, run, Outcome, Ran, IsContiguous, run-Contiguous,
}
use gobinace_qaggr_qrecv.Aggregation.Content.{IsClean, AllSound, run-IsClean}
use gobinace_qaggr_qrecv.Aggregation.Drain.{StrandsFor, time_itr-strands}
use gobinace_qaggr_qrecv.Aggregation.Copies.{DropsCopy, put_trade_copies}
use gobinace_qaggr_qrecv.Aggregation.Duplicates.{put_snapshot_repeats, HasMore, copies, put_copies}

instance abbrev sample_timing : Timing
sample_timing = initial_timing

abbrev trade_at : ℕ → ℕ → QuoteTrade
trade_at id time = record {
  event = "trade";
  time = pos time;
  symbol = "BTCUSDT";
  trade_id = pos id;
  price = "1.5";
  quantity = "2";
  buyer_order_id = pos 7;
  seller_order_id = pos 8;
  trade_time = pos time;
  is_buyer_maker = true;
  placeholder = false;
}

abbrev inc_at : ℕ → QuoteOrbIncr
inc_at time = record {
  time = pos time;
  transaction_time = pos time;
  symbol = "BTCUSDT";
  first_update_id = pos 1;
  last_update_id = pos 2;
  prev_last_update_id = pos 0;
  bids = [];
  asks = [];
}

abbrev snapshot_at : ℕ → QuoteSnapShot
snapshot_at time = record {
  symbol = "BTCUSDT";
  last_update_id = pos 2;
  time = pos time;
  trade_time = pos time;
  bids = [];
  asks = [];
}

-- Two windows from 3000 on; a trade twice; one in the second window; two past it; then the clock.
abbrev feed : List Event
feed =
    tick (pos 3100) (pos 3000)
    ∷ tick (pos 3300) (pos 3000)
    ∷ trade (trade_at 1 4000)
    ∷ trade (trade_at 1 4000)
    ∷ trade (trade_at 2 7000)
    ∷ inc (inc_at 4100)
    ∷ snapshot (snapshot_at 4200)
    ∷ trade (trade_at 3 9500)
    ∷ trade (trade_at 4 9600)
    ∷ tick (pos 7401) (pos 3000)
    ∷ tick (pos 10401) (pos 3000)
    ∷ tick (pos 13401) (pos 3000)
    ∷ []

-- The starts and the trade ids of the nodes that a history closes, and the ids that stay pending.
abbrev summary : Outcome → List (ℤ × List ℤ) × List ℤ
summary none = ([], [])
summary (some (ns, s)) = (
  map (λ n. (n.start, map (λ t. t.trade_id) n.trades.index)) ns,
  map (λ t. t.trade_id) s.pending_trade,
)

-- The second of the two late trades is in no node, though the third window covers it.
feed_runs :
    summary (run (new_symbol_def "BTCUSDT") feed)
    ≡ (((pos 3000, pos 1 ∷ []) ∷ (pos 6000, pos 2 ∷ []) ∷ (pos 9000, pos 3 ∷ []) ∷ []), pos 4 ∷ [])
unfolding run step new_symbol_def put_trade put_inc put_snapshot time_itr outside place has_key
    trade_key inc_key snapshot_key format_int key_eq within drain closing remaining new_period_node
    ◌+ℤ◌ ◌-ℤ◌ add_trade back_of set_back add_inc add_snapshot
feed_runs = refl

run-Contiguous_example : IsContiguous idle (run (new_symbol_def "BTCUSDT") feed)
run-Contiguous_example = run-Contiguous "BTCUSDT" feed

run-IsClean_example : Ran AllSound IsClean (run (new_symbol_def "BTCUSDT") feed)
run-IsClean_example = run-IsClean (omega arith) "BTCUSDT" feed

-- Windows from 3000 to 6000 and from 6000 to 9000.
abbrev front_node : PeriodNode
front_node = record {
  start = pos 3000;
  end = pos 6000;
  trades = record { by_id = []; index = [] };
  incs = record { by_id = []; index = [] };
  snapshots = record { by_id = []; index = [] };
}

abbrev back_node : PeriodNode
back_node = record front_node { start = pos 6000; end = pos 9000 }

abbrev two_windows : SymbolDef
two_windows = record {
  name = "BTCUSDT";
  linked = front_node ∷ back_node ∷ [];
  pending_inc = [];
  pending_trade = trade_at 3 4000 ∷ trade_at 4 5000 ∷ [];
  pending_snapshot = [];
}

time_itr-Refines_example :
    Refines
      (clock_step (phase two_windows) (pos 7401) (pos 0))
      (time_itr two_windows (pos 7401) (pos 0))
unfolding ◌+ℤ◌
time_itr-Refines_example = time_itr-Refines two_windows (pos 7401) (pos 0) (refl, refl, refl)

time_itr-strands_example :
    StrandsFor front_node
      (trade_at 3 4000)
      (trade_at 4 5000)
      (tick (pos 20000) (pos 0) ∷ [])
      (time_itr two_windows (pos 7401) (pos 0))
unfolding ◌+ℤ◌ within
time_itr-strands_example =
    time_itr-strands (omega arith) two_windows front_node back_node (pos 7401) (pos 0) []
      (trade_at 4 5000 ∷ []) (trade_at 3 4000) (trade_at 4 5000) (tick (pos 20000) (pos 0) ∷ [])
      (refl, refl, refl) refl refl refl tt refl (inl refl) refl

abbrev meanwhile : List Event
meanwhile = trade (trade_at 10 4600) ∷ snapshot (snapshot_at 4700) ∷ trade (trade_at 11 7000) ∷ []

put_trade_copies_example :
    DropsCopy (trade_at 9 4500) (run (put_trade two_windows (trade_at 9 4500)) meanwhile)
unfolding ◌+ℤ◌ ◌-ℤ◌ place back_of
put_trade_copies_example =
    put_trade_copies (trade_at 9 4500) two_windows meanwhile (refl, refl, refl) (λ e. cc e)
      (tt, (tt, (tt, tt)))

put_snapshot_repeats_example :
    HasMore two_windows front_node back_node
      (copies 3 (snapshot_at 4500))
      (put_copies 3 (snapshot_at 4500) two_windows)
unfolding ◌+ℤ◌ ◌-ℤ◌ place has_key
put_snapshot_repeats_example =
    put_snapshot_repeats 3 two_windows front_node back_node (snapshot_at 4500) refl refl refl

-- The front with a trade whose id is the time of the snapshot.
abbrev shadowing : SymbolDef
shadowing = record two_windows {
  linked = add_trade (trade_at 4500 4000) front_node ∷ back_node ∷ [];
}
