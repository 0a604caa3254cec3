-- ===== src/Aggregation/Node.antt =====
-- SymbolDef and PeriodNode of aggregation.go. The Bloom filters, `period` and `bornTs` are never
-- read, the mutex serialises the operations, and a node's back pointer to its symbol is unused.
-- A list of nodes holds nothing but nodes, so the type assertions of the source do not fail.
use gobinace_qaggr_qrecv.Prelude.{ℤ, pos, ◌+ℤ◌, String, Bool, false, ◌||◌, List, [], ◌∷◌, ◌++◌}
use gobinace_qaggr_qrecv.Quote.{QuoteTrade, QuoteOrbIncr, QuoteSnapShot}
use gobinace_qaggr_qrecv.Quote.Ids.{Key, key_eq}

-- PERIOD and DETACH_TIME, in milliseconds. The variables of the source start as 3000 and 1400, and
-- main.go sets them from the settings before anything runs; nothing checks what the settings hold.
pub record Timing : Type 0 where
  pub period : ℤ
  pub detach : ℤ

abbrev pub period_ms : ⦃τ : Timing⦄ → ℤ
period_ms ⦃τ⦄ = τ.period

abbrev pub detach_time : ⦃τ : Timing⦄ → ℤ
detach_time ⦃τ⦄ = τ.detach

abbrev pub initial_timing : Timing
initial_timing = record { period = pos 3000; detach = pos 1400 }

-- `back.end + 10*1000`
abbrev pub late_limit : ℤ
late_limit = pos 10000

-- A Go map of which only the presence of a key is read.
unfoldable pub has_key {ℓ} : {A : Type ℓ} → Key → List (Key × A) → Bool
has_key k [] = false
has_key k ((j, a) ∷ m) = key_eq j k || has_key k m

-- A map by id and the slice in order of arrival, as trademap and tradeindex.
pub record Lane {ℓ} (A : Type ℓ) : Type ℓ where
  pub by_id : List (Key × A)
  pub index : List A

module _ {ℓ} {A : Type ℓ} where
  unfoldable pub empty_lane : Lane A
  empty_lane = record { by_id = []; index = [] }

  -- `m[id] = a; index = append(index, a)`
  unfoldable pub record_item : Key → A → Lane A → Lane A
  record_item k a l = record { by_id = (k, a) ∷ l.by_id; index = l.index ++ a ∷ [] }

  -- `index = append(index, a)` alone
  unfoldable pub append_item : A → Lane A → Lane A
  append_item a l = record l { index = l.index ++ a ∷ [] }

pub record PeriodNode : Type 0 where
  pub start : ℤ
  pub end : ℤ
  pub trades : Lane QuoteTrade
  pub incs : Lane QuoteOrbIncr
  pub snapshots : Lane QuoteSnapShot

pub record SymbolDef : Type 0 where
  pub name : String
  pub linked : List PeriodNode
  pub pending_inc : List QuoteOrbIncr
  pub pending_trade : List QuoteTrade
  pub pending_snapshot : List QuoteSnapShot

unfoldable pub new_symbol_def : String → SymbolDef
new_symbol_def name = record {
  name = name;
  linked = [];
  pending_inc = [];
  pending_trade = [];
  pending_snapshot = [];
}

-- NewPeriodNode with the two fields that each caller sets: `start`, and `end = start + PERIOD`.
unfoldable pub new_period_node : ⦃τ : Timing⦄ → ℤ → PeriodNode
unfolding empty_lane
new_period_node start = record {
  start = start;
  end = start +ℤ period_ms;
  trades = empty_lane;
  incs = empty_lane;
  snapshots = empty_lane;
}

-- `linked.Back()` of a list with the front `n`.
unfoldable pub back_of : PeriodNode → List PeriodNode → PeriodNode
back_of n [] = n
back_of n (m ∷ ms) = back_of m ms

-- The list with the node at its back replaced.
unfoldable pub set_back : PeriodNode → List PeriodNode → PeriodNode → List PeriodNode
set_back n [] b = b ∷ []
set_back n (m ∷ ms) b = n ∷ set_back m ms b
