-- ===== src/Collector/Round.antt =====
-- One round of timedPeriodCollect of controller.go.
use gobinace_qaggr_qrecv.Prelude.{
  zero, ℤ, pos, ◌+ℤ◌, ◌-ℤ◌, ◌*ℤ◌, quot, ltb_ℤ, String, Bool, true, false, ◌&&◌, Option, none, some,
  List, [], ◌∷◌, ◌++◌, if◌then◌else◌,
}
use gobinace_qaggr_qrecv.Aggregation.Node.{Timing, period_ms, PeriodNode, SymbolDef}
use gobinace_qaggr_qrecv.Aggregation.Clock.{panicked, ticked, time_itr}
use gobinace_qaggr_qrecv.Marshal.{Floats, SymbolInfo, PeriodMessage, marshall_pb}
use gobinace_qaggr_qrecv.Collector.Table.{Table}

pub record Config : Type 0 where
  pub thunder_id : String
  pub skip_empty_quote : Bool
  pub mon_enable : Bool

pub record Collector : Type 0 where
  pub period_symbols : Table
  pub last_period_ts : ℤ

-- The readings of the clock in one round, in the order of the calls: `now` and `post_ts` in
-- milliseconds, `unix` and `later` in seconds.
pub record Readings : Type 0 where
  pub now : ℤ
  pub unix : ℤ
  pub later : ℤ
  pub post_ts : ℤ

-- ORIGIN_UTC_TIME, in seconds.
abbrev pub origin_utc_time : ℤ
origin_utc_time = pos 1704067200

abbrev pub origin_ms : ℤ
origin_ms = pos 1704067200000

unfoldable pub is_zero : ℤ → Bool
is_zero (pos zero) = true
is_zero _ = false

-- The start of the front window of the first symbol that has one; `born` if there is none.
unfoldable pub find_born : Table → ℤ → ℤ
find_born [] born = born
find_born ((name, s) ∷ rest) born = elim s.linked [ [] ↦ find_born rest born | pn ∷ ns ↦ pn.start ]

module _ ⦃τ : Timing⦄ where
  -- `(unix - ORIGIN) * 1000 / PERIOD`
  unfoldable pub period_of : ℤ → ℤ
  period_of unix = quot ((unix -ℤ origin_utc_time) *ℤ pos 1000) period_ms

  unfoldable pub born_of : ℤ → ℤ
  born_of unix = period_of unix *ℤ period_ms +ℤ origin_ms

module _ ⦃F : Floats⦄ where
  is_empty {ℓ} : {A : Type ℓ} → List A → Bool
  is_empty [] = true
  is_empty (a ∷ l) = false

  unfoldable pub info_of : Bool → String → PeriodNode → List SymbolInfo
  unfolding is_empty
  info_of skip name pn =
      let info = marshall_pb pn (record { symbol = name; trades = []; incs = []; snaps = [] }) in
      if skip && (is_empty info.trades && (is_empty info.incs && is_empty info.snaps))
      then []
      else info ∷ []

-- What the loop over the symbols makes: the symbols, the infos, and pm.Ts.
pub record Visited ⦃F : Floats⦄ : Type 0 where
  pub symbols : Table
  pub infos : List SymbolInfo
  pub ts : ℤ

module _ ⦃τ : Timing⦄ ⦃F : Floats⦄ where
  unfoldable pub visited_more :
      String → SymbolDef → List SymbolInfo → Option Visited → Option Visited
  visited_more name s infos none = none
  visited_more name s infos (some v) =
      some (record v { symbols = (name, s) ∷ v.symbols; infos = infos ++ v.infos })

  -- The loop; `none` is a panic in timeItr.
  unfoldable pub visit : Bool → ℤ → ℤ → Table → ℤ → Option Visited
  visit skip now born [] ts = some (record { symbols = []; infos = []; ts = ts })
  visit skip now born ((name, s) ∷ rest) ts = elim (time_itr s now born) [
    | panicked ↦ none
    | ticked r o ↦ elim o [
      | none ↦ visited_more name r [] (visit skip now born rest ts)
      | some pn ↦ visited_more name r (info_of skip name pn) (visit skip now born rest pn.start)
    ]
  ]

  -- What a round does: the next state, the message that it publishes, and whether it warns.
  pub record Outcome : Type 0 where
    pub state : Collector
    pub published : Option PeriodMessage
    pub warned : Bool

  unfoldable pub publish : Config → Readings → Collector → Visited → List SymbolInfo → Outcome
  publish cfg r c v [] = record {
    state = record c { period_symbols = v.symbols };
    published = none;
    warned = cfg.mon_enable && ltb_ℤ (pos 20) (r.later -ℤ c.last_period_ts);
  }
  publish cfg r c v (info ∷ infos) = record {
    state = record { period_symbols = v.symbols; last_period_ts = r.later };
    published = some (record {
      period = period_of r.unix -ℤ pos 1;
      ts = v.ts;
      post_ts = r.post_ts;
      poster_id = cfg.thunder_id;
      symbol_infos = info ∷ infos;
    });
    warned = false;
  }

  -- `none` is a panic: the division by a period of 0, or one in the loop.
  unfoldable pub collect : Config → Readings → Collector → Option Outcome
  collect cfg r c =
      let born = find_born c.period_symbols (born_of r.unix) in
      if is_zero period_ms
      then none
      else elim (visit cfg.skip_empty_quote r.now born c.period_symbols (pos 0)) [
        | none ↦ none
        | some v ↦ some (publish cfg r c v v.infos)
      ]
