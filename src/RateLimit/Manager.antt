-- ===== src/RateLimit/Manager.antt =====
-- The counters of the rate limiter: UpdateRateLimitManager, a round of Open, and Consume.
use text.Mathlib.Text.{◌==◌ as str_eq}
use gobinace_qaggr_qrecv.Prelude.{
  negsuc, ℤ, pos, ◌+ℤ◌, ◌-ℤ◌, ◌*ℤ◌, quot, ltb_ℤ, is_nought, String, Bool, true, Option, none, some,
  List, [], ◌∷◌, if◌then◌else◌, ◌>>=◌,
}
use gobinace_qaggr_qrecv.Generic.Dicts.{assign, lookup}

pub record LimitConfig : Type 0 where
  pub interval : ℤ
  pub count : ℤ
  pub limit : ℤ
  pub current : ℤ

abbrev pub Intervals : Type 0
Intervals = List (String × LimitConfig)

pub record RateLimitManager : Type 0 where
  pub order_intervals : Intervals
  pub req_weight_intervals : Intervals

unfoldable pub new_rate_limit_manager : RateLimitManager
new_rate_limit_manager = record { order_intervals = []; req_weight_intervals = [] }

-- What is read of an entry of ExchangeInfo.RateLimits.
pub record RateLimit : Type 0 where
  pub rate_limit_type : String
  pub interval : String
  pub interval_num : ℤ
  pub limit : ℤ

-- The four names that the switch knows.
unfoldable pub is_known : String → Bool
is_known s =
    if str_eq s "SECOND"
    then true
    else if str_eq s "MINUTE"
    then true
    else if str_eq s "HOUR"
    then true
    else str_eq s "DAY"

unfoldable pub set_interval : RateLimit → Intervals → Intervals
set_interval rl m =
    if is_known rl.interval
    then assign str_eq rl.interval
        (record { interval = rl.interval_num; count = pos 0; limit = rl.limit; current = pos 0 }) m
    else m

unfoldable pub set_rate_limit : RateLimit → RateLimitManager → RateLimitManager
set_rate_limit rl m =
    if str_eq rl.rate_limit_type "REQUEST_WEIGHT"
    then record m { req_weight_intervals = set_interval rl m.req_weight_intervals }
    else if str_eq rl.rate_limit_type "ORDERS"
    then record m { order_intervals = set_interval rl m.order_intervals }
    else m

unfoldable pub update_rate_limit_manager : List RateLimit → RateLimitManager → RateLimitManager
update_rate_limit_manager [] m = m
update_rate_limit_manager (rl ∷ rest) m = update_rate_limit_manager rest (set_rate_limit rl m)

-- `secs%intv == 0` resets the count, and `current` is the start of the interval; `none` is the
-- division by 0.
unfoldable pub reset_interval : ℤ → ℤ → LimitConfig → Option LimitConfig
reset_interval secs intv tv =
    let start = quot secs intv *ℤ intv in
    if is_nought intv
    then none
    else some (record tv {
      count = if is_nought (secs -ℤ start) then pos 0 else tv.count;
      current = start;
    })

abbrev pub assigned : String → Intervals → Option LimitConfig → Option Intervals
assigned key m none = none
assigned key m (some tv) = some (assign str_eq key tv m)

-- One of the blocks of Open, for a key and its length in seconds.
unfoldable pub reset_key : ℤ → String → ℤ → Intervals → Option Intervals
reset_key secs key unit m = elim (lookup str_eq key m) [
  | none ↦ some m
  | some tv ↦ assigned key m (reset_interval secs (tv.interval *ℤ unit) tv)
]

-- The key "HOUR" panics.
unfoldable pub not_implemented : Intervals → Option Intervals
not_implemented m = elim (lookup str_eq "HOUR" m) [ none ↦ some m | some tv ↦ none ]

-- The three blocks for one of the maps.
unfoldable pub reset_intervals : ℤ → Intervals → Option Intervals
reset_intervals secs m = do
  a ← reset_key secs "SECOND" (pos 1) m
  b ← reset_key secs "MINUTE" (pos 60) a
  not_implemented b

-- A round of Open; `none` is a panic. `secs` is the second of the day.
unfoldable pub tick : ℤ → RateLimitManager → Option RateLimitManager
tick secs m = do
  orders ← reset_intervals secs m.order_intervals
  weights ← reset_intervals secs m.req_weight_intervals
  some (record { order_intervals = orders; req_weight_intervals = weights })

pub data Refusal : Type 0 where
  reqweight_minute_limit_exceeded reqweight_second_limit_exceeded : Refusal
  order_minute_limit_exceeded order_second_limit_exceeded : Refusal

-- The largest int64, and the sum of two int64.
abbrev pub max_int64 : ℤ
max_int64 = pos 9223372036854775807

unfoldable pub add_int64 : ℤ → ℤ → ℤ
add_int64 a b =
    if ltb_ℤ max_int64 (a +ℤ b)
    then a +ℤ b -ℤ pos 18446744073709551616
    else if ltb_ℤ (a +ℤ b) (negsuc 9223372036854775807)
    then a +ℤ b +ℤ pos 18446744073709551616
    else a +ℤ b

-- `if tv.count + asked > tv.limit` refuses; else `tv.count += taken`; `none` is the refusal.
unfoldable pub charge : String → ℤ → ℤ → Intervals → Option Intervals
charge key asked taken m = elim (lookup str_eq key m) [
  | none ↦ some m
  | some tv ↦
      if ltb_ℤ tv.limit (add_int64 tv.count asked)
      then none
      else some (assign str_eq key (record tv { count = add_int64 tv.count taken }) m)
]

-- The state and the error; `none` is `true, nil`.
abbrev pub Consumed : Type 0
Consumed = RateLimitManager × Option Refusal

-- `if limit > 0`. Both blocks ask for 1 and take `limit`, and the second one is on
-- req_weight_intervals.
unfoldable pub consume_order : ℤ → RateLimitManager → Consumed
consume_order limit m =
    if ltb_ℤ (pos 0) limit
    then elim (charge "MINUTE" (pos 1) limit m.order_intervals) [
      | none ↦ (m, some order_minute_limit_exceeded)
      | some orders ↦ elim (charge "SECOND" (pos 1) limit m.req_weight_intervals) [
        | none ↦ (record m { order_intervals = orders }, some order_second_limit_exceeded)
        | some weights ↦ (record { order_intervals = orders; req_weight_intervals = weights }, none)
      ]
    ]
    else (m, none)

unfoldable pub consume : ℤ → ℤ → RateLimitManager → Consumed
consume weight limit m =
    if ltb_ℤ (pos 0) weight
    then elim (charge "MINUTE" weight weight m.req_weight_intervals) [
      | none ↦ (m, some reqweight_minute_limit_exceeded)
      | some minute ↦ elim (charge "SECOND" weight weight minute) [
        | none ↦ (record m { req_weight_intervals = minute }, some reqweight_second_limit_exceeded)
        | some both ↦ consume_order limit (record m { req_weight_intervals = both })
      ]
    ]
    else consume_order limit m
