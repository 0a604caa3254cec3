-- ===== src/RateLimit/Samples.antt =====
-- Runs of ratelimit.go at concrete inputs, and the theorems at inputs that meet their hypotheses.
use text.Mathlib.Text.{◌==◌ as str_eq}
use gobinace_qaggr_qrecv.Prelude.{
  ℤ, pos, ◌+ℤ◌, ◌-ℤ◌, ◌*ℤ◌, ◌≤ℤ◌, quot, none, some, List, [], ◌∷◌, ◌≡◌, refl, arith,
}
use gobinace_qaggr_qrecv.Generic.Dicts.{lookup, assign}
use gobinace_qaggr_qrecv.RateLimit.Manager.{
  LimitConfig, RateLimitManager, RateLimit, new_rate_limit_manager, update_rate_limit_manager,
  max_int64, add_int64, set_rate_limit, set_interval, is_known, tick, reset_intervals, reset_key,
  reset_interval, not_implemented, consume, consume_order, charge,
}
use gobinace_qaggr_qrecv.RateLimit.Budget.{granted_weight, granted_orders, granted_weight-bound}
use gobinace_qaggr_qrecv.RateLimit.Orders.{
  IsRoomFor, granted_orders-bound, IsSame, consume-order_second,
}
use gobinace_qaggr_qrecv.RateLimit.Update.{latest, update-latest}

abbrev announced : List RateLimit
announced =
    record {
      rate_limit_type = "REQUEST_WEIGHT";
      interval = "MINUTE";
      interval_num = pos 1;
      limit = pos 10;
    }
    ∷ record {
      rate_limit_type = "ORDERS";
      interval = "MINUTE";
      interval_num = pos 1;
      limit = pos 3;
    }
    ∷ record {
      rate_limit_type = "RAW_REQUESTS";
      interval = "MINUTE";
      interval_num = pos 5;
      limit = pos 9;
    }
    ∷ []

abbrev minute_of : ℤ → ℤ → LimitConfig
minute_of limit count = record { interval = pos 1; count = count; limit = limit; current = pos 0 }

abbrev manager : RateLimitManager
manager = record {
  order_intervals = ("MINUTE", minute_of (pos 3) (pos 0)) ∷ [];
  req_weight_intervals = ("MINUTE", minute_of (pos 10) (pos 0)) ∷ [];
}

-- Three calls of weight 4, each an order that counts 2: the third is refused.
abbrev three_calls : List (ℤ × ℤ)
three_calls = (pos 4, pos 2) ∷ (pos 4, pos 2) ∷ (pos 4, pos 2) ∷ []

calls_run :
    (update_rate_limit_manager announced new_rate_limit_manager ≡ manager)
    × (granted_weight manager three_calls ≡ pos 8)
    × (granted_orders manager three_calls ≡ pos 2)
    × (tick (pos 125) manager
        ≡ some (record {
          order_intervals =
              ("MINUTE", record (minute_of (pos 3) (pos 0)) { current = pos 120 }) ∷ [];
          req_weight_intervals =
              ("MINUTE", record (minute_of (pos 10) (pos 0)) { current = pos 120 }) ∷ [];
        }))
unfolding update_rate_limit_manager new_rate_limit_manager set_rate_limit set_interval is_known
    assign lookup tick reset_intervals reset_key reset_interval not_implemented consume
    consume_order charge add_int64 ◌+ℤ◌ ◌-ℤ◌ ◌*ℤ◌ quot
calls_run = (refl, refl, refl, refl)

granted_weight-bound_example : granted_weight manager three_calls +ℤ pos 0 ≤ℤ pos 10
unfolding lookup ◌+ℤ◌
granted_weight-bound_example =
    granted_weight-bound three_calls manager (minute_of (pos 10) (pos 0)) refl (omega arith)
      (omega arith) (omega arith, (omega arith, (omega arith, tt)))

-- The sum wraps, and a weight that is past the limit is granted.
consume-wraps :
    (consume max_int64 (pos 0) (record {
      order_intervals = [];
      req_weight_intervals = ("MINUTE", minute_of (pos 10) (pos 4)) ∷ [];
    })).1
    ≡ none
unfolding consume consume_order charge add_int64 assign lookup ◌+ℤ◌ ◌-ℤ◌
consume-wraps = refl

granted_orders-bound_example :
    IsRoomFor (granted_orders manager three_calls) (minute_of (pos 3) (pos 0))
unfolding lookup ◌+ℤ◌
granted_orders-bound_example =
    granted_orders-bound three_calls manager (minute_of (pos 3) (pos 0)) refl (omega arith)
      (omega arith) (omega arith, (omega arith, (omega arith, tt)))

consume-order_second_example :
    IsSame
      (consume (pos 4) (pos 2) (record manager {
        order_intervals =
            assign str_eq "SECOND" (minute_of (pos 1) (pos 1)) manager.order_intervals;
      }))
      (consume (pos 4) (pos 2) manager)
consume-order_second_example =
    consume-order_second (pos 4) (pos 2) manager (minute_of (pos 1) (pos 1))

update-latest_example :
    (lookup str_eq "MINUTE"
        (update_rate_limit_manager announced new_rate_limit_manager).req_weight_intervals
      ≡ latest "REQUEST_WEIGHT" "MINUTE" announced
          (lookup str_eq "MINUTE" new_rate_limit_manager.req_weight_intervals))
    × (lookup str_eq "MINUTE"
          (update_rate_limit_manager announced new_rate_limit_manager).order_intervals
        ≡ latest "ORDERS" "MINUTE" announced
            (lookup str_eq "MINUTE" new_rate_limit_manager.order_intervals))
update-latest_example = update-latest announced new_rate_limit_manager "MINUTE"
