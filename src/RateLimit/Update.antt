-- ===== src/RateLimit/Update.antt =====
-- What UpdateRateLimitManager and the timer of ratelimit.go leave in the counters.
use text.Mathlib.Text.{◌==◌ as str_eq}
use text.Mathlib.TextEquality.{eq_iff}
use gobinace_qaggr_qrecv.Prelude.{
  ℕ, zero, suc, ◌+◌, ◌*◌, ◌/◌, ◌≤◌, ◌<◌, pos, ◌-ℤ◌, ◌*ℤ◌, quot, is_nought, int_laws, String, true,
  false, ◌&&◌, Option, some, List, [], ◌∷◌, if◌then◌else◌, ◌≡◌, ◌≢◌, ◌↔◌, refl, subst, sym, ap, ◌∙◌,
  arith, Bool-cases, inl, inr,
}
use gobinace_qaggr_qrecv.Generic.Dicts.{lookup, lookup-assign, clash}
use gobinace_qaggr_qrecv.RateLimit.Manager.{
  LimitConfig, Intervals, RateLimitManager, RateLimit, is_known, set_interval, set_rate_limit,
  update_rate_limit_manager, reset_interval,
}

-- The entry that an announced limit makes.
abbrev pub entry_of : RateLimit → LimitConfig
entry_of rl = record {
  interval = rl.interval_num;
  count = pos 0;
  limit = rl.limit;
  current = pos 0;
}

-- The last announced limit of a type for a key, if there is one; else what was there.
abbrev pub latest : String → String → List RateLimit → Option LimitConfig → Option LimitConfig
latest kind key [] d = d
latest kind key (rl ∷ rest) d = latest kind key rest (
    if str_eq rl.rate_limit_type kind && (is_known rl.interval && str_eq rl.interval key)
    then some (entry_of rl)
    else d)

lookup-set_interval :
    (key : String) (rl : RateLimit) (m : Intervals)
    → lookup str_eq key (set_interval rl m) ≡ (
        if is_known rl.interval && str_eq rl.interval key
        then some (entry_of rl)
        else lookup str_eq key m)
unfolding set_interval
lookup-set_interval key rl m = elim (Bool-cases (is_known rl.interval)) [
  | inl e ↦ rw e (lookup-assign str_eq eq_iff key rl.interval (entry_of rl) m)
  | inr e ↦ rw e refl
]

-- What one announced limit does to a lookup in the map of its type.
abbrev set_for : String → String → RateLimit → Option LimitConfig → Option LimitConfig
set_for kind key rl d =
    if str_eq rl.rate_limit_type kind && (is_known rl.interval && str_eq rl.interval key)
    then some (entry_of rl)
    else d

lookup-set_rate_limit :
    (key : String) (rl : RateLimit) (m : RateLimitManager)
    → (lookup str_eq key (set_rate_limit rl m).req_weight_intervals
        ≡ set_for "REQUEST_WEIGHT" key rl (lookup str_eq key m.req_weight_intervals))
      × (lookup str_eq key (set_rate_limit rl m).order_intervals
          ≡ set_for "ORDERS" key rl (lookup str_eq key m.order_intervals))
unfolding set_rate_limit
lookup-set_rate_limit key rl m = elim (Bool-cases (str_eq rl.rate_limit_type "REQUEST_WEIGHT")) [
  | inl e ↦
      let o : str_eq rl.rate_limit_type "ORDERS" ≡ false =
        subst (λ t. str_eq t "ORDERS" ≡ false)
          (sym ((eq_iff rl.rate_limit_type "REQUEST_WEIGHT").0 e)) refl in
      rw (e, o) (lookup-set_interval key rl m.req_weight_intervals, refl)
  | inr e ↦ rw e (elim (Bool-cases (str_eq rl.rate_limit_type "ORDERS")) [
    | inl o ↦ rw o (refl, lookup-set_interval key rl m.order_intervals)
    | inr o ↦ rw o (refl, refl)
  ])
]

-- After an update each key of each map has the last limit that is announced for it, with a count of
-- 0, and what it had before if none is; types and intervals with other names are left out.
pub update-latest :
    (rls : List RateLimit) (m : RateLimitManager) (key : String)
    → (lookup str_eq key (update_rate_limit_manager rls m).req_weight_intervals
        ≡ latest "REQUEST_WEIGHT" key rls (lookup str_eq key m.req_weight_intervals))
      × (lookup str_eq key (update_rate_limit_manager rls m).order_intervals
          ≡ latest "ORDERS" key rls (lookup str_eq key m.order_intervals))
unfolding update_rate_limit_manager
update-latest [] m key = (refl, refl)
update-latest (rl ∷ rest) m key =
    let r = update-latest rest (set_rate_limit rl m) key in
    let s = lookup-set_rate_limit key rl m in
    (r.0 ∙ ap (latest "REQUEST_WEIGHT" key rest) s.0, r.1 ∙ ap (latest "ORDERS" key rest) s.1)

-- The start of the interval of `p` seconds that the second `s` of the day is in; the count is 0 at
-- this start, and else as before.
abbrev pub IsReset : ℕ → ℕ → LimitConfig → LimitConfig → Type 0
IsReset s p tv n =
    (start : ℕ) × (n.current ≡ pos (start * p))
    × (start * p ≤ s)
    × (s < start * p + p)
    × (start * p ≡ s → n.count ≡ pos 0)
    × (start * p ≢ s → n.count ≡ tv.count)

quotient_bounds : (s p : ℕ) → ((s / suc p) * suc p ≤ s) × (s < (s / suc p) * suc p + suc p)
quotient_bounds s p = (grind arith, grind arith)

pos_product : (a b : ℕ) → pos a *ℤ pos b ≡ pos (a * b)
pos_product a b = omega int_laws

nought_difference : (a b : ℕ) → (is_nought (pos a -ℤ pos b) ≡ true) ↔ (b ≡ a)
unfolding ◌-ℤ◌
nought_difference a b = grind arith

-- A round of the timer resets a count in the first second of an interval, and at no other time.
pub reset_interval-IsReset :
    (s p : ℕ) (tv : LimitConfig)
    → 1 ≤ p
    → (n : LimitConfig) × (reset_interval (pos s) (pos p) tv ≡ some n) × IsReset s p tv n
unfolding reset_interval quot
reset_interval-IsReset s zero tv h = absurd (omega arith)
reset_interval-IsReset s (suc p) tv h =
    let q = s / suc p in
    let b = quotient_bounds s p in
    let d = nought_difference s (q * suc p) in
    rw (pos_product q (suc p)) (elim (Bool-cases (is_nought (pos s -ℤ pos (q * suc p)))) [
      | inl e ↦ rw e (_, refl, (q, refl, b.0, b.1, λ _. refl, λ n. absurd (n (d.0 e))))
      | inr e ↦ rw e (_, refl, (q, refl, b.0, b.1, λ n. absurd (clash _ (d.1 n) e), λ _. refl))
    ])
