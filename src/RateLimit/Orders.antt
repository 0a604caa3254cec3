-- ===== src/RateLimit/Orders.antt =====
-- What Consume of ratelimit.go grants to orders, and which of their limits it heeds.
use text.Mathlib.Text.{◌==◌ as str_eq}
use gobinace_qaggr_qrecv.Prelude.{
  ℤ, pos, map, ◌<ℤ◌, ◌+ℤ◌, ◌≤ℤ◌, ltb_ℤ, ltb_ℤ-true, ltb_ℤ-false, int_laws, String, none, some, List,
  [], ◌∷◌, ◌≡◌, refl, subst, ◌∙◌, arith, Bool-cases, Option-cases, inl, inr, ◌⊎◌,
}
use gobinace_qaggr_qrecv.Generic.Dicts.{assign, lookup}
use gobinace_qaggr_qrecv.RateLimit.Manager.{
  LimitConfig, Intervals, RateLimitManager, Refusal, Consumed, charge, consume_order, consume,
  add_int64, max_int64,
}
use gobinace_qaggr_qrecv.RateLimit.Budget.{
  worth, worth-free, worth-bound, AreSmall, add_int64-small, granted_orders, charge-lookup,
  charge_cases, assign-LeavesOthers,
}

-- A call is refused for its weight, and then no order counts, or it goes on to the orders.
consume_cases :
    (weight limit : ℤ) (m : RateLimitManager)
    → ((k : Intervals) × (e : Refusal) × (consume weight limit m
          ≡ (record m { req_weight_intervals = k }, some e)))
      ⊎ ((k : Intervals) × (consume weight limit m
            ≡ consume_order limit (record m { req_weight_intervals = k })))
unfolding consume
consume_cases weight limit m = elim (Bool-cases (ltb_ℤ (pos 0) weight)) [
  | inr w ↦ rw w (inr (m.req_weight_intervals, refl))
  | inl w ↦ rw w (elim (charge_cases "MINUTE" weight weight m.req_weight_intervals) [
    | inl c ↦ rw c (inl (m.req_weight_intervals, _, refl))
    | inr (n, c, _) ↦ rw c (elim (charge_cases "SECOND" weight weight n) [
      | inl d ↦ rw d (inl (n, _, refl))
      | inr (k, d, _) ↦ rw d (inr (k, refl))
    ])
  ])
]

-- What a call does to the orders per minute: an order that is granted finds room for 1.
abbrev Counts : LimitConfig → ℤ → Consumed → Type 0
Counts tv limit r =
    (n : LimitConfig) × (lookup str_eq "MINUTE" r.0.order_intervals ≡ some n)
    × (n.limit ≡ tv.limit)
    × (((worth limit r.1 (pos 1) ≤ℤ pos 0) × (tv.count ≤ℤ n.count))
        ⊎ ((worth limit r.1 (pos 1) ≤ℤ pos 1)
            × (tv.count +ℤ pos 1 ≤ℤ tv.limit)
            × (tv.count +ℤ pos 1 ≤ℤ n.count)))
    × (pos 0 ≤ℤ n.count)
    × (n.count <ℤ max_int64)

consume_order-Counts :
    (limit : ℤ) (m : RateLimitManager) (tv : LimitConfig)
    → lookup str_eq "MINUTE" m.order_intervals ≡ some tv
    → pos 0 ≤ℤ tv.count
    → tv.count <ℤ max_int64
    → limit +ℤ tv.limit ≤ℤ max_int64
    → Counts tv limit (consume_order limit m)
unfolding consume_order
consume_order-Counts limit m tv e z below small = elim (Bool-cases (ltb_ℤ (pos 0) limit)) [
  | inr w ↦ rw w (tv, e, refl, inl (worth-free limit none (pos 1) w, omega arith), z, below)
  | inl w ↦
      let p = ltb_ℤ-true (pos 0) limit w in
      let one : add_int64 tv.count (pos 1) ≡ tv.count +ℤ pos 1 =
        add_int64-small tv.count (pos 1) z (omega arith) (omega int_laws) in
      rw w (elim (charge-lookup "MINUTE" (pos 1) limit m.order_intervals tv e) [
        | inl c ↦ rw c (tv, e, refl, inl (omega arith, omega arith), z, below)
        | inr (n, c, l, f) ↦
            let room = ltb_ℤ-false tv.limit (tv.count +ℤ pos 1) (rw one at l) in
            let sum : add_int64 tv.count limit ≡ tv.count +ℤ limit =
              add_int64-small tv.count limit z (omega int_laws) (omega int_laws) in
            rw c (elim (charge_cases "SECOND" (pos 1) limit m.req_weight_intervals) [
              | inl d ↦ rw d (
                record tv { count = tv.count +ℤ limit },
                rw sum at f,
                refl,
                inl (omega arith, omega int_laws),
                omega int_laws,
                omega int_laws,
              )
              | inr (k, d, _) ↦ rw d (
                record tv { count = tv.count +ℤ limit },
                rw sum at f,
                refl,
                inr (worth-bound limit none (pos 1) (omega arith), room, omega int_laws),
                omega int_laws,
                omega int_laws,
              )
            ])
      ])
]

consume-Counts :
    (weight limit : ℤ) (m : RateLimitManager) (tv : LimitConfig)
    → lookup str_eq "MINUTE" m.order_intervals ≡ some tv
    → pos 0 ≤ℤ tv.count
    → tv.count <ℤ max_int64
    → limit +ℤ tv.limit ≤ℤ max_int64
    → Counts tv limit (consume weight limit m)
consume-Counts weight limit m tv e z below small = elim (consume_cases weight limit m) [
  | inl (k, x, c) ↦ rw c (tv, e, refl, inl (omega arith, omega arith), z, below)
  | inr (k, c) ↦
      rw c (consume_order-Counts limit (record m { req_weight_intervals = k }) tv e z below small)
]

-- None, or no more than there is room for.
abbrev pub IsRoomFor : ℤ → LimitConfig → Type 0
IsRoomFor n tv = (n ≤ℤ pos 0) ⊎ (n +ℤ tv.count ≤ℤ tv.limit)

one_more :
    (w g : ℤ) (tv n : LimitConfig)
    → n.limit ≡ tv.limit
    → ((w ≤ℤ pos 0) × (tv.count ≤ℤ n.count))
      ⊎ ((w ≤ℤ pos 1) × (tv.count +ℤ pos 1 ≤ℤ tv.limit) × (tv.count +ℤ pos 1 ≤ℤ n.count))
    → IsRoomFor g n
    → IsRoomFor (w +ℤ g) tv
one_more w g tv n e h r =
    let s = subst (λ l. (g ≤ℤ pos 0) ⊎ (g +ℤ n.count ≤ℤ l)) e r in
    elim h [
      | inl a ↦ elim s [ inl b ↦ inl (omega int_laws) | inr b ↦ inr (omega int_laws) ]
      | inr a ↦ elim s [ inl b ↦ inr (omega int_laws) | inr b ↦ inr (omega int_laws) ]
    ]

-- There is a limit on the orders per minute, its count is neither negative nor the last int64, and what
-- each call counts, added to the limit, is at most the last int64; the sums of the code may wrap else.
-- Then, while the counters are not reset, Consume grants no more orders than the limit has room for, in
-- whatever order the calls come, though an order may count more than once.
pub granted_orders-bound :
    (calls : List (ℤ × ℤ)) (m : RateLimitManager) (tv : LimitConfig)
    → lookup str_eq "MINUTE" m.order_intervals ≡ some tv
    → pos 0 ≤ℤ tv.count
    → tv.count <ℤ max_int64
    → AreSmall tv.limit (map (λ (c : ℤ × ℤ). c.1) calls)
    → IsRoomFor (granted_orders m calls) tv
granted_orders-bound [] m tv e z below s = inl (omega arith)
granted_orders-bound ((weight, limit) ∷ calls) m tv e z below s =
    let p = consume-Counts weight limit m tv e z below s.0 in
    let r = consume weight limit m in
    one_more (worth limit r.1 (pos 1)) (granted_orders r.0 calls) tv p.0 p.2 p.3
      (granted_orders-bound calls r.0 p.0 p.1 p.4 p.5 (rw p.2 s.1))

-- The same answer, and the same weights.
abbrev pub IsSame : Consumed → Consumed → Type 0
IsSame s r = (s.1 ≡ r.1) × (s.0.req_weight_intervals ≡ r.0.req_weight_intervals)

charge-agrees :
    (key : String) (asked taken : ℤ) (a b : Intervals)
    → lookup str_eq key a ≡ lookup str_eq key b
    → ((charge key asked taken a ≡ none) × (charge key asked taken b ≡ none))
      ⊎ ((x y : Intervals) × (charge key asked taken a ≡ some x)
          × (charge key asked taken b ≡ some y))
unfolding charge lookup
charge-agrees key asked taken a b e = elim (Option-cases (lookup str_eq key b)) [
  | inl h ↦ rw (e ∙ h, h, charge) (inr (a, b, refl, refl))
  | inr (tv, h) ↦ elim (Bool-cases (ltb_ℤ tv.limit (add_int64 tv.count asked))) [
    | inl l ↦ rw (e ∙ h, h, charge) (rw l (inl (refl, refl)))
    | inr l ↦ rw (e ∙ h, h, charge) (rw l (inr (_, _, refl, refl)))
  ]
]

consume_order-IsSame :
    (limit : ℤ) (m : RateLimitManager) (o : Intervals)
    → lookup str_eq "MINUTE" o ≡ lookup str_eq "MINUTE" m.order_intervals
    → IsSame (consume_order limit (record m { order_intervals = o })) (consume_order limit m)
unfolding consume_order
consume_order-IsSame limit m o e = elim (Bool-cases (ltb_ℤ (pos 0) limit)) [
  | inr w ↦ rw w (refl, refl)
  | inl w ↦ rw w (elim (charge-agrees "MINUTE" (pos 1) limit o m.order_intervals e) [
    | inl c ↦ rw (c.0, c.1) (refl, refl)
    | inr (x, y, c, d) ↦
        rw (c, d)
          (elim (charge_cases "SECOND" (pos 1) limit m.req_weight_intervals) [
            | inl f ↦ rw f (refl, refl)
            | inr (k, f, _) ↦ rw f (refl, refl)
          ])
  ])
]

-- The limit on orders per second is never read: with any entry for it, and with none, Consume gives
-- the same answer and makes the same charges on the weights.
pub consume-order_second :
    (weight limit : ℤ) (m : RateLimitManager) (tv : LimitConfig)
    → IsSame
        (consume weight limit
          (record m { order_intervals = assign str_eq "SECOND" tv m.order_intervals }))
        (consume weight limit m)
unfolding consume
consume-order_second weight limit m tv =
    let e = assign-LeavesOthers "SECOND" tv m.order_intervals "MINUTE" refl in
    let o = assign str_eq "SECOND" tv m.order_intervals in
    elim (Bool-cases (ltb_ℤ (pos 0) weight)) [
      | inr w ↦ rw w (consume_order-IsSame limit m o e)
      | inl w ↦ rw w (elim (charge_cases "MINUTE" weight weight m.req_weight_intervals) [
        | inl c ↦ rw c (refl, refl)
        | inr (n, c, _) ↦ rw c (elim (charge_cases "SECOND" weight weight n) [
          | inl d ↦ rw d (refl, refl)
          | inr (k, d, _) ↦
              rw d (consume_order-IsSame limit (record m { req_weight_intervals = k }) o e)
        ])
      ])
    ]
