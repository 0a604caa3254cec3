-- ===== src/RateLimit/Budget.antt =====
-- What Consume of ratelimit.go grants between two resets.
use text.Mathlib.Text.{◌==◌ as str_eq}
use text.Mathlib.TextEquality.{eq_iff}
use gobinace_qaggr_qrecv.Prelude.{
  ℤ, pos, negsuc, map, All, ◌+ℤ◌, ◌≤ℤ◌, ltb_ℤ, ltb_ℤ-true, ltb_ℤ-false, int_laws, String, false,
  Option, none, some, List, [], ◌∷◌, if◌then◌else◌, ◌≡◌, refl, subst, ◌∙◌, arith, Bool-cases,
  Option-cases, inl, inr, ◌⊎◌,
}
use gobinace_qaggr_qrecv.Generic.Dicts.{assign, lookup, lookup-assign}
use gobinace_qaggr_qrecv.RateLimit.Manager.{
  LimitConfig, Intervals, RateLimitManager, Refusal, Consumed, charge, consume_order, consume,
  add_int64, max_int64,
}

-- What a call that is not refused is worth.
abbrev pub worth : ℤ → Option Refusal → ℤ → ℤ
worth asked none n = if ltb_ℤ (pos 0) asked then n else pos 0
worth asked (some e) n = pos 0

pub worth-free :
    (asked : ℤ) (e : Option Refusal) (n : ℤ)
    → ltb_ℤ (pos 0) asked ≡ false
    → worth asked e n ≤ℤ pos 0
worth-free asked none n h = rw h (omega arith)
worth-free asked (some e) n h = omega arith

pub worth-bound : (asked : ℤ) (e : Option Refusal) (n : ℤ) → pos 0 ≤ℤ n → worth asked e n ≤ℤ n
worth-bound asked none n h = elim (Bool-cases (ltb_ℤ (pos 0) asked)) [
  | inl e ↦ rw e (omega arith)
  | inr e ↦ rw e h
]
worth-bound asked (some e) n h = h

-- The weight of the calls that are granted, in a sequence of them.
abbrev pub granted_weight : RateLimitManager → List (ℤ × ℤ) → ℤ
granted_weight m [] = pos 0
granted_weight m ((weight, limit) ∷ calls) =
    let r = consume weight limit m in worth weight r.1 weight +ℤ granted_weight r.0 calls

-- The number of granted calls that are orders.
abbrev pub granted_orders : RateLimitManager → List (ℤ × ℤ) → ℤ
granted_orders m [] = pos 0
granted_orders m ((weight, limit) ∷ calls) =
    let r = consume weight limit m in worth limit r.1 (pos 1) +ℤ granted_orders r.0 calls

-- A charge of one key leaves the others alone.
abbrev pub LeavesOthers : String → Intervals → Intervals → Type 0
LeavesOthers key m n =
    (other : String) → str_eq key other ≡ false → lookup str_eq other n ≡ lookup str_eq other m

pub assign-LeavesOthers :
    (key : String) (tv : LimitConfig) (m : Intervals) → LeavesOthers key m (assign str_eq key tv m)
assign-LeavesOthers key tv m other d = rw (lookup-assign str_eq eq_iff other key tv m, d) refl

pub charge_cases :
    (key : String) (asked taken : ℤ) (m : Intervals)
    → (charge key asked taken m ≡ none)
      ⊎ ((n : Intervals) × (charge key asked taken m ≡ some n) × LeavesOthers key m n)
unfolding charge lookup
charge_cases key asked taken m = elim (Option-cases (lookup str_eq key m)) [
  | inl e ↦ rw (e, charge) (inr (m, refl, λ other d. refl))
  | inr (tv, e) ↦ elim (Bool-cases (ltb_ℤ tv.limit (add_int64 tv.count asked))) [
    | inl h ↦ rw (e, charge) (inl (rw h refl))
    | inr h ↦ rw (e, charge) (inr (rw h (assign str_eq key _ m, refl, assign-LeavesOthers key _ m)))
  ]
]

-- A charge of a key that is there.
pub charge-lookup :
    (key : String) (asked taken : ℤ) (m : Intervals) (tv : LimitConfig)
    → lookup str_eq key m ≡ some tv
    → (charge key asked taken m ≡ none)
      ⊎ ((n : Intervals) × (charge key asked taken m ≡ some n)
          × (ltb_ℤ tv.limit (add_int64 tv.count asked) ≡ false)
          × (lookup str_eq key n ≡ some (record tv { count = add_int64 tv.count taken })))
unfolding charge ◌+ℤ◌ lookup
charge-lookup key asked taken m tv e =
    rw (e, charge)
      (elim (Bool-cases (ltb_ℤ tv.limit (add_int64 tv.count asked))) [
        | inl h ↦ inl (rw h refl)
        | inr h ↦ inr (
            rw h (
              assign str_eq key (record tv { count = add_int64 tv.count taken }) m,
              refl,
              refl,
              rw
                  (
                    lookup-assign str_eq eq_iff key key
                        (record tv { count = add_int64 tv.count taken }) m,
                    (eq_iff key key).1 refl,
                  )
                  refl,
            ))
      ])

-- The order branch leaves the weight per minute alone.
consume_order-minute :
    (limit : ℤ) (m : RateLimitManager)
    → lookup str_eq "MINUTE" (consume_order limit m).0.req_weight_intervals
      ≡ lookup str_eq "MINUTE" m.req_weight_intervals
unfolding consume_order
consume_order-minute limit m = elim (Bool-cases (ltb_ℤ (pos 0) limit)) [
  | inr h ↦ rw h refl
  | inl h ↦ rw h (elim (charge_cases "MINUTE" (pos 1) limit m.order_intervals) [
    | inl c ↦ rw c refl
    | inr (n, c, _) ↦ rw c (elim (charge_cases "SECOND" (pos 1) limit m.req_weight_intervals) [
      | inl d ↦ rw d refl
      | inr (k, d, same) ↦ rw d (same "MINUTE" refl)
    ])
  ])
]

-- A sum of two numbers that are not negative, where it is an int64.
pub add_int64-small :
    (a b : ℤ) → pos 0 ≤ℤ a → pos 0 ≤ℤ b → a +ℤ b ≤ℤ max_int64 → add_int64 a b ≡ a +ℤ b
unfolding add_int64
add_int64-small a b p q r = elim (Bool-cases (ltb_ℤ max_int64 (a +ℤ b))) [
  | inl e ↦ absurd (let x = ltb_ℤ-true max_int64 (a +ℤ b) e in omega int_laws)
  | inr e ↦ rw e (elim (Bool-cases (ltb_ℤ (a +ℤ b) (negsuc 9223372036854775807))) [
    | inl f ↦ absurd (let x = ltb_ℤ-true (a +ℤ b) (negsuc 9223372036854775807) f in omega int_laws)
    | inr f ↦ rw f refl
  ])
]

-- What Consume keeps of the weight per minute, and what it counts.
abbrev Pays : LimitConfig → ℤ → Consumed → Type 0
Pays tv weight r =
    (n : LimitConfig) × (lookup str_eq "MINUTE" r.0.req_weight_intervals ≡ some n)
    × (n.limit ≡ tv.limit)
    × (n.count ≤ℤ tv.limit)
    × (worth weight r.1 weight +ℤ tv.count ≤ℤ n.count)
    × (pos 0 ≤ℤ n.count)

-- The weights that fit into an int64 with the limit.
abbrev pub AreSmall : ℤ → List ℤ → Type 0
AreSmall limit = All (λ (n : ℤ). n +ℤ limit ≤ℤ max_int64)

consume-Pays :
    (weight limit : ℤ) (m : RateLimitManager) (tv : LimitConfig)
    → lookup str_eq "MINUTE" m.req_weight_intervals ≡ some tv
    → tv.count ≤ℤ tv.limit
    → pos 0 ≤ℤ tv.count
    → weight +ℤ tv.limit ≤ℤ max_int64
    → Pays tv weight (consume weight limit m)
unfolding consume
consume-Pays weight limit m tv e h z small = elim (Bool-cases (ltb_ℤ (pos 0) weight)) [
  | inr w ↦ rw w (
    tv,
    consume_order-minute limit m ∙ e,
    refl,
    h,
    let z = worth-free weight (consume_order limit m).1 weight w in omega int_laws,
    z,
  )
  | inl w ↦
      let p = ltb_ℤ-true (pos 0) weight w in
      let sum : add_int64 tv.count weight ≡ tv.count +ℤ weight =
        add_int64-small tv.count weight z (omega int_laws) (omega int_laws) in
      rw w (elim (charge-lookup "MINUTE" weight weight m.req_weight_intervals tv e) [
        | inl c ↦ rw c (tv, e, refl, h, omega int_laws, z)
        | inr (n, c, l, f) ↦
            let room = ltb_ℤ-false tv.limit (tv.count +ℤ weight) (rw sum at l) in
            rw c (elim (charge_cases "SECOND" weight weight n) [
              | inl d ↦ rw d (
                record tv { count = tv.count +ℤ weight },
                rw sum at f,
                refl,
                room,
                omega int_laws,
                omega int_laws,
              )
              | inr (k, d, same) ↦ rw d (
                record tv { count = tv.count +ℤ weight },
                consume_order-minute limit _ ∙ same "MINUTE" refl ∙ (rw sum at f),
                refl,
                room,
                let z =
                      worth-bound weight
                        (consume_order limit (record m { req_weight_intervals = k })).1 weight
                        (omega int_laws) in
                    omega int_laws,
                omega int_laws,
              )
            ])
      ])
]

pub add_bound : (w g c n lim : ℤ) → w +ℤ c ≤ℤ n → g +ℤ n ≤ℤ lim → w +ℤ g +ℤ c ≤ℤ lim
add_bound w g c n lim h k = omega int_laws

-- There is a limit on the weight per minute, its count is neither negative nor past it, and each weight
-- that is asked for, added to the limit, is at most the last int64; the sums of the code may wrap else.
-- Then, while the counters are not reset, the calls that Consume grants weigh no more than what is left
-- of the limit, in whatever order they come.
pub granted_weight-bound :
    (calls : List (ℤ × ℤ)) (m : RateLimitManager) (tv : LimitConfig)
    → lookup str_eq "MINUTE" m.req_weight_intervals ≡ some tv
    → tv.count ≤ℤ tv.limit
    → pos 0 ≤ℤ tv.count
    → AreSmall tv.limit (map (λ (c : ℤ × ℤ). c.0) calls)
    → granted_weight m calls +ℤ tv.count ≤ℤ tv.limit
granted_weight-bound [] m tv e h z s = omega int_laws
granted_weight-bound ((weight, limit) ∷ calls) m tv e h z s =
    let p = consume-Pays weight limit m tv e h z s.0 in
    let r = consume weight limit m in
    let rest = granted_weight-bound calls r.0 p.0 p.1 (rw p.2 p.3) p.5 (rw p.2 s.1) in
    add_bound (worth weight r.1 weight) (granted_weight r.0 calls) tv.count (p.0).count tv.limit p.4
      (subst (λ x. granted_weight r.0 calls +ℤ (p.0).count ≤ℤ x) p.2 rest)
