-- ===== src/Collector/Grid.antt =====
-- The arithmetic of periods in controller.go: windows start on a grid of periods from the origin,
-- and the period number that a message carries.
use gobinace_qaggr_qrecv.Prelude.{
  ℕ, ◌+◌, ◌-◌, ◌*◌, ◌/◌, ◌≤◌, ◌<◌, ℤ, pos, negsuc, ◌+ℤ◌, ◌-ℤ◌, ◌*ℤ◌, ◌≤ℤ◌, ◌<ℤ◌, quot, pos_part,
  neg_part, +ℤ_parts, *ℤ_parts, eq_of_parts, ◌≡◌, refl, sym, subst, ap, ◌∙◌, ◌↔◌, arith, int_laws,
  Option, none, some, false, some-injective,
}
use gobinace_qaggr_qrecv.Aggregation.Node.{Timing, period_ms, detach_time}
use gobinace_qaggr_qrecv.Aggregation.Windows.{
  Bounds, Phase, idle, one, two, clock_step, close_or_wait,
}
use gobinace_qaggr_qrecv.Marshal.{Floats, PeriodMessage}
use gobinace_qaggr_qrecv.Collector.Round.{
  Config, Collector, Readings, Outcome, origin_utc_time, origin_ms, period_of, born_of, collect,
}
use gobinace_qaggr_qrecv.Collector.Table.{Table}
use gobinace_qaggr_qrecv.Collector.Published.{
  IsClosing, HasSymbol, IsPublished, close_or_wait-IsClosing, collect-IsPublished,
  IsAbout-IsClosing,
}
use gobinace_qaggr_qrecv.Collector.Lockstep.{InPhase, IsAbout, RoundSpec, collect-RoundSpec}

*ℤ_suc : (k p : ℤ) → (k +ℤ pos 1) *ℤ p ≡ k *ℤ p +ℤ p
*ℤ_suc k p = omega (
  int_laws,
  ap (λ (t : ℕ). t * pos_part p) (+ℤ_parts k (pos 1)),
  ap (λ (t : ℕ). t * neg_part p) (+ℤ_parts k (pos 1)),
)

-- Division by a positive number, as bounds.
div_iff : (d p q : ℕ) → 0 < p → (d / p ≡ q) ↔ ((q * p ≤ d) × (d < q * p + p))
div_iff d p q h = grind arith

less_one : (q k : ℕ) → (pos q -ℤ pos 1 ≡ pos k) ↔ (q ≡ k + 1)
unfolding ◌-ℤ◌
less_one q k = grind arith

-- Milliseconds since the origin, as the round computes them from a reading in seconds.
abbrev pub elapsed : ℤ → ℤ
elapsed unix = (unix -ℤ origin_utc_time) *ℤ pos 1000

elapsed_pos : (n : ℕ) → 1704067200 ≤ n → elapsed (pos n) ≡ pos ((n - 1704067200) * 1000)
elapsed_pos n h = eq_of_parts _ _ (omega (int_laws, h))

-- A window's bounds in natural numbers: `q` periods of `p`.
born_parts :
    (q p n : ℕ) (b : ℤ)
    → 1704067200 ≤ n
    → b ≡ pos q *ℤ pos p +ℤ origin_ms
    → q * p ≤ (n - 1704067200) * 1000
    → (n - 1704067200) * 1000 < q * p + p
    → (b ≤ℤ pos n *ℤ pos 1000) × (pos n *ℤ pos 1000 <ℤ b +ℤ pos p)
born_parts q p n b h e lo hi =
    rw e (omega (int_laws, *ℤ_parts (pos q) (pos p)), omega (int_laws, *ℤ_parts (pos q) (pos p)))

module _ ⦃τ : Timing⦄ where
  -- The start of the period number `k`.
  abbrev pub start_of : ℤ → ℤ
  start_of k = k *ℤ period_ms +ℤ origin_ms

  abbrev pub IsOnGrid : ℤ → Type 0
  IsOnGrid b = (k : ℤ) × (b ≡ start_of k)

  pub born_of-IsOnGrid : (unix : ℤ) → IsOnGrid (born_of unix)
  unfolding born_of
  born_of-IsOnGrid unix = (period_of unix, refl)

  pub next-IsOnGrid : (b : ℤ) → IsOnGrid b → IsOnGrid (b +ℤ period_ms)
  next-IsOnGrid b (k, e) = (k +ℤ pos 1, rw (e, *ℤ_suc) (omega int_laws))

  born_of_pos :
      (n p : ℕ)
      → 1704067200 ≤ n
      → period_ms ≡ pos p
      → born_of (pos n) ≡ pos ((n - 1704067200) * 1000 / p) *ℤ pos p +ℤ origin_ms
  unfolding born_of period_of quot
  born_of_pos n p o e = rw (elapsed_pos n o, e)

  -- The window that a first round opens is the one that the reading lies in, if the clock is not
  -- before the origin.
  pub born_of_bounds :
      (unix : ℤ) (p : ℕ)
      → 0 < p
      → period_ms ≡ pos p
      → origin_utc_time ≤ℤ unix
      → (born_of unix ≤ℤ unix *ℤ pos 1000) × (unix *ℤ pos 1000 <ℤ born_of unix +ℤ period_ms)
  born_of_bounds (negsuc n) p h e o = absurd (omega arith)
  born_of_bounds (pos n) p h e o =
      let o' : 1704067200 ≤ n = omega arith in
      let q = (n - 1704067200) * 1000 / p in
      let f = (div_iff ((n - 1704067200) * 1000) p q h).0 refl in
      subst
        (λ P. (born_of (pos n) ≤ℤ pos n *ℤ pos 1000) × (pos n *ℤ pos 1000 <ℤ born_of (pos n) +ℤ P))
        (sym e) (born_parts q p n (born_of (pos n)) o' (born_of_pos n p o' e) f.0 f.1)

  -- The period number, less 1, is that of the window `k` exactly while the reading lies in the window
  -- after it.
  period_of_iff :
      (unix : ℤ) (p d k : ℕ)
      → 0 < p
      → period_ms ≡ pos p
      → elapsed unix ≡ pos d
      → (period_of unix -ℤ pos 1 ≡ pos k) ↔ ((k * p + p ≤ d) × (d < k * p + p + p))
  unfolding period_of quot
  period_of_iff unix p d k h e f =
      rw (f, e)
        (
          (λ x.
              let y = (div_iff d p (k + 1) h).0 ((less_one (d / p) k).0 x) in
              (omega (arith, y.0), omega (arith, y.1))),
          (λ x.
              (less_one (d / p) k).1
                ((div_iff d p (k + 1) h).1 (omega (arith, x.0), omega (arith, x.1)))),
        )

  -- The start of the front window.
  abbrev pub front_start : Phase → Option ℤ
  front_start idle = none
  front_start (one b) = some b
  front_start (two b) = some b

  close_or_wait-start : (b now : ℤ) (w : Bounds) → (close_or_wait b now).1 ≡ some w → w.0 ≡ b
  close_or_wait-start b now w e = ground arith

  clock_step-start :
      (p : Phase) (b now born : ℤ) (w : Bounds)
      → front_start p ≡ some b
      → (clock_step p now born).1 ≡ some w
      → w.0 ≡ b
  clock_step-start idle b now born w e f = cc
  clock_step-start (one c) b now born w e f = close_or_wait-start c now w f ∙ ground arith
  clock_step-start (two c) b now born w e f = close_or_wait-start c now w f ∙ ground arith

  -- The end of the window from `b` lies further back than the time for late data.
  abbrev pub IsDue : ℤ → ℤ → Type 0
  IsDue b now = b +ℤ period_ms +ℤ detach_time <ℤ now

  clock_step-IsClosing :
      (p : Phase) (b now born : ℤ)
      → front_start p ≡ some b
      → IsClosing (clock_step p now born).1 ↔ IsDue b now
  clock_step-IsClosing idle b now born e = cc
  clock_step-IsClosing (one c) b now born e =
      subst (λ x. IsClosing (close_or_wait c now).1 ↔ IsDue x now) (some-injective e)
        (close_or_wait-IsClosing c now)
  clock_step-IsClosing (two c) b now born e =
      subst (λ x. IsClosing (close_or_wait c now).1 ↔ IsDue x now) (some-injective e)
        (close_or_wait-IsClosing c now)

module _ ⦃τ : Timing⦄ ⦃F : Floats⦄ where
  -- What is published, if anything, has the start of period `k`, and the number `k` exactly if the
  -- reading lies in the period after it.
  abbrev pub IsLabelled : ℕ → ℕ → ℕ → Option PeriodMessage → Type 0
  IsLabelled p d k none = Unit
  IsLabelled p d k (some m) =
      (m.ts ≡ start_of (pos k)) × ((m.period ≡ pos k) ↔ ((k * p + p ≤ d) × (d < k * p + p + p)))

  -- And there is one exactly if the window is due, unless symbols without data are skipped.
  abbrev pub RoundLabelled : Config → Readings → Table → ℕ → ℕ → ℕ → Option Outcome → Type 0
  RoundLabelled cfg r t p d k none = ⊥
  RoundLabelled cfg r t p d k (some o) =
      IsLabelled p d k o.published
      × (cfg.skip_empty_quote ≡ false
          → HasSymbol t
          → IsPublished o.published ↔ IsDue (start_of (pos k)) r.now)

  IsAbout-IsLabelled :
      (r : Readings) (ph : Phase) (p d k : ℕ) (o : Option Bounds) (m : Option PeriodMessage)
      → 0 < p
      → period_ms ≡ pos p
      → elapsed r.unix ≡ pos d
      → ((w : Bounds) → o ≡ some w → w.0 ≡ start_of (pos k))
      → IsAbout r o m
      → IsLabelled p d k m
  IsAbout-IsLabelled r ph p d k o none h e f g a = tt
  IsAbout-IsLabelled r ph p d k none (some m) h e f g a = absurd a
  IsAbout-IsLabelled r ph p d k (some w) (some m) h e f g a =
      (a.0 ∙ g w refl, rw (a.1) (period_of_iff r.unix p d k h e f))

  -- The period is positive, the clock reads a time from the origin on, and the front window of all symbols
  -- is that of period `k`. Then a round does not panic. If it publishes a message, this has the start of
  -- period `k`, and it has the number `k` exactly if the reading of the clock lies in period `k + 1`. If
  -- symbols without data are not skipped and there is some symbol, it publishes one exactly if the end of
  -- period `k` lies back by more than DETACH_TIME.
  pub collect_label :
      (cfg : Config) (r : Readings) (c : Collector) (ph : Phase) (p d k : ℕ)
      → 0 < p
      → period_ms ≡ pos p
      → elapsed r.unix ≡ pos d
      → InPhase ph c.period_symbols
      → front_start ph ≡ some (start_of (pos k))
      → RoundLabelled cfg r c.period_symbols p d k (collect cfg r c)
  collect_label cfg r c ph p d k h e f i s =
      go (collect cfg r c) (collect-RoundSpec cfg r c ph (λ z. ground arith) i)
        (λ o e n x l. collect-IsPublished cfg r c ph o n i x l e)
    where
      due : IsClosing (clock_step ph r.now (born_of r.unix)).1 ↔ IsDue (start_of (pos k)) r.now
      due = clock_step-IsClosing ph (start_of (pos k)) r.now (born_of r.unix) s

      go :
          (o : Option Outcome)
          → RoundSpec ph r c o
          → ((q : Outcome)
              → o ≡ some q
              → cfg.skip_empty_quote ≡ false
              → HasSymbol c.period_symbols
              → IsClosing (clock_step ph r.now (born_of r.unix)).1
              → IsPublished q.published)
          → RoundLabelled cfg r c.period_symbols p d k o
      go none x y = x
      go (some o) x y = (
        IsAbout-IsLabelled r ph p d k (clock_step ph r.now (born_of r.unix)).1 o.published h e f
            (λ w q. clock_step-start ph (start_of (pos k)) r.now (born_of r.unix) w s q) x.2,
        λ n t. (λ z. due.0 (IsAbout-IsClosing r _ o.published x.2 z), λ z. y o refl n t (due.1 z)),
      )
