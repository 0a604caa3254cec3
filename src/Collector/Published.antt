-- ===== src/Collector/Published.antt =====
-- When a round of timedPeriodCollect in controller.go publishes a message.
use gobinace_qaggr_qrecv.Prelude.{
  ℤ, pos, subst, ◌+ℤ◌, ◌<ℤ◌, ltb_ℤ, ltb_ℤ-true, ltb_ℤ-false, String, false, Option, none, some,
  List, [], ◌∷◌, ◌≡◌, sym, ap, ◌↔◌, Bool-cases, Option-cases, inl, inr, arith,
}
use gobinace_qaggr_qrecv.Aggregation.Node.{Timing, PeriodNode, SymbolDef, period_ms, detach_time}
use gobinace_qaggr_qrecv.Aggregation.Clock.{Tick, panicked, ticked, time_itr}
use gobinace_qaggr_qrecv.Aggregation.Windows.{
  Bounds, Phase, clock_step, close_or_wait, Refines, time_itr-Refines,
}
use gobinace_qaggr_qrecv.Marshal.{Floats, SymbolInfo, PeriodMessage}
use gobinace_qaggr_qrecv.Collector.Table.{Table}
use gobinace_qaggr_qrecv.Collector.Round.{
  Config, Collector, Readings, Visited, Outcome, find_born, born_of, is_zero, info_of, visited_more,
  visit, publish, collect,
}
use gobinace_qaggr_qrecv.Collector.Lockstep.{InPhase, IsAbout, clock_step-find_born}

-- A step that closes a window.
abbrev pub IsClosing : Option Bounds → Type 0
IsClosing none = ⊥
IsClosing (some w) = Unit

abbrev pub HasSymbol : Table → Type 0
HasSymbol [] = ⊥
HasSymbol (e ∷ es) = Unit

module _ ⦃F : Floats⦄ where
  abbrev pub IsPublished : Option PeriodMessage → Type 0
  IsPublished none = ⊥
  IsPublished (some m) = Unit

  abbrev HasInfos : List SymbolInfo → Type 0
  HasInfos infos = (i : SymbolInfo) × (is : List SymbolInfo) × (infos ≡ i ∷ is)

module _ ⦃τ : Timing⦄ ⦃F : Floats⦄ where
  infos_in : Option Visited → List SymbolInfo
  infos_in none = []
  infos_in (some v) = v.infos

  visited_more-HasInfos :
      (name : String) (s : SymbolDef) (pn : PeriodNode) (m : Option Visited) (v : Visited)
      → visited_more name s (info_of false name pn) m ≡ some v
      → HasInfos v.infos
  unfolding visited_more info_of infos_in
  visited_more-HasInfos name s pn none v e = cc
  visited_more-HasInfos name s pn (some u) v e = (_, _, sym (ap infos_in e))

  visit-HasInfos :
      (now born : ℤ) (p : Phase) (t : Table) (ts : ℤ) (v : Visited)
      → InPhase p t
      → HasSymbol t
      → IsClosing (clock_step p now born).1
      → visit false now born t ts ≡ some v
      → HasInfos v.infos
  unfolding visit
  visit-HasInfos now born p [] ts v h x c e = absurd x
  visit-HasInfos now born p ((name, s) ∷ rest) ts v h x c e =
      go (time_itr s now born) (clock_step p now born)
        (rw (h.0.1) at (time_itr-Refines s now born h.0.0)) c e
    where
      go :
          (k : Tick) (r : Phase × Option Bounds)
          → Refines r k
          → IsClosing r.1
          → (elim k [
            | panicked ↦ none
            | ticked r o ↦ elim o [
              | none ↦ visited_more name r [] (visit false now born rest ts)
              | some pn ↦
                  visited_more name r (info_of false name pn) (visit false now born rest pn.start)
            ]
          ])
            ≡ some v
          → HasInfos v.infos
      go panicked r f c e = absurd f
      go (ticked u none) (q, some w) f c e = cc f.2
      go (ticked u none) (q, none) f c e = absurd c
      go (ticked u (some pn)) r f c e =
          visited_more-HasInfos name u pn (visit false now born rest pn.start) v e

  publish-IsPublished :
      (cfg : Config) (r : Readings) (c : Collector) (v : Visited) (infos : List SymbolInfo)
      → HasInfos infos
      → IsPublished (publish cfg r c v infos).published
  unfolding publish
  publish-IsPublished cfg r c v [] h = cc h.2
  publish-IsPublished cfg r c v (i ∷ is) h = tt

  -- A round that closes a window publishes it.
  pub collect-IsPublished :
      (cfg : Config) (r : Readings) (c : Collector) (p : Phase) (o : Outcome)
      → cfg.skip_empty_quote ≡ false
      → InPhase p c.period_symbols
      → HasSymbol c.period_symbols
      → IsClosing (clock_step p r.now (born_of r.unix)).1
      → collect cfg r c ≡ some o
      → IsPublished o.published
  unfolding collect
  collect-IsPublished cfg r c p o skip h x cl e =
      let born = find_born c.period_symbols (born_of r.unix) in
      elim (Bool-cases (is_zero period_ms)) [
        | inl z ↦ absurd (let y : none ≡ some o = rw z at e in cc)
        | inr z ↦
            elim (Option-cases (visit cfg.skip_empty_quote r.now born c.period_symbols (pos 0))) [
              | inl n ↦ absurd (let y : none ≡ some o = rw (z, n) at e in cc)
              | inr (v, n) ↦
                  let y : some (publish cfg r c v v.infos) ≡ some o = rw (z, n) at e in
                  let i =
                    visit-HasInfos r.now born p c.period_symbols (pos 0) v h x
                      (rw (clock_step-find_born p c.period_symbols r.now (born_of r.unix) h) cl)
                      (rw skip at n) in
                  subst IsPublished (ap published_in y) (publish-IsPublished cfg r c v v.infos i)
            ]
      ]
    where
      published_in : Option Outcome → Option PeriodMessage
      published_in none = none
      published_in (some q) = q.published

  -- What is published is about a window that is closed.
  pub IsAbout-IsClosing :
      (r : Readings) (w : Option Bounds) (m : Option PeriodMessage)
      → IsAbout r w m
      → IsPublished m
      → IsClosing w
  IsAbout-IsClosing r w none a i = absurd i
  IsAbout-IsClosing r none (some m) a i = a
  IsAbout-IsClosing r (some w) (some m) a i = tt

module _ ⦃τ : Timing⦄ where
  pub close_or_wait-IsClosing :
      (b now : ℤ) → IsClosing (close_or_wait b now).1 ↔ (b +ℤ period_ms +ℤ detach_time <ℤ now)
  close_or_wait-IsClosing b now = elim (Bool-cases (ltb_ℤ (b +ℤ period_ms +ℤ detach_time) now)) [
    | inl e ↦ rw e (λ x. ltb_ℤ-true (b +ℤ period_ms +ℤ detach_time) now e, λ x. tt)
    | inr e ↦ rw e (
      λ x. absurd x,
      λ x. let y = ltb_ℤ-false (b +ℤ period_ms +ℤ detach_time) now e in omega arith,
    )
  ]
