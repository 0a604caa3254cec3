-- ===== src/Collector/Lockstep.antt =====
-- A round of timedPeriodCollect in controller.go keeps the windows of all symbols in step, so that
-- what it publishes belongs to one window.
use gobinace_qaggr_qrecv.Prelude.{
  zero, suc, ℤ, pos, negsuc, ◌-ℤ◌, ◌≡◌, ◌≢◌, refl, ap, subst, String, Bool, false, Option, none,
  some, List, [], ◌∷◌, map, arith, All,
}
use gobinace_qaggr_qrecv.Aggregation.Node.{Timing, period_ms, PeriodNode, SymbolDef}
use gobinace_qaggr_qrecv.Aggregation.Clock.{Tick, panicked, ticked, time_itr}
use gobinace_qaggr_qrecv.Aggregation.Windows.{
  Bounds, bounds, IsChained, Phase, idle, one, two, phase, phase_of, clock_step, Refines,
  time_itr-Refines,
}
use gobinace_qaggr_qrecv.Marshal.{Floats, SymbolInfo, PeriodMessage}
use gobinace_qaggr_qrecv.Collector.Table.{Table}
use gobinace_qaggr_qrecv.Collector.Round.{
  Config, Collector, Readings, Visited, Outcome, find_born, born_of, period_of, info_of,
  visited_more, visit, publish, collect, is_zero,
}

module _ ⦃τ : Timing⦄ where
  -- Every symbol is in this phase.
  abbrev pub InPhase : Phase → Table → Type 0
  InPhase p = All (λ (e : String × SymbolDef). IsChained e.1 × (phase e.1 ≡ p))

  abbrev pub names : Table → List String
  names = map (λ (e : String × SymbolDef). e.0)

  idle_linked : (l : List PeriodNode) → phase_of (bounds l) ≡ idle → l ≡ []
  idle_linked [] e = refl
  idle_linked (n ∷ []) e = cc
  idle_linked (n ∷ m ∷ ns) e = cc

  find_born-idle : (t : Table) (born : ℤ) → InPhase idle t → find_born t born ≡ born
  unfolding find_born
  find_born-idle [] born h = refl
  find_born-idle ((name, s) ∷ rest) born h =
      rw (idle_linked s.linked h.0.1, find_born) (find_born-idle rest born h.1)

  -- A symbol that has a window passes its start on, and the machine does not ask for another.
  pub clock_step-find_born :
      (p : Phase) (t : Table) (now born : ℤ)
      → InPhase p t
      → clock_step p now (find_born t born) ≡ clock_step p now born
  clock_step-find_born idle t now born h = rw (find_born-idle t born h)
  clock_step-find_born (one b) t now born h = refl
  clock_step-find_born (two b) t now born h = refl

module _ ⦃τ : Timing⦄ ⦃F : Floats⦄ where
  -- What the loop says of the window that was closed, if one was.
  abbrev pub Reports : Option Bounds → Table → ℤ → Visited → Type 0
  Reports none t ts v = (v.ts ≡ ts) × (v.infos ≡ [])
  Reports (some w) [] ts v = (v.ts ≡ ts) × (v.infos ≡ [])
  Reports (some w) (e ∷ es) ts v = v.ts ≡ w.0

  abbrev pub VisitSpec : Phase × Option Bounds → Table → ℤ → Option Visited → Type 0
  VisitSpec r t ts none = ⊥
  VisitSpec r t ts (some v) =
      InPhase r.0 v.symbols × (names v.symbols ≡ names t) × Reports r.1 t ts v

  -- What the loop over the later symbols found, seen from the first one.
  Reports-closed : (w : Bounds) (t : Table) (v : Visited) → Reports (some w) t w.0 v → v.ts ≡ w.0
  Reports-closed w [] v h = h.0
  Reports-closed w (e ∷ es) v h = h

  visited_more-VisitSpec-none :
      (name : String) (s r : SymbolDef) (q : Phase) (t : Table) (ts : ℤ) (m : Option Visited)
      → IsChained r × (phase r ≡ q)
      → VisitSpec (q, none) t ts m
      → VisitSpec (q, none) ((name, s) ∷ t) ts (visited_more name r [] m)
  unfolding visited_more
  visited_more-VisitSpec-none name s r q t ts none c h = h
  visited_more-VisitSpec-none name s r q t ts (some v) c h = ((c, h.0), ap (λ l. name ∷ l) h.1, h.2)

  visited_more-VisitSpec-some :
      (name : String) (s r : SymbolDef) (q : Phase) (w : Bounds) (t : Table) (ts : ℤ)
      (infos : List SymbolInfo) (m : Option Visited)
      → IsChained r × (phase r ≡ q)
      → VisitSpec (q, some w) t w.0 m
      → VisitSpec (q, some w) ((name, s) ∷ t) ts (visited_more name r infos m)
  unfolding visited_more
  visited_more-VisitSpec-some name s r q w t ts infos none c h = h
  visited_more-VisitSpec-some name s r q w t ts infos (some v) c h =
      ((c, h.0), ap (λ l. name ∷ l) h.1, Reports-closed w t v h.2)

  visit-VisitSpec :
      (skip : Bool) (now born : ℤ) (p : Phase) (t : Table) (ts : ℤ)
      → InPhase p t
      → VisitSpec (clock_step p now born) t ts (visit skip now born t ts)
  unfolding visit
  visit-VisitSpec skip now born p [] ts h = (tt, refl, nothing (clock_step p now born).1)
    where
      nothing : (o : Option Bounds) → Reports o [] ts (record { symbols = []; infos = []; ts = ts })
      nothing none = (refl, refl)
      nothing (some w) = (refl, refl)
  visit-VisitSpec skip now born p ((name, s) ∷ rest) ts h =
      go (time_itr s now born) (clock_step p now born)
        (rw (h.0.1) at (time_itr-Refines s now born h.0.0))
        (λ t. visit-VisitSpec skip now born p rest t h.1)
    where
      go :
          (k : Tick) (r : Phase × Option Bounds)
          → Refines r k
          → ((t : ℤ) → VisitSpec r rest t (visit skip now born rest t))
          → VisitSpec r ((name, s) ∷ rest) ts (elim k [
            | panicked ↦ none
            | ticked r o ↦ elim o [
              | none ↦ visited_more name r [] (visit skip now born rest ts)
              | some pn ↦
                  visited_more name r (info_of skip name pn) (visit skip now born rest pn.start)
            ]
          ])
      go panicked r f ih = absurd f
      go (ticked u none) (q, none) f ih =
          visited_more-VisitSpec-none name s u q rest ts _ (f.0, f.1) (ih ts)
      go (ticked u (some pn)) (q, some w) f ih =
          visited_more-VisitSpec-some name s u q w rest ts _ _ (f.0, f.1)
            (subst (λ b. VisitSpec (q, some w) rest b (visit skip now born rest pn.start))
              (ground arith) (ih pn.start))
      go (ticked u none) (q, some w) f ih = cc f.2
      go (ticked u (some pn)) (q, none) f ih = cc f.2

  -- What is published, if anything, is about the window that was closed.
  abbrev pub IsAbout : Readings → Option Bounds → Option PeriodMessage → Type 0
  IsAbout r o none = Unit
  IsAbout r none (some m) = ⊥
  IsAbout r (some w) (some m) = (m.ts ≡ w.0) × (m.period ≡ period_of r.unix -ℤ pos 1)

  abbrev pub RoundSpec : Phase → Readings → Collector → Option Outcome → Type 0
  RoundSpec p r c none = ⊥
  RoundSpec p r c (some o) =
      let step = clock_step p r.now (born_of r.unix) in
      InPhase step.0 o.state.period_symbols
      × (names o.state.period_symbols ≡ names c.period_symbols)
      × IsAbout r step.1 o.published

  publish-IsAbout :
      (cfg : Config) (r : Readings) (c : Collector) (t : Table) (o : Option Bounds) (ts : ℤ)
      (v : Visited) (infos : List SymbolInfo)
      → Reports o t ts v
      → v.infos ≡ infos
      → IsAbout r o (publish cfg r c v infos).published
  unfolding publish
  publish-IsAbout cfg r c t o ts v [] h e = tt
  publish-IsAbout cfg r c t none ts v (i ∷ is) h e = cc h.1
  publish-IsAbout cfg r c [] (some w) ts v (i ∷ is) h e = cc h.1
  publish-IsAbout cfg r c (x ∷ xs) (some w) ts v (i ∷ is) h e = (h, refl)

  publish-symbols :
      (cfg : Config) (r : Readings) (c : Collector) (v : Visited) (infos : List SymbolInfo)
      → (publish cfg r c v infos).state.period_symbols ≡ v.symbols
  unfolding publish
  publish-symbols cfg r c v [] = refl
  publish-symbols cfg r c v (i ∷ is) = refl

  -- If the period is not 0 and the windows of all symbols are in one phase, a round does not panic,
  -- takes all of them to the phase that the abstract clock gives, whatever the order of iteration, and
  -- keeps the names. It publishes only if that step of the clock closes a window; the message then
  -- carries the start of this window, and as its period the current one less 1.
  pub collect-RoundSpec :
      (cfg : Config) (r : Readings) (c : Collector) (p : Phase)
      → period_ms ≢ pos 0
      → InPhase p c.period_symbols
      → RoundSpec p r c (collect cfg r c)
  unfolding collect
  collect-RoundSpec cfg r c p nz h = rw (nonzero period_ms nz) (
      go _ (
        rw (clock_step-find_born p c.period_symbols r.now (born_of r.unix) h) at (
          visit-VisitSpec cfg.skip_empty_quote r.now (find_born c.period_symbols (born_of r.unix)) p
            c.period_symbols (pos 0) h)))
    where
      nonzero : (n : ℤ) → n ≢ pos 0 → is_zero n ≡ false
      nonzero (pos zero) nz = absurd (nz refl)
      nonzero (pos (suc n)) nz = unfold is_zero in refl
      nonzero (negsuc n) nz = unfold is_zero in refl

      go :
          (m : Option Visited)
          → VisitSpec (clock_step p r.now (born_of r.unix)) c.period_symbols (pos 0) m
          → RoundSpec p r c (elim m [ none ↦ none | some v ↦ some (publish cfg r c v v.infos) ])
      go none f = f
      go (some v) f = (
        rw (publish-symbols cfg r c v v.infos) f.0,
        rw (publish-symbols cfg r c v v.infos) f.1,
        publish-IsAbout cfg r c c.period_symbols (clock_step p r.now (born_of r.unix)).1 (pos 0) v
            v.infos f.2 refl,
      )
