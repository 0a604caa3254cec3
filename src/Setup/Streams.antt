-- ===== src/Setup/Streams.antt =====
-- The streams of the receiver: which managers are initialized, and what Open of them gives.
use gobinace_qaggr_qrecv.Prelude.{
  ℤ, pos, negsuc, ◌≤ℤ◌, pos_part, arith, String, Bool, true, false, List, [], ◌∷◌, ◌++◌, map,
  if◌then◌else◌, ◌||◌, ◌≡◌, refl, ap, sym, ◌∙◌, some, append_assoc, append-nil, All, Bool-cases,
  inl, inr,
}
use gobinace_qaggr_qrecv.Market.Plan.{Manager, IsPlan, open_services, open_services-IsPlan}
use gobinace_qaggr_qrecv.Setup.Start.{ok}
use gobinace_qaggr_qrecv.Setup.Receiver.{
  Stream, depth, trade, orb_inc, kline, agg_trade, same_stream, Config, Controller, init_streams,
  init_fan_out, get_trade_symbols, is_initialized, open_streams,
}

pub init_fan_out-ok :
    (new_socket : String → Bool) (servers : List String) (c : Controller)
    → All (λ (addr : String). new_socket addr ≡ true) servers
    → init_fan_out new_socket servers c ≡ ok (record c { producers = c.producers ++ servers })
unfolding init_fan_out
init_fan_out-ok new_socket [] c h =
    ap (λ (l : List String). ok (let r : Controller = record c { producers = l } in r))
      (sym (append-nil c.producers))
init_fan_out-ok new_socket (addr ∷ rest) c h =
    rw
      (h.0, init_fan_out-ok new_socket rest (record c { producers = c.producers ++ addr ∷ [] }) h.1)
      (ap (λ (l : List String). ok (let r : Controller = record c { producers = l } in r))
        (append_assoc c.producers (addr ∷ []) rest))

module _ (cfg : Config) where
  -- The managers that Init is called of, onto those before.
  abbrev pub inits : List Stream → List Stream → List Stream
  inits [] l = l
  inits (s ∷ rest) l = inits rest (if cfg.recv_enable s then s ∷ l else l)

  pub init_streams-inits :
      (ss : List Stream) (c : Controller)
      → init_streams cfg ss c ≡ record c { initialized = inits ss c.initialized }
  unfolding init_streams
  init_streams-inits [] c = refl
  init_streams-inits (s ∷ rest) c = elim (Bool-cases (cfg.recv_enable s)) [
    | inl e ↦ rw e (init_streams-inits rest (record c { initialized = s ∷ c.initialized }))
    | inr e ↦ rw e (init_streams-inits rest c)
  ]

  stays :
      (s : Stream) (ss l : List Stream)
      → is_initialized s l ≡ true
      → is_initialized s (inits ss l) ≡ true
  unfolding is_initialized
  stays s [] l h = h
  stays s (t ∷ rest) l h = elim (Bool-cases (cfg.recv_enable t)) [
    | inl e ↦ rw e (stays s rest (t ∷ l) (or_right (same_stream t s) (is_initialized s l) h))
    | inr e ↦ rw e (stays s rest l h)
  ]
    where
      or_right : (a b : Bool) → b ≡ true → (a || b) ≡ true
      or_right true b h = refl
      or_right false b h = h

  same_self : (s : Stream) → same_stream s s ≡ true
  same_self depth = refl
  same_self trade = refl
  same_self orb_inc = refl
  same_self kline = refl
  same_self agg_trade = refl

  added :
      (s : Stream) (rest l : List Stream)
      → cfg.recv_enable s ≡ true
      → is_initialized s (inits (s ∷ rest) l) ≡ true
  unfolding is_initialized
  added s rest l e = rw e (stays s rest (s ∷ l) (rw (is_initialized, same_self s) refl))

  abbrev pub all_inits : List Stream
  all_inits = inits (depth ∷ trade ∷ orb_inc ∷ kline ∷ agg_trade ∷ []) []

  -- Init is called of every manager that Open is called of.
  pub initialized_all : (s : Stream) → cfg.recv_enable s ≡ true → is_initialized s all_inits ≡ true
  initialized_all depth = added depth (trade ∷ orb_inc ∷ kline ∷ agg_trade ∷ []) []
  initialized_all trade = added trade (orb_inc ∷ kline ∷ agg_trade ∷ []) (inits (depth ∷ []) [])
  initialized_all orb_inc = added orb_inc (kline ∷ agg_trade ∷ []) (inits (depth ∷ trade ∷ []) [])
  initialized_all kline = added kline (agg_trade ∷ []) (inits (depth ∷ trade ∷ orb_inc ∷ []) [])
  initialized_all agg_trade = added agg_trade [] (inits (depth ∷ trade ∷ orb_inc ∷ kline ∷ []) [])

  abbrev pub enabled : List Stream → List Stream
  enabled [] = []
  enabled (s ∷ rest) = if cfg.recv_enable s then s ∷ enabled rest else enabled rest

  -- A plan for each enabled stream, in the order of the streams.
  abbrev pub ArePlans : List Stream → List String → List (Stream × Manager) → Type 0
  ArePlans ss names plans =
      (map (λ (p : Stream × Manager). p.0) plans ≡ enabled ss)
      × All
          (λ (p : Stream × Manager). IsPlan names (pos_part (cfg.max_symbol_num_per_conn p.0)) p.1)
          plans

  open_services-IsPlan_int :
      (symbols : List String) (size : ℤ)
      → pos 1 ≤ℤ size
      → (m : Manager) × (open_services symbols size ≡ some m) × IsPlan symbols (pos_part size) m
  open_services-IsPlan_int symbols (pos n) h = open_services-IsPlan symbols n (omega arith)
  open_services-IsPlan_int symbols (negsuc n) h = absurd (let x : ⊥ = omega arith in x)

  abbrev pub with_opened : Controller → List (Stream × Manager) → Controller
  with_opened c plans = record c { opened = c.opened ++ plans }

  pub open_streams-ok :
      ((s : Stream) → pos 1 ≤ℤ cfg.max_symbol_num_per_conn s)
      → (ss : List Stream) (c : Controller)
      → ((s : Stream) → cfg.recv_enable s ≡ true → is_initialized s c.initialized ≡ true)
      → (plans : List (Stream × Manager)) × (open_streams cfg ss c ≡ ok (with_opened c plans))
        × ArePlans ss (get_trade_symbols c) plans
  unfolding open_streams get_trade_symbols
  open_streams-ok h [] c i = (
    [],
    ap (λ (l : List (Stream × Manager)). ok (let r : Controller = record c { opened = l } in r))
        (sym (append-nil c.opened)),
    (refl, tt),
  )
  open_streams-ok h (s ∷ rest) c i = elim (Bool-cases (cfg.recv_enable s)) [
    | inr e ↦ rw e (open_streams-ok h rest c i)
    | inl e ↦
        let p =
          open_services-IsPlan_int (get_trade_symbols c) (cfg.max_symbol_num_per_conn s) (h s) in
        let r = open_streams-ok h rest (with_opened c ((s, p.0) ∷ [])) i in
        rw (e, i s e, p.1)
          (
            (s, p.0) ∷ r.0,
            r.1
                ∙ ap
                    (λ (l : List (Stream × Manager)).
                      ok (let d : Controller = record c { opened = l } in d))
                    (append_assoc c.opened ((s, p.0) ∷ []) r.0),
            (ap (λ l. s ∷ l) r.2.0, (p.2, r.2.1)),
          )
  ]
