-- ===== src/QuoteServer/Broadcast.antt =====
-- Who gets a broadcast, and what a failed write does to those that follow.
use gobinace_qaggr_qrecv.Prelude.{
  ℕ, Bool, true, false, List, [], ◌∷◌, ◌++◌, if◌then◌else◌, ◌≡◌, refl, ap, sym, ◌∙◌, All,
  append-nil, append_assoc,
}
use gobinace_qaggr_qrecv.QuoteServer.Server.{
  QuoteServer, Round, register, unregister, broadcast, heartbeat, write_all, addressed,
  on_broadcast, act, run,
}

write_all-fails :
    (writes : ℕ → Bool) (before : List ℕ) (c : ℕ) (after : List ℕ)
    → All (λ (d : ℕ). writes d ≡ true) before
    → writes c ≡ false
    → write_all writes (before ++ c ∷ after) ≡ (before, false)
unfolding write_all
write_all-fails writes [] c after h e = rw e refl
write_all-fails writes (d ∷ before) c after h e =
    rw (h.0, write_all-fails writes before c after h.1 e) refl

module _ {M : Type 0} where
  on_broadcast-silent :
      (m : M) (writes : ℕ → Bool) (s : QuoteServer)
      → s.broadcasting ≡ false
      → on_broadcast m writes s ≡ (s, [])
  unfolding on_broadcast
  on_broadcast-silent m writes s h =
      let w = write_all writes s.clients in
      ap (λ (b : Bool). if b then (record s { broadcasting = w.1 }, addressed m w.0) else (s, [])) h

  -- After `broadcastMessages` has returned nothing is written.
  run-silent :
      (rounds : List (Round M)) (s : QuoteServer) → s.broadcasting ≡ false → (run rounds s).1 ≡ []
  unfolding run act
  run-silent [] s h = refl
  run-silent (register c ∷ rounds) s h = run-silent rounds _ h
  run-silent (unregister c ∷ rounds) s h = run-silent rounds _ h
  run-silent (heartbeat pings ∷ rounds) s h = run-silent rounds _ h
  run-silent (broadcast m writes ∷ rounds) s h =
      rw (on_broadcast-silent m writes s h) (run-silent rounds s h)

  on_broadcast-fails :
      (m : M) (writes : ℕ → Bool) (s : QuoteServer) (before : List ℕ) (c : ℕ) (after : List ℕ)
      → s.broadcasting ≡ true
      → s.clients ≡ before ++ c ∷ after
      → All (λ (d : ℕ). writes d ≡ true) before
      → writes c ≡ false
      → on_broadcast m writes s ≡ (record s { broadcasting = false }, addressed m before)
  unfolding on_broadcast
  on_broadcast-fails m writes s before c after b e h f =
      let w : write_all writes s.clients ≡ (before, false) =
        ap (write_all writes) e ∙ write_all-fails writes before c after h f in
      ap
        (λ (p : Bool × List ℕ × Bool).
          if p.0 then (record s { broadcasting = p.2 }, addressed m p.1) else (s, []))
        (both b w)
    where
      both :
          {x y : Bool} {v w : List ℕ × Bool}
          → x ≡ y
          → v ≡ w
          → ◌≡◌ {A = Bool × List ℕ × Bool} (x, v.0, v.1) (y, w.0, w.1)
      both p q = λ i. (p i, (q i).0, (q i).1)

  run-append :
      (rounds later : List (Round M)) (s : QuoteServer)
      → (run (rounds ++ later) s).1 ≡ (run rounds s).1 ++ (run later (run rounds s).0).1
  unfolding run
  run-append [] later s = refl
  run-append (a ∷ rounds) later s =
      let next = act a s in
      ap (λ l. next.1 ++ l) (run-append rounds later next.0)
      ∙ sym (append_assoc next.1 (run rounds next.0).1 (run later (run rounds next.0).0).1)

  -- After any rounds, let a broadcast meet a client whose write fails, the first such in the order of the
  -- clients. Then the clients before it get the message, and nothing is written ever after: no client
  -- gets another broadcast, whatever follows.
  pub run-stalls :
      (rounds later : List (Round M)) (m : M) (writes : ℕ → Bool) (s : QuoteServer)
      (before : List ℕ) (c : ℕ) (after : List ℕ)
      → (run rounds s).0.broadcasting ≡ true
      → (run rounds s).0.clients ≡ before ++ c ∷ after
      → All (λ (d : ℕ). writes d ≡ true) before
      → writes c ≡ false
      → (run (rounds ++ broadcast m writes ∷ later) s).1 ≡ (run rounds s).1 ++ addressed m before
  unfolding run act
  run-stalls rounds later m writes s before c after b e h f =
      let r = (run rounds s).0 in
      run-append rounds (broadcast m writes ∷ later) s
      ∙ ap (λ l. (run rounds s).1 ++ l)
          (ap (λ (p : QuoteServer × List (ℕ × M)). p.1 ++ (run later p.0).1)
              (on_broadcast-fails m writes r before c after b e h f)
            ∙ ap (λ l. addressed m before ++ l)
                (run-silent later (record r { broadcasting = false }) refl)
            ∙ append-nil (addressed m before))
