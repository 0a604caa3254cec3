-- ===== src/Market/Served.antt =====
-- What becomes of the snapshots that are asked for: the runs of the queue.
use gobinace_qaggr_qrecv.Prelude.{
  ℕ, suc, ◌+◌, ◌≤◌, ltb, length, length-append, String, true, Option, none, some, List, [], ◌∷◌,
  ◌++◌, ◌≡◌, refl, ap, arith, Bool-cases, inl, inr,
}
use gobinace_qaggr_qrecv.Market.Queue.{
  Snapshots, Action, on_timer, do_snap_shot, put, hand, receive, fetch, pick, act_put, act_hand,
  act_receive, act_fetch, act, run, none_asked, count, asked, pending, Keeps, act-Keeps,
  count-append,
}

-- The channel holds no more than it has room for.
abbrev pub IsBounded : ℕ → Snapshots → Type 0
IsBounded size s = length s.queue ≤ size

ltb-less : (a b : ℕ) → ltb a b ≡ true → suc a ≤ b
ltb-less a b h = ground arith

act_put-IsBounded :
    (size : ℕ) (o : Option (String × List String)) (s : Snapshots)
    → IsBounded size s
    → IsBounded size (act_put size o s)
unfolding act_put
act_put-IsBounded size none s h = h
act_put-IsBounded size (some (x, others)) s h = elim (Bool-cases (ltb (length s.queue) size)) [
  | inl e ↦ rw e (omega (arith, ltb-less (length s.queue) size e, length-append s.queue (x ∷ [])))
  | inr e ↦ rw e h
]

act_hand-IsBounded :
    (size : ℕ) (o : Option (String × List String)) (q : List String) (s : Snapshots)
    → IsBounded size s
    → IsBounded size (act_hand o q s)
unfolding act_hand
act_hand-IsBounded size none q s h = h
act_hand-IsBounded size (some (x, others)) [] s h = h
act_hand-IsBounded size (some (x, others)) (y ∷ q) s h = h

act_receive-IsBounded :
    (size : ℕ) (q : List String) (s : Snapshots)
    → s.queue ≡ q
    → IsBounded size s
    → IsBounded size (act_receive q s)
unfolding act_receive
act_receive-IsBounded size [] s e h = h
act_receive-IsBounded size (x ∷ q) s e h = omega (arith, h, ap length e)

act_fetch-IsBounded :
    (size : ℕ) (o : Option (String × List String)) (s : Snapshots)
    → IsBounded size s
    → IsBounded size (act_fetch o s).0
unfolding act_fetch
act_fetch-IsBounded size none s h = h
act_fetch-IsBounded size (some (x, others)) s h = h

act-IsBounded :
    (symbols : List String) (size : ℕ) (a : Action) (s : Snapshots)
    → IsBounded size s
    → IsBounded size (act symbols size a s).0
unfolding act
act-IsBounded symbols size on_timer s h = h
act-IsBounded symbols size (do_snap_shot x) s h = h
act-IsBounded symbols size (put n) s h = act_put-IsBounded size (pick n s.waiting) s h
act-IsBounded symbols size (hand n) s h = act_hand-IsBounded size (pick n s.waiting) s.queue s h
act-IsBounded symbols size receive s h = act_receive-IsBounded size s.queue s refl h
act-IsBounded symbols size (fetch n) s h = act_fetch-IsBounded size (pick n s.tasks) s h

run-IsBounded :
    (symbols : List String) (size : ℕ) (actions : List Action) (s : Snapshots)
    → IsBounded size s
    → IsBounded size (run symbols size actions s).0
unfolding run
run-IsBounded symbols size [] s h = h
run-IsBounded symbols size (a ∷ actions) s h =
    run-IsBounded symbols size actions (act symbols size a s).0 (act-IsBounded symbols size a s h)

asked-cons :
    (k : String) (symbols : List String) (a : Action) (actions : List Action)
    → count k (asked symbols (a ∷ actions))
      ≡ count k (asked symbols (a ∷ [])) + count k (asked symbols actions)
asked-cons k symbols on_timer actions =
    omega (arith, count-append k symbols (asked symbols actions), count-append k symbols [])
asked-cons k symbols (do_snap_shot x) actions = omega arith
asked-cons k symbols (put n) actions = omega arith
asked-cons k symbols (hand n) actions = omega arith
asked-cons k symbols receive actions = omega arith
asked-cons k symbols (fetch n) actions = omega arith

run-Keeps :
    (k : String) (symbols : List String) (size : ℕ) (actions : List Action) (s : Snapshots)
    → Keeps k (asked symbols actions) s (run symbols size actions s)
unfolding run
run-Keeps k symbols size [] s = refl
run-Keeps k symbols size (a ∷ actions) s =
    let next = act symbols size a s in
    let rest = run symbols size actions next.0 in
    omega (
      arith,
      act-Keeps k symbols size a s,
      run-Keeps k symbols size actions next.0,
      asked-cons k symbols a actions,
      count-append k next.1 rest.1,
    )

-- Actions that ask for nothing and leave nothing to do.
abbrev pub Empties : List String → ℕ → Snapshots → List Action → Type 0
Empties symbols size s more = (asked symbols more ≡ []) × ((run symbols size more s).0 ≡ none_asked)

module _ (symbols : List String) (size : ℕ) where
  abbrev Emptied : Snapshots → Type 0
  Emptied s = (more : List Action) × Empties symbols size s more

  fetch_all : (t : List String) → Emptied (record { waiting = []; queue = []; tasks = t })
  unfolding run act act_fetch
  fetch_all [] = ([], (refl, refl))
  fetch_all (x ∷ t) = let r = fetch_all t in (fetch 0 ∷ r.0, (r.1.0, r.1.1))

  hand_all : (w t : List String) → Emptied (record { waiting = w; queue = []; tasks = t })
  unfolding run act act_hand
  hand_all [] t = fetch_all t
  hand_all (x ∷ w) t = let r = hand_all w (t ++ x ∷ []) in (hand 0 ∷ r.0, (r.1.0, r.1.1))

  receive_all : (q w t : List String) → Emptied (record { waiting = w; queue = q; tasks = t })
  unfolding run act act_receive
  receive_all [] w t = hand_all w t
  receive_all (x ∷ q) w t = let r = receive_all q w (t ++ x ∷ []) in (receive ∷ r.0, (r.1.0, r.1.1))

-- Whatever the timer, the callers and the goroutines do, from the start: the channel never holds more
-- than it has room for; and there is a way to go on, without asking for more and also where the
-- channel has no buffer, after which nothing is left to do and `snapshot` was called for each symbol
-- as often as it was asked for.
pub run-serves :
    (symbols : List String) (size : ℕ) (actions : List Action)
    → let r = run symbols size actions none_asked in
      IsBounded size r.0
      × (more : List Action) × Empties symbols size r.0 more
      × ((k : String)
          → count k (r.1 ++ (run symbols size more r.0).1) ≡ count k (asked symbols actions))
run-serves symbols size actions =
    let r = run symbols size actions none_asked in
    let m = receive_all symbols size r.0.queue r.0.waiting r.0.tasks in
    (
      run-IsBounded symbols size actions none_asked (omega arith),
      m.0,
      m.1,
      λ k.
          let last = run symbols size m.0 r.0 in
          let idle : pending k last.0 ≡ 0 = ap (pending k) m.1.1 in
          let none_more : count k (asked symbols m.0) ≡ 0 = ap (count k) m.1.0 in
          omega (
            arith,
            idle,
            none_more,
            count-append k r.1 last.1,
            run-Keeps k symbols size actions none_asked,
            run-Keeps k symbols size m.0 r.0,
          ),
    )
