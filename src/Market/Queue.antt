-- ===== src/Market/Queue.antt =====
-- The queue of snapshots of SnapShotManager. `doSnapShot` starts a goroutine that waits to send the
-- symbol on snapShotChan; `run` receives it and starts a goroutine that calls `snapshot` once it has
-- the mutex. What `snapshot` does with the answer is Receiver/Events and Fanout.
use text.Mathlib.Text.{◌==◌ as str_eq}
use gobinace_qaggr_qrecv.Prelude.{
  ℕ, zero, suc, ◌+◌, ltb, length, String, Option, none, some, List, [], ◌∷◌, ◌++◌, if◌then◌else◌,
  ◌≡◌, refl, ap, arith, Bool-cases, inl, inr,
}

-- The waiting senders, what is in the channel, and the goroutines that have yet to call `snapshot`.
pub record Snapshots : Type 0 where
  pub waiting : List String
  pub queue : List String
  pub tasks : List String

-- The steps: of the timer, of a caller of doSnapShot, of the sender at a place, which puts its symbol
-- into the channel or gives it to `run`, of `run`, and of the goroutine at a place.
pub data Action : Type 0 where
  on_timer : Action
  do_snap_shot : String → Action
  put : ℕ → Action
  hand : ℕ → Action
  receive : Action
  fetch : ℕ → Action

-- The entry at a place, and the others.
abbrev pub pick : ℕ → List String → Option (String × List String)
pick n [] = none
pick zero (x ∷ xs) = some (x, xs)
pick (suc n) (x ∷ xs) = elim (pick n xs) [ none ↦ none | some p ↦ some (p.0, x ∷ p.1) ]

-- A send on a channel with room.
unfoldable pub act_put : ℕ → Option (String × List String) → Snapshots → Snapshots
act_put size none s = s
act_put size (some (x, others)) s =
    if ltb (length s.queue) size
    then record s { waiting = others; queue = s.queue ++ x ∷ [] }
    else s

-- A send to a receiver that waits: the channel is then empty.
unfoldable pub act_hand : Option (String × List String) → List String → Snapshots → Snapshots
act_hand none q s = s
act_hand (some (x, others)) [] s = record s { waiting = others; tasks = s.tasks ++ x ∷ [] }
act_hand (some (x, others)) (y ∷ q) s = s

unfoldable pub act_receive : List String → Snapshots → Snapshots
act_receive [] s = s
act_receive (x ∷ q) s = record s { queue = q; tasks = s.tasks ++ x ∷ [] }

unfoldable pub act_fetch : Option (String × List String) → Snapshots → Snapshots × List String
act_fetch none s = (s, [])
act_fetch (some (x, others)) s = (record s { tasks = others }, x ∷ [])

-- A step, and the symbols that it calls `snapshot` for; one that cannot be taken changes nothing. The
-- trade symbols and TaskQueueSize are arguments.
unfoldable pub act : List String → ℕ → Action → Snapshots → Snapshots × List String
unfolding act_put act_hand act_receive act_fetch
act symbols size on_timer s = (record s { waiting = symbols ++ s.waiting }, [])
act symbols size (do_snap_shot x) s = (record s { waiting = x ∷ s.waiting }, [])
act symbols size (put n) s = (act_put size (pick n s.waiting) s, [])
act symbols size (hand n) s = (act_hand (pick n s.waiting) s.queue s, [])
act symbols size receive s = (act_receive s.queue s, [])
act symbols size (fetch n) s = act_fetch (pick n s.tasks) s

unfoldable pub run : List String → ℕ → List Action → Snapshots → Snapshots × List String
unfolding act
run symbols size [] s = (s, [])
run symbols size (a ∷ actions) s =
    let next = act symbols size a s in
    let rest = run symbols size actions next.0 in (rest.0, next.1 ++ rest.1)

abbrev pub none_asked : Snapshots
none_asked = record { waiting = []; queue = []; tasks = [] }

-- How often a symbol is there.
abbrev pub count : String → List String → ℕ
count k [] = 0
count k (x ∷ xs) = (if str_eq x k then 1 else 0) + count k xs

-- The symbols that the actions ask for.
abbrev pub asked : List String → List Action → List String
asked symbols [] = []
asked symbols (on_timer ∷ actions) = symbols ++ asked symbols actions
asked symbols (do_snap_shot x ∷ actions) = x ∷ asked symbols actions
asked symbols (put n ∷ actions) = asked symbols actions
asked symbols (hand n ∷ actions) = asked symbols actions
asked symbols (receive ∷ actions) = asked symbols actions
asked symbols (fetch n ∷ actions) = asked symbols actions

pub count-append : (k : String) (xs ys : List String) → count k (xs ++ ys) ≡ count k xs + count k ys
count-append k [] ys = omega arith
count-append k (x ∷ xs) ys = omega (arith, count-append k xs ys)

abbrev pub pending : String → Snapshots → ℕ
pending k s = count k s.waiting + (count k s.queue + count k s.tasks)

-- The entry at a place and the others make up the list.
abbrev IsPick : String → List String → Option (String × List String) → Type 0
IsPick k xs none = Unit
IsPick k xs (some p) = count k xs ≡ count k (p.0 ∷ p.1)

pick-IsPick : (k : String) (n : ℕ) (xs : List String) → IsPick k xs (pick n xs)
pick-IsPick k zero [] = tt
pick-IsPick k (suc n) [] = tt
pick-IsPick k zero (x ∷ xs) = refl
pick-IsPick k (suc n) (x ∷ xs) = go (pick n xs) (pick-IsPick k n xs)
  where
    go :
        (o : Option (String × List String))
        → IsPick k xs o
        → IsPick k (x ∷ xs) (elim o [ none ↦ none | some p ↦ some (p.0, x ∷ p.1) ])
    go none h = tt
    go (some p) h = omega (arith, h)

-- A step loses and adds nothing but what it calls and what it asks for.
abbrev pub Keeps : String → List String → Snapshots → Snapshots × List String → Type 0
Keeps k new s r = count k r.1 + pending k r.0 ≡ count k new + pending k s

act_put-Keeps :
    (k : String) (size : ℕ) (o : Option (String × List String)) (s : Snapshots)
    → IsPick k s.waiting o
    → Keeps k [] s (act_put size o s, [])
unfolding act_put
act_put-Keeps k size none s h = refl
act_put-Keeps k size (some (x, others)) s h = elim (Bool-cases (ltb (length s.queue) size)) [
  | inl e ↦ rw e (omega (arith, h, count-append k s.queue (x ∷ [])))
  | inr e ↦ rw e refl
]

act_hand-Keeps :
    (k : String) (o : Option (String × List String)) (q : List String) (s : Snapshots)
    → IsPick k s.waiting o
    → Keeps k [] s (act_hand o q s, [])
unfolding act_hand
act_hand-Keeps k none q s h = refl
act_hand-Keeps k (some (x, others)) [] s h = omega (arith, h, count-append k s.tasks (x ∷ []))
act_hand-Keeps k (some (x, others)) (y ∷ q) s h = refl

act_receive-Keeps :
    (k : String) (q : List String) (s : Snapshots)
    → s.queue ≡ q
    → Keeps k [] s (act_receive q s, [])
unfolding act_receive
act_receive-Keeps k [] s h = refl
act_receive-Keeps k (x ∷ q) s h = omega (arith, ap (count k) h, count-append k s.tasks (x ∷ []))

act_fetch-Keeps :
    (k : String) (o : Option (String × List String)) (s : Snapshots)
    → IsPick k s.tasks o
    → Keeps k [] s (act_fetch o s)
unfolding act_fetch
act_fetch-Keeps k none s h = refl
act_fetch-Keeps k (some (x, others)) s h = omega (arith, h)

pub act-Keeps :
    (k : String) (symbols : List String) (size : ℕ) (a : Action) (s : Snapshots)
    → Keeps k (asked symbols (a ∷ [])) s (act symbols size a s)
unfolding act
act-Keeps k symbols size on_timer s =
    omega (arith, count-append k symbols s.waiting, count-append k symbols [])
act-Keeps k symbols size (do_snap_shot x) s = omega arith
act-Keeps k symbols size (put n) s =
    act_put-Keeps k size (pick n s.waiting) s (pick-IsPick k n s.waiting)
act-Keeps k symbols size (hand n) s =
    act_hand-Keeps k (pick n s.waiting) s.queue s (pick-IsPick k n s.waiting)
act-Keeps k symbols size receive s = act_receive-Keeps k s.queue s refl
act-Keeps k symbols size (fetch n) s =
    act_fetch-Keeps k (pick n s.tasks) s (pick-IsPick k n s.tasks)
