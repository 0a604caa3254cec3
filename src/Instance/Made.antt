-- ===== src/Instance/Made.antt =====
-- Files that have a name or an owner are files that were made.
use gobinace_qaggr_qrecv.Prelude.{
  some-injective, ℕ, suc, ◌<◌, false, none, some, List, [], ◌∷◌, All, ◌≡◌, sym, ap, arith, subst,
}
use gobinace_qaggr_qrecv.Instance.Lock.{
  Host, Action, moved, released, written, flocked_at, act, run,
}
use gobinace_qaggr_qrecv.Instance.Steps.{
  file_of, Step, stayed, opening, making, locking, starting, failing, leaving, ending, is_remove,
  act-Step,
}
use gobinace_qaggr_qrecv.Instance.Owners.{some_none, set-all}
use gobinace_qaggr_qrecv.Instance.Exclusion.{AreLinked, Step-AreLinked}

pub not_below : (n : ℕ) → n < n → ⊥
not_below n l = omega arith

-- The files that have a name or an owner were made.
abbrev pub WereMade : Host → Type 0
WereMade h =
    ((j : ℕ) → h.linked ≡ some j → j < h.made) × ((j q : ℕ) → h.owner j ≡ some q → j < h.made)

released-WereMade : (i : ℕ) (h : Host) → WereMade h → WereMade (released i h)
unfolding released
released-WereMade i h m = (
  m.0,
  λ j q.
      set-all (λ k w. w ≡ some q → k < h.made) i none h.owner (λ e. absurd (some_none (sym e)))
        (λ k s e. m.1 k q e) j,
)

Step-WereMade : {h g : Host} → Step h g → AreLinked h → WereMade h → WereMade g
unfolding moved written flocked_at
Step-WereMade stayed l m = m
Step-WereMade (opening p i e f) l m = m
Step-WereMade {h} (making p e f) l m = (
  λ j s. subst (λ k. k < suc h.made) (some-injective s) (omega arith),
  λ j q s. omega (arith, m.1 j q s),
)
Step-WereMade {h} (locking p i e free) l m = rw free (
  m.0,
  λ j q.
      set-all (λ k w. w ≡ some q → k < h.made) i (some p) h.owner
        (λ s. m.0 i (l p i (ap file_of e))) (λ k s u. m.1 k q u) j,
)
Step-WereMade (starting p i e) l m = m
Step-WereMade {h} (failing p i t e) l m = released-WereMade i (written i t h) m
Step-WereMade {h} (leaving p i ph e n) l m = released-WereMade i h m
Step-WereMade (ending p) l m = m

pub run-WereMade :
    (actions : List Action) (h : Host)
    → All (λ a. is_remove a ≡ false) actions
    → AreLinked h
    → WereMade h
    → AreLinked (run actions h) × WereMade (run actions h)
unfolding run
run-WereMade [] h n l m = (l, m)
run-WereMade (a ∷ actions) h n l m =
    let s = act-Step a h n.0 in
    run-WereMade actions (act a h) n.1 (Step-AreLinked s l) (Step-WereMade s l m)
