-- ===== src/Instance/Exclusion.antt =====
-- While nobody removes the lock file, one process has it at most.
use gobinace_qaggr_qrecv.Prelude.{
  some-injective, ℕ, suc, false, Option, some, List, [], ◌∷◌, All, ◌≡◌, sym, ap, ◌∙◌,
}
use gobinace_qaggr_qrecv.Instance.Steps.{
  file_of, lock_of, running_of, Step, stayed, opening, making, locking, starting, failing, leaving,
  ending, is_remove, act-Step,
}
use gobinace_qaggr_qrecv.Instance.Lock.{
  itoa, Phase, opened, flocked, running, over, Host, set, booted, Action, moved, released, written,
  flocked_at, act, run,
}
use gobinace_qaggr_qrecv.Instance.Owners.{some_none, set-all, Owns, Step-Owns}
use gobinace_qaggr_qrecv.Instance.Content.{Begins, AreNamed, Step-AreNamed}

-- Where no process has got to the Remove of its Unlock, every open file is the file at the path.
abbrev IsLinkedAt : Option ℕ → ℕ → Phase → Type 0
IsLinkedAt l q ph = (j : ℕ) → file_of ph ≡ some j → l ≡ some j

abbrev pub AreLinked : Host → Type 0
AreLinked h = (q : ℕ) → IsLinkedAt h.linked q (h.phase q)

AreLinked-moved :
    (p : ℕ) (ph : Phase) (h : Host)
    → IsLinkedAt h.linked p ph
    → AreLinked h
    → AreLinked (moved p ph h)
unfolding moved
AreLinked-moved p ph h here l = set-all (IsLinkedAt h.linked) p ph h.phase here (λ q s. l q)

pub Step-AreLinked : {h g : Host} → Step h g → AreLinked h → AreLinked g
unfolding written released flocked_at
Step-AreLinked stayed l = l
Step-AreLinked {h} (opening p i e f) l = AreLinked-moved p (opened i) h (λ j s. f ∙ s) l
Step-AreLinked {h} (making p e f) l =
    AreLinked-moved p (opened h.made) (record h { linked = some h.made; made = suc h.made })
      (λ j s. s) (λ q j s. absurd (some_none (sym (l q j s) ∙ f)))
Step-AreLinked {h} (locking p i e free) l = rw free (
    AreLinked-moved p (flocked i) (record h { owner = set i (some p) h.owner })
      (λ j s. l p j (ap file_of e ∙ s)) l)
Step-AreLinked {h} (starting p i e) l =
    AreLinked-moved p (running i) (written i (itoa p) h) (λ j s. l p j (ap file_of e ∙ s)) l
Step-AreLinked {h} (failing p i t e) l =
    AreLinked-moved p over (released i (written i t h)) (λ j s. absurd (some_none (sym s))) l
Step-AreLinked {h} (leaving p i ph e n) l =
    AreLinked-moved p ph (released i h) (λ j s. absurd (some_none (sym s ∙ n))) l
Step-AreLinked {h} (ending p) l = AreLinked-moved p over h (λ j s. absurd (some_none (sym s))) l

pub run-keeps :
    (actions : List Action) (h : Host)
    → All (λ a. is_remove a ≡ false) actions
    → Owns h × AreLinked h × AreNamed h
    → Owns (run actions h) × AreLinked (run actions h) × AreNamed (run actions h)
unfolding run
run-keeps [] h n k = k
run-keeps (a ∷ actions) h n k =
    let s = act-Step a h n.0 in
    run-keeps actions (act a h) n.1 (Step-Owns s k.0, Step-AreLinked s k.1, Step-AreNamed s k.0 k.2)

pub booted-keeps : Owns booted × AreLinked booted × AreNamed booted
booted-keeps = (
  λ q j s. absurd (some_none (sym s)),
  λ q j s. absurd (some_none (sym s)),
  λ q j s. absurd (some_none (sym s)),
)

-- While no process gets to the Remove of its Unlock, in whatever order the processes open, lock and write
-- the file, fail, close it or are killed: two processes that are through Lock and have not ended are one;
-- its file is the one at the path, and the bytes in it begin with its PID.
pub run-exclusive :
    (actions : List Action) (p q i j : ℕ)
    → All (λ a. is_remove a ≡ false) actions
    → (run actions booted).phase p ≡ running i
    → (run actions booted).phase q ≡ running j
    → (p ≡ q)
      × ((run actions booted).linked ≡ some i)
      × Begins (itoa p) ((run actions booted).content i)
run-exclusive actions p q i j n e f =
    let k = run-keeps actions booted n booted-keeps in
    let one = some-injective (sym (k.1 p i (ap file_of e)) ∙ k.1 q j (ap file_of f)) in
    (
      some-injective (
          sym (k.0 p i (ap lock_of e))
          ∙ (ap (run actions booted).owner one ∙ k.0 q j (ap lock_of f))),
      k.1 p i (ap file_of e),
      k.2 p i (ap running_of e),
    )
