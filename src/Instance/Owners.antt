-- ===== src/Instance/Owners.antt =====
-- The owners of the locks: at most one process has the lock of a file.
use gobinace_qaggr_qrecv.Prelude.{
  some-injective, ℕ, suc, ◌==◌, ==_iff, Option, none, some, ◌≡◌, ◌≢◌, refl, sym, ap, ◌∙◌, subst,
  Bool-cases, inl, inr, arith,
}
use gobinace_qaggr_qrecv.Instance.Steps.{
  lock_of, file_none, Step, stayed, opening, making, locking, starting, failing, leaving, ending,
}
use gobinace_qaggr_qrecv.Instance.Lock.{
  itoa, Phase, opened, flocked, running, over, Host, set, moved, released, written, flocked_at,
}

pub set-at {ℓ} : {A : Type ℓ} (p : ℕ) (v : A) (f : ℕ → A) → set p v f p ≡ v
unfolding set
set-at p v f = rw ((==_iff p p).1 refl) refl

pub some_none : {j : ℕ} → ◌≢◌ {A = Option ℕ} (some j) none
some_none e = cc

-- A property of all values of a function, after a change at one place.
pub set-all {ℓ} :
    {A : Type ℓ} (P : ℕ → A → Type ℓ) (p : ℕ) (v : A) (f : ℕ → A)
    → P p v
    → ((q : ℕ) → q ≢ p → P q (f q))
    → (q : ℕ) → P q (set p v f q)
unfolding set
set-all P p v f here there q = elim (Bool-cases (q == p)) [
  | inl e ↦ rw e (subst (λ k. P k v) (sym ((==_iff q p).0 e)) here)
  | inr e ↦ rw e (there q (λ s. ground arith))
]

abbrev pub OwnsAt : (ℕ → Option ℕ) → ℕ → Phase → Type 0
OwnsAt owner q ph = (j : ℕ) → lock_of ph ≡ some j → owner j ≡ some q

-- Who has a lock is its owner for the system.
abbrev pub Owns : Host → Type 0
Owns h = (q : ℕ) → OwnsAt h.owner q (h.phase q)

-- A step of `p` that leaves the other phases alone.
Owns-moved :
    (p : ℕ) (ph : Phase) (h : Host)
    → OwnsAt h.owner p ph
    → ((q : ℕ) → q ≢ p → OwnsAt h.owner q (h.phase q))
    → Owns (moved p ph h)
unfolding moved
Owns-moved p ph h here there = set-all (OwnsAt h.owner) p ph h.phase here there

Owns-taken : (p i : ℕ) (h : Host) → h.owner i ≡ none → Owns h → Owns (flocked_at p i (h.owner i) h)
unfolding flocked_at
Owns-taken p i h free o = rw free (
    Owns-moved p (flocked i) (record h { owner = set i (some p) h.owner })
      (set-all (λ j w. ◌≡◌ {A = Option ℕ} (some i) (some j) → w ≡ some p) i (some p) h.owner
        (λ e. refl) (λ j s e. absurd (s (sym (some-injective e)))))
      (λ q s.
        set-all (λ j w. lock_of (h.phase q) ≡ some j → w ≡ some q) i (some p) h.owner
          (λ e. absurd (some_none (sym (o q i e) ∙ free))) (λ j t. o q j)))

-- The lock that `p` has is released; the others keep theirs.
others-released :
    (p i : ℕ) (h : Host)
    → Owns h
    → lock_of (h.phase p) ≡ some i
    → (q : ℕ) → q ≢ p
    → OwnsAt (set i none h.owner) q (h.phase q)
others-released p i h o has q s =
    set-all (λ j w. lock_of (h.phase q) ≡ some j → w ≡ some q) i none h.owner
      (λ e. absurd (s (some-injective (sym (o q i e) ∙ o p i has)))) (λ j t. o q j)

-- A step of `p` after which it has no lock.
Owns-dropped :
    (p i : ℕ) (ph : Phase) (h : Host)
    → lock_of ph ≡ none
    → Owns h
    → lock_of (h.phase p) ≡ some i
    → Owns (moved p ph (released i h))
unfolding released
Owns-dropped p i ph h n o has =
    Owns-moved p ph (record h { owner = set i none h.owner })
      (λ j e. absurd (some_none (sym e ∙ n))) (others-released p i h o has)

Owns-free : (p : ℕ) (ph : Phase) (h : Host) → lock_of ph ≡ none → Owns h → Owns (moved p ph h)
Owns-free p ph h n o = Owns-moved p ph h (λ j e. absurd (some_none (sym e ∙ n))) (λ q s. o q)

-- Every step keeps it.
pub Step-Owns : {h g : Host} → Step h g → Owns h → Owns g
unfolding written
Step-Owns stayed o = o
Step-Owns {h} (opening p i e l) o = Owns-free p (opened i) h refl o
Step-Owns {h} (making p e l) o =
    Owns-free p (opened h.made) (record h { linked = some h.made; made = suc h.made }) refl o
Step-Owns {h} (locking p i e free) o = Owns-taken p i h free o
Step-Owns {h} (starting p i e) o =
    Owns-moved p (running i) (written i (itoa p) h) (λ j s. o p j (ap lock_of e ∙ s)) (λ q s. o q)
Step-Owns {h} (failing p i t e) o = Owns-dropped p i over (written i t h) refl o (ap lock_of e)
Step-Owns {h} (leaving p i ph e n) o = Owns-dropped p i ph h (file_none ph n) o e
Step-Owns {h} (ending p) o = Owns-free p over h refl o
