-- ===== src/Instance/Content.antt =====
-- What the lock files hold: PIDs.
use gobinace_qaggr_qrecv.Prelude.{
  some-injective, ℕ, suc, some, ◌++◌, ◌≡◌, ◌≢◌, sym, ap, ◌∙◌, subst, drop, length,
}
use gobinace_qaggr_qrecv.Quote.Ids.{Key}
use gobinace_qaggr_qrecv.Instance.Steps.{
  lock_of, running_of, running_lock, running_file, Step, stayed, opening, making, locking, starting,
  failing, leaving, ending,
}
use gobinace_qaggr_qrecv.Instance.Lock.{
  itoa, overwritten, Phase, opened, flocked, running, over, Host, set, moved, released, written,
  flocked_at,
}
use gobinace_qaggr_qrecv.Instance.Owners.{set-at, some_none, set-all, Owns}

-- The file of a process that is through Lock begins with its PID.
abbrev pub Begins : Key → Key → Type 0
Begins pid bytes = (rest : Key) × (bytes ≡ pid ++ rest)

abbrev BeginsAt : (ℕ → Key) → ℕ → Phase → Type 0
BeginsAt content q ph = (j : ℕ) → running_of ph ≡ some j → Begins (itoa q) (content j)

abbrev pub AreNamed : Host → Type 0
AreNamed h = (q : ℕ) → BeginsAt h.content q (h.phase q)

AreNamed-moved :
    (p : ℕ) (ph : Phase) (h : Host)
    → BeginsAt h.content p ph
    → ((q : ℕ) → q ≢ p → BeginsAt h.content q (h.phase q))
    → AreNamed (moved p ph h)
unfolding moved
AreNamed-moved p ph h here there = set-all (BeginsAt h.content) p ph h.phase here there

written-Begins : (i : ℕ) (t : Key) (h : Host) → Begins t ((written i t h).content i)
unfolding written overwritten
written-Begins i t h =
    (drop (length t) (h.content i), set-at i (t ++ drop (length t) (h.content i)) h.content)

-- A write of `p`, which has the lock, is to the file of no other process.
others-named :
    (p i : ℕ) (t : Key) (h : Host)
    → Owns h
    → AreNamed h
    → h.phase p ≡ flocked i
    → (q : ℕ) → q ≢ p
    → BeginsAt (written i t h).content q (h.phase q)
unfolding written
others-named p i t h o b e q s =
    set-all (λ j w. running_of (h.phase q) ≡ some j → Begins (itoa q) w) i
      (overwritten t (h.content i)) h.content
      (λ r.
        absurd
          (s (some-injective (sym (o q i (running_lock (h.phase q) r)) ∙ o p i (ap lock_of e)))))
      (λ j u. b q j)

pub Step-AreNamed : {h g : Host} → Step h g → Owns h → AreNamed h → AreNamed g
unfolding written released flocked_at
Step-AreNamed stayed o b = b
Step-AreNamed {h} (opening p i e f) o b =
    AreNamed-moved p (opened i) h (λ j r. absurd (some_none (sym r))) (λ q s. b q)
Step-AreNamed {h} (making p e f) o b =
    AreNamed-moved p (opened h.made) (record h { linked = some h.made; made = suc h.made })
      (λ j r. absurd (some_none (sym r))) (λ q s. b q)
Step-AreNamed {h} (locking p i e free) o b = rw free (
    AreNamed-moved p (flocked i) (record h { owner = set i (some p) h.owner })
      (λ j r. absurd (some_none (sym r))) (λ q s. b q))
Step-AreNamed {h} (starting p i e) o b =
    AreNamed-moved p (running i) (written i (itoa p) h)
      (λ j r.
        subst (λ k. Begins (itoa p) ((written i (itoa p) h).content k)) (some-injective r)
          (written-Begins i (itoa p) h))
      (others-named p i (itoa p) h o b e)
Step-AreNamed {h} (failing p i t e) o b =
    AreNamed-moved p over (released i (written i t h)) (λ j r. absurd (some_none (sym r)))
      (others-named p i t h o b e)
Step-AreNamed {h} (leaving p i ph e n) o b =
    AreNamed-moved p ph (released i h) (λ j r. absurd (some_none (sym (running_file ph r) ∙ n)))
      (λ q s. b q)
Step-AreNamed {h} (ending p) o b =
    AreNamed-moved p over h (λ j r. absurd (some_none (sym r))) (λ q s. b q)
