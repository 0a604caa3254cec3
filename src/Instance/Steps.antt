-- ===== src/Instance/Steps.antt =====
-- The steps of a process, whatever its phase: what changes, and what is known then.
use gobinace_qaggr_qrecv.Prelude.{
  ℕ, suc, Bool, true, false, Option, none, some, ◌≡◌, ◌≢◌, refl, ap, Option-cases, inl, inr, take,
}
use gobinace_qaggr_qrecv.Quote.Ids.{Key}
use gobinace_qaggr_qrecv.Instance.Lock.{
  Phase, idle, opened, flocked, running, closed, over, Host, Action, open_file, flock, write, fail,
  close, remove, kill, moved, released, written, itoa, opened_at, flocked_at, act_open, act_flock,
  act_write, act_fail, act_close, act_kill, act,
}

-- The file that a process has open, and the one whose lock it has.
abbrev pub file_of : Phase → Option ℕ
file_of idle = none
file_of (opened i) = some i
file_of (flocked i) = some i
file_of (running i) = some i
file_of closed = none
file_of over = none

abbrev pub lock_of : Phase → Option ℕ
lock_of idle = none
lock_of (opened i) = none
lock_of (flocked i) = some i
lock_of (running i) = some i
lock_of closed = none
lock_of over = none

-- The file of a process that is through Lock.
abbrev pub running_of : Phase → Option ℕ
running_of idle = none
running_of (opened i) = none
running_of (flocked i) = none
running_of (running i) = some i
running_of closed = none
running_of over = none

pub running_lock : (ph : Phase) {j : ℕ} → running_of ph ≡ some j → lock_of ph ≡ some j
running_lock idle e = e
running_lock (opened i) e = e
running_lock (flocked i) e = cc
running_lock (running i) e = e
running_lock closed e = e
running_lock over e = e

pub running_file : (ph : Phase) {j : ℕ} → running_of ph ≡ some j → file_of ph ≡ some j
running_file idle e = e
running_file (opened i) e = cc
running_file (flocked i) e = cc
running_file (running i) e = e
running_file closed e = e
running_file over e = e

-- Without a file there is no lock.
pub file_none : (ph : Phase) → file_of ph ≡ none → lock_of ph ≡ none
file_none idle e = refl
file_none (opened i) e = refl
file_none (flocked i) e = e
file_none (running i) e = e
file_none closed e = refl
file_none over e = refl

true_false : ◌≢◌ {A = Bool} true false
true_false e = cc

-- The ways in which a host changes, but for Remove.
pub data Step (h : Host) : Host → Type 0 where
  stayed : Step h h
  opening : (p i : ℕ) → h.phase p ≡ idle → h.linked ≡ some i → Step h (moved p (opened i) h)
  making :
      (p : ℕ)
      → h.phase p ≡ idle
      → h.linked ≡ none
      → Step h (moved p (opened h.made) (record h { linked = some h.made; made = suc h.made }))
  locking :
      (p i : ℕ) → h.phase p ≡ opened i → h.owner i ≡ none → Step h (flocked_at p i (h.owner i) h)
  starting : (p i : ℕ) → h.phase p ≡ flocked i → Step h (moved p (running i) (written i (itoa p) h))
  failing :
      (p i : ℕ) (t : Key)
      → h.phase p ≡ flocked i
      → Step h (moved p over (released i (written i t h)))
  leaving :
      (p i : ℕ) (ph : Phase)
      → lock_of (h.phase p) ≡ some i
      → file_of ph ≡ none
      → Step h (moved p ph (released i h))
  ending : (p : ℕ) → Step h (moved p over h)

abbrev pub is_remove : Action → Bool
is_remove (remove p) = true
is_remove (open_file p ok) = false
is_remove (flock p) = false
is_remove (write p) = false
is_remove (fail p n) = false
is_remove (close p) = false
is_remove (kill p) = false

opened-Step :
    (p : ℕ) (o : Option ℕ) (h : Host) → h.phase p ≡ idle → h.linked ≡ o → Step h (opened_at p o h)
unfolding opened_at
opened-Step p none h e l = making p e l
opened-Step p (some i) h e l = opening p i e l

open-Step :
    (p : ℕ) (ok : Bool) (ph : Phase) (h : Host) → h.phase p ≡ ph → Step h (act_open p ok ph h)
unfolding act_open
open-Step p true idle h e = opened-Step p h.linked h e refl
open-Step p false idle h e = ending p
open-Step p ok (opened i) h e = stayed
open-Step p ok (flocked i) h e = stayed
open-Step p ok (running i) h e = stayed
open-Step p ok closed h e = stayed
open-Step p ok over h e = stayed

flock-refused : (p i q : ℕ) (h : Host) → h.owner i ≡ some q → Step h (flocked_at p i (h.owner i) h)
unfolding flocked_at
flock-refused p i q h o = rw o (ending p)

flock-Step : (p : ℕ) (ph : Phase) (h : Host) → h.phase p ≡ ph → Step h (act_flock p ph h)
unfolding act_flock
flock-Step p (opened i) h e = elim (Option-cases (h.owner i)) [
  | inl n ↦ locking p i e n
  | inr (q, o) ↦ flock-refused p i q h o
]
flock-Step p idle h e = stayed
flock-Step p (flocked i) h e = stayed
flock-Step p (running i) h e = stayed
flock-Step p closed h e = stayed
flock-Step p over h e = stayed

write-Step : (p : ℕ) (ph : Phase) (h : Host) → h.phase p ≡ ph → Step h (act_write p ph h)
unfolding act_write
write-Step p (flocked i) h e = starting p i e
write-Step p (opened i) h e = stayed
write-Step p idle h e = stayed
write-Step p (running i) h e = stayed
write-Step p closed h e = stayed
write-Step p over h e = stayed

fail-Step : (p n : ℕ) (ph : Phase) (h : Host) → h.phase p ≡ ph → Step h (act_fail p n ph h)
unfolding act_fail
fail-Step p n (flocked i) h e = failing p i (take n (itoa p)) e
fail-Step p n (opened i) h e = stayed
fail-Step p n idle h e = stayed
fail-Step p n (running i) h e = stayed
fail-Step p n closed h e = stayed
fail-Step p n over h e = stayed

close-Step : (p : ℕ) (ph : Phase) (h : Host) → h.phase p ≡ ph → Step h (act_close p ph h)
unfolding act_close
close-Step p (running i) h e = leaving p i closed (ap lock_of e) refl
close-Step p (flocked i) h e = stayed
close-Step p (opened i) h e = stayed
close-Step p idle h e = stayed
close-Step p closed h e = stayed
close-Step p over h e = stayed

kill-Step : (p : ℕ) (ph : Phase) (h : Host) → h.phase p ≡ ph → Step h (act_kill p ph h)
unfolding act_kill
kill-Step p (flocked i) h e = leaving p i over (ap lock_of e) refl
kill-Step p (running i) h e = leaving p i over (ap lock_of e) refl
kill-Step p (opened i) h e = ending p
kill-Step p idle h e = ending p
kill-Step p closed h e = ending p
kill-Step p over h e = ending p

pub act-Step : (a : Action) (h : Host) → is_remove a ≡ false → Step h (act a h)
unfolding act
act-Step (open_file p ok) h n = open-Step p ok (h.phase p) h refl
act-Step (flock p) h n = flock-Step p (h.phase p) h refl
act-Step (write p) h n = write-Step p (h.phase p) h refl
act-Step (fail p k) h n = fail-Step p k (h.phase p) h refl
act-Step (close p) h n = close-Step p (h.phase p) h refl
act-Step (remove p) h n = absurd (true_false n)
act-Step (kill p) h n = kill-Step p (h.phase p) h refl
