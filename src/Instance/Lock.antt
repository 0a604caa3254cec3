-- ===== src/Instance/Lock.antt =====
-- The processes that call Lock and Unlock of utils/env.go with the same path, and what the system keeps:
-- the file at the path, and of each file the owner of its lock and its bytes. A file is a number; a
-- process is its PID. A call of the system is a step, and the steps of the processes take turns.
use gobinace_qaggr_qrecv.Prelude.{
  ℕ, suc, ◌==◌, pos, Bool, Option, none, some, List, [], ◌∷◌, ◌++◌, length, take, drop,
  if◌then◌else◌,
}
use gobinace_qaggr_qrecv.Quote.Ids.{Key, format_int}

-- Where a process is: before Lock; after OpenFile and after Flock in createPIDFile, with the file; with the
-- file of a Lock that has succeeded; after Close in Unlock; and after Unlock, a Lock that failed, or its end.
pub data Phase : Type 0 where
  idle : Phase
  opened : ℕ → Phase
  flocked : ℕ → Phase
  running : ℕ → Phase
  closed : Phase
  over : Phase

-- `linked` is the file at the path, and `made` the number of files that were made there.
pub record Host : Type 0 where
  pub linked : Option ℕ
  pub made : ℕ
  pub owner : ℕ → Option ℕ
  pub content : ℕ → Key
  pub phase : ℕ → Phase

unfoldable pub set {ℓ} : {A : Type ℓ} → ℕ → A → (ℕ → A) → ℕ → A
set k v f j = if j == k then v else f j

abbrev pub booted : Host
booted = record { linked = none; made = 0; owner = λ i. none; content = λ i. []; phase = λ p. idle }

-- `fail` is an error of Write after so many bytes, or of Seek; `kill` is the end of a process.
pub data Action : Type 0 where
  open_file : ℕ → Bool → Action
  flock : ℕ → Action
  write : ℕ → Action
  fail : ℕ → ℕ → Action
  close : ℕ → Action
  remove : ℕ → Action
  kill : ℕ → Action

unfoldable pub moved : ℕ → Phase → Host → Host
unfolding set
moved p ph h = record h { phase = set p ph h.phase }

unfoldable pub released : ℕ → Host → Host
unfolding set
released i h = record h { owner = set i none h.owner }

-- The bytes of a file after a write at its start; the file is not truncated.
unfoldable pub overwritten : Key → Key → Key
overwritten text old = text ++ drop (length text) old

unfoldable pub written : ℕ → Key → Host → Host
unfolding set overwritten
written i text h = record h { content = set i (overwritten text (h.content i)) h.content }

unfoldable pub itoa : ℕ → Key
itoa pid = format_int (pos pid)

-- `os.OpenFile(filename, os.O_CREATE|os.O_RDWR, 0644)`
unfoldable pub opened_at : ℕ → Option ℕ → Host → Host
unfolding moved
opened_at p (some i) h = moved p (opened i) h
opened_at p none h = moved p (opened h.made) (record h { linked = some h.made; made = suc h.made })

-- `syscall.Flock(int(f.Fd()), syscall.LOCK_EX|syscall.LOCK_NB)`
unfoldable pub flocked_at : ℕ → ℕ → Option ℕ → Host → Host
unfolding moved set
flocked_at p i none h = moved p (flocked i) (record h { owner = set i (some p) h.owner })
flocked_at p i (some q) h = moved p over h

unfoldable pub act_open : ℕ → Bool → Phase → Host → Host
unfolding opened_at moved
act_open p ok ph h = elim ph [
  | idle ↦ if ok then opened_at p h.linked h else moved p over h
  | _ ↦ h
]

unfoldable pub act_flock : ℕ → Phase → Host → Host
unfolding flocked_at
act_flock p ph h = elim ph [ opened i ↦ flocked_at p i (h.owner i) h | _ ↦ h ]

unfoldable pub act_write : ℕ → Phase → Host → Host
unfolding moved written itoa
act_write p ph h = elim ph [ flocked i ↦ moved p (running i) (written i (itoa p) h) | _ ↦ h ]

unfoldable pub act_fail : ℕ → ℕ → Phase → Host → Host
unfolding moved written itoa released
act_fail p n ph h = elim ph [
  | flocked i ↦ moved p over (released i (written i (take n (itoa p)) h))
  | _ ↦ h
]

unfoldable pub act_close : ℕ → Phase → Host → Host
unfolding moved released
act_close p ph h = elim ph [ running i ↦ moved p closed (released i h) | _ ↦ h ]

unfoldable pub act_remove : ℕ → Phase → Host → Host
unfolding moved
act_remove p ph h = elim ph [ closed ↦ moved p over (record h { linked = none }) | _ ↦ h ]

-- The system closes the files of a process that ends.
unfoldable pub act_kill : ℕ → Phase → Host → Host
unfolding moved released
act_kill p ph h = elim ph [
  | flocked i ↦ moved p over (released i h)
  | running i ↦ moved p over (released i h)
  | _ ↦ moved p over h
]

unfoldable pub act : Action → Host → Host
unfolding act_open act_flock act_write act_fail act_close act_remove act_kill
act (open_file p ok) h = act_open p ok (h.phase p) h
act (flock p) h = act_flock p (h.phase p) h
act (write p) h = act_write p (h.phase p) h
act (fail p n) h = act_fail p n (h.phase p) h
act (close p) h = act_close p (h.phase p) h
act (remove p) h = act_remove p (h.phase p) h
act (kill p) h = act_kill p (h.phase p) h

unfoldable pub run : List Action → Host → Host
unfolding act
run [] h = h
run (a ∷ actions) h = run actions (act a h)
