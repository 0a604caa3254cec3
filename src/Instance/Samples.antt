-- ===== src/Instance/Samples.antt =====
-- The lock file at concrete inputs.
use gobinace_qaggr_qrecv.Prelude.{ℕ, true, false, some, All, List, [], ◌∷◌, ◌≡◌, ◌≢◌, refl, arith}
use gobinace_qaggr_qrecv.Instance.Lock.{
  running, booted, Action, open_file, flock, write, kill, run, itoa, act_open, act_flock, act_write,
  act_kill,
}
use gobinace_qaggr_qrecv.Instance.Steps.{is_remove}
use gobinace_qaggr_qrecv.Instance.Content.{Begins}
use gobinace_qaggr_qrecv.Instance.Exclusion.{run-exclusive}
use gobinace_qaggr_qrecv.Instance.Unlock.{overlap, run-overlap}

-- 40 opens and locks the file first, so that 30 is refused; 40 is killed, and 5 starts after it.
abbrev history : List Action
history =
    open_file 40 true
    ∷ open_file 30 true
    ∷ flock 40
    ∷ flock 30
    ∷ write 40
    ∷ kill 40
    ∷ open_file 5 true
    ∷ flock 5
    ∷ write 5
    ∷ []

history-keeps : All (λ a. is_remove a ≡ false) history
history-keeps = (refl, (refl, (refl, (refl, (refl, (refl, (refl, (refl, (refl, tt)))))))))

run-exclusive_example :
    ◌≡◌ {A = ℕ} 5 5
    × ((run history booted).linked ≡ some 0)
    × Begins (itoa 5) ((run history booted).content 0)
unfolding act_open act_flock act_write act_kill run
run-exclusive_example = run-exclusive history 5 5 0 0 history-keeps refl refl

-- What is left of the longer PID stays in the file.
run-leaves : (run history booted).content 0 ≡ b'5' ∷ b'0' ∷ []
unfolding act_open act_flock act_write act_kill itoa run gobinace_qaggr_qrecv.Quote.Ids.format_int
run-leaves = refl

run-overlap_example :
    (j : ℕ) × (j ≢ 0)
    × ((run (overlap 5 6 7) (run history booted)).phase 6 ≡ running 0)
    × ((run (overlap 5 6 7) (run history booted)).phase 7 ≡ running j)
unfolding act_open act_flock act_write act_kill run
run-overlap_example =
    run-overlap history 5 6 7 0 history-keeps (omega arith) (omega arith) (omega arith) refl refl
      refl
