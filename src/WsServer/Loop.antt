-- ===== src/WsServer/Loop.antt =====
-- The steps of the loop of a client of wsserver.go keep what holds in each stage.
use gobinace_qaggr_qrecv.Prelude.{
  ltb, List, [], ◌∷◌, ◌++◌, length, ◌≡◌, refl, sym, ap, ◌∙◌, append_assoc, append-nil, Bool-cases,
  inl, inr,
}
use gobinace_qaggr_qrecv.WsServer.Data.{WsSendData}
use gobinace_qaggr_qrecv.WsServer.Client.{
  Hand, free, to_msg, to_acc, Job, scanning, replaying, flushing, gap, finished, World, Limits,
  send_msg, act_take, act_put, act_spawn,
}
use gobinace_qaggr_qrecv.WsServer.Stages.{
  msg_hand, acc_hand, passed, waiting, Stage, Holds, Holds-if, moved, Staged,
}

acc_taken :
    (m : WsSendData) (ms : List WsSendData) (w : World)
    → w.hand ≡ free
    → w.live ≡ m ∷ ms
    → acc_hand w.hand ++ w.live ≡ m ∷ ms
acc_taken m ms w eh el = ap (λ h. acc_hand h ++ w.live) eh ∙ el

-- The loop takes a message that waits.
pub take-Stage :
    (snap total : List WsSendData) (j : Job) (h : Hand) (ms : List WsSendData) (w : World)
    → w.hand ≡ h
    → w.live ≡ ms
    → Stage snap total j w
    → Holds (Stage snap total j) (act_take h ms w)
unfolding act_take
take-Stage snap total j free [] w eh el s = tt
take-Stage snap total j (to_msg x) ms w eh el s = tt
take-Stage snap total j (to_acc x) ms w eh el s = tt
take-Stage snap total scanning free (m ∷ ms) w eh el s =
    rw (s.0).0 ((refl, refl), s.1, ap (λ l. w.acc ++ l) (sym (acc_taken m ms w eh el)) ∙ s.2)
take-Stage snap total (replaying todo) free (m ∷ ms) w eh el s =
    rw (s.0).0 ((refl, refl), s.1, ap (λ l. w.acc ++ l) (sym (acc_taken m ms w eh el)) ∙ s.2)
take-Stage snap total (flushing todo) free (m ∷ ms) w eh el s =
    rw (s.0).0 ((refl, refl), s.1, ap (λ l. w.acc ++ l) (sym (acc_taken m ms w eh el)) ∙ s.2)
take-Stage snap total gap free (m ∷ ms) w eh el s =
    rw (s.1).0
      (s.0, (refl, refl), s.2, ap (λ l. s.0 ++ (w.acc ++ l)) (sym (acc_taken m ms w eh el)) ∙ s.3)
take-Stage snap total finished free (m ∷ ms) w eh el s = rw (s.2) (
  s.0,
  s.1,
  refl,
  ap (λ l. passed w ++ l) (sym (ap (λ h. msg_hand h ++ w.live) eh ∙ el)) ∙ s.3,
  ap (λ h. s.0 ++ ((w.acc ++ acc_hand h) ++ s.1)) (sym eh) ∙ s.4,
)

nothing_held : (m : WsSendData) (w : World) → w.hand ≡ to_msg m → msg_hand w.hand ≡ [] → ⊥
nothing_held m w e h = let p : m ∷ [] ≡ [] = sym (ap msg_hand e) ∙ h in cc

acc_put : (m : WsSendData) (w : World) → w.hand ≡ to_acc m → (w.acc ++ m ∷ []) ++ w.live ≡ waiting w
acc_put m w eh =
    append_assoc w.acc (m ∷ []) w.live ∙ ap (λ h. w.acc ++ (acc_hand h ++ w.live)) (sym eh)

-- The loop puts a message on.
pub put-Stage :
    (lim : Limits) (snap total : List WsSendData) (h : Hand) (j : Job) (w : World)
    → w.hand ≡ h
    → Stage snap total j w
    → Holds (Stage snap total j) (act_put lim h j w)
unfolding act_put send_msg
put-Stage lim snap total free j w eh s = tt
put-Stage lim snap total (to_msg m) scanning w eh s = absurd (nothing_held m w eh (s.0).1)
put-Stage lim snap total (to_msg m) (replaying todo) w eh s = absurd (nothing_held m w eh (s.0).1)
put-Stage lim snap total (to_msg m) (flushing todo) w eh s = absurd (nothing_held m w eh (s.0).1)
put-Stage lim snap total (to_msg m) gap w eh s = absurd (nothing_held m w eh (s.1).1)
put-Stage lim snap total (to_msg m) finished w eh s = Holds-if _ (ltb (length w.msg) lim.msg) _ (
  s.0,
  s.1,
  s.2,
  moved w.sent w.msg m w.live ∙ ap (λ h. passed w ++ (msg_hand h ++ w.live)) (sym eh) ∙ s.3,
  ap (λ h. s.0 ++ ((w.acc ++ acc_hand h) ++ s.1)) (sym eh) ∙ s.4,
)
put-Stage lim snap total (to_acc m) scanning w eh s = ((s.0.0, refl), s.1, acc_put m w eh ∙ s.2)
put-Stage lim snap total (to_acc m) (replaying todo) w eh s =
    (((s.0).0, refl), s.1, acc_put m w eh ∙ s.2)
put-Stage lim snap total (to_acc m) (flushing todo) w eh s = tt
put-Stage lim snap total (to_acc m) gap w eh s =
    (s.0, ((s.1).0, refl), s.2, ap (λ l. s.0 ++ l) (acc_put m w eh) ∙ s.3)
put-Stage lim snap total (to_acc m) finished w eh s = (
  s.0,
  s.1,
  s.2,
  ap (λ h. passed w ++ (msg_hand h ++ w.live)) (sym eh) ∙ s.3,
  ap (λ l. s.0 ++ (l ++ s.1)) (append-nil (w.acc ++ m ∷ []))
      ∙ ap (λ h. s.0 ++ ((w.acc ++ acc_hand h) ++ s.1)) (sym eh)
      ∙ s.4,
)

spawned :
    (m : WsSendData) (ms : List WsSendData) (w : World)
    → w.msg ≡ m ∷ ms
    → (w.sent ++ m ∷ []) ++ ms ≡ passed w
spawned m ms w em = append_assoc w.sent (m ∷ []) ms ∙ ap (λ l. w.sent ++ l) (sym em)

-- A message is on its way to the client.
pub spawn-Stage :
    (snap total : List WsSendData) (j : Job) (h : Hand) (ms : List WsSendData) (w : World)
    → w.msg ≡ ms
    → Stage snap total j w
    → Holds (Stage snap total j) (act_spawn h ms w)
unfolding act_spawn
spawn-Stage snap total j (to_msg x) ms w em s = tt
spawn-Stage snap total j (to_acc x) ms w em s = tt
spawn-Stage snap total j free [] w em s = tt
spawn-Stage snap total scanning free (m ∷ ms) w em s = (s.0, spawned m ms w em ∙ s.1, s.2)
spawn-Stage snap total (replaying todo) free (m ∷ ms) w em s =
    (s.0, ap (λ l. l ++ todo) (spawned m ms w em) ∙ s.1, s.2)
spawn-Stage snap total (flushing todo) free (m ∷ ms) w em s =
    (s.0, ap (λ l. l ++ todo) (spawned m ms w em) ∙ s.1, s.2)
spawn-Stage snap total gap free (m ∷ ms) w em s = (s.0, s.1, spawned m ms w em ∙ s.2, s.3)
spawn-Stage snap total finished free (m ∷ ms) w em s =
    (s.0, s.1, s.2, ap (λ l. l ++ (msg_hand w.hand ++ w.live)) (spawned m ms w em) ∙ s.3, s.4)

-- The loop does not change the job.
pub take-job :
    (snap total : List WsSendData) (h : Hand) (ms : List WsSendData) (w : World)
    → Holds (Stage snap total w.job) (act_take h ms w)
    → Holds (Staged snap total) (act_take h ms w)
unfolding act_take
take-job snap total free (m ∷ ms) w = λ s. s
take-job snap total h ms w = λ s. tt

pub put-job :
    (lim : Limits) (snap total : List WsSendData) (h : Hand) (j : Job) (w : World)
    → Holds (Stage snap total w.job) (act_put lim h j w)
    → Holds (Staged snap total) (act_put lim h j w)
unfolding act_put send_msg
put-job lim snap total free j w = λ s. s
put-job lim snap total (to_msg m) j w = elim (Bool-cases (ltb (length w.msg) lim.msg)) [
  | inl e ↦ rw e (λ s. s)
  | inr e ↦ rw e (λ s. s)
]
put-job lim snap total (to_acc m) (flushing ms) w = λ s. s
put-job lim snap total (to_acc m) j w = λ s. s

pub spawn-job :
    (snap total : List WsSendData) (h : Hand) (ms : List WsSendData) (w : World)
    → Holds (Stage snap total w.job) (act_spawn h ms w)
    → Holds (Staged snap total) (act_spawn h ms w)
unfolding act_spawn
spawn-job snap total free (m ∷ ms) w = λ s. s
spawn-job snap total h ms w = λ s. tt
