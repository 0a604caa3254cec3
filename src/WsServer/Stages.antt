-- ===== src/WsServer/Stages.antt =====
-- The stages of a client of wsserver.go, and what holds of its channels in each of them, through the
-- steps of the replaying goroutine and of the server.
use gobinace_qaggr_qrecv.Prelude.{
  ltb, ◌==◌, Bool-cases, inl, inr, Bool, true, false, Option, none, some, List, [], ◌∷◌, ◌++◌,
  length, if◌then◌else◌, ◌≡◌, refl, sym, ap, ◌∙◌, append_assoc, append-nil,
}
use gobinace_qaggr_qrecv.WsServer.Data.{WsSendData, push_queue}
use gobinace_qaggr_qrecv.WsServer.Client.{
  Hand, free, to_msg, to_acc, Job, scanning, replaying, flushing, gap, finished, World, Limits,
  Action, enqueue, scan, replay, lock, flush, unlock, sync, replayable, send_msg, post_msg, act_job,
  act,
}

-- The messages that a sequence of actions enqueues.
abbrev pub grown : Action → List WsSendData → List WsSendData
grown (enqueue m) ms = ms ++ m ∷ []
grown a ms = ms

abbrev pub enqueued : List Action → List WsSendData → List WsSendData
enqueued [] ms = ms
enqueued (a ∷ actions) ms = enqueued actions (grown a ms)

-- The messages of the queue that the replay is about: those from the start on, when it is read.
abbrev pub snap_after : Limits → Action → World → List WsSendData → List WsSendData
snap_after lim scan w snap = replayable lim.start w.queue
snap_after lim a w snap = snap

abbrev pub snap_of : Limits → List Action → World → List WsSendData → List WsSendData
snap_of lim [] w snap = snap
snap_of lim (a ∷ actions) w snap = elim (act lim a w) [
  | none ↦ snap
  | some v ↦ snap_of lim actions v (snap_after lim a w snap)
]

-- What is in hand, by where it goes.
abbrev pub msg_hand : Hand → List WsSendData
msg_hand free = []
msg_hand (to_msg m) = m ∷ []
msg_hand (to_acc m) = []

abbrev pub acc_hand : Hand → List WsSendData
acc_hand free = []
acc_hand (to_msg m) = []
acc_hand (to_acc m) = m ∷ []

-- What has been put on msgCh so far, and what has been enqueued and not.
abbrev pub passed : World → List WsSendData
passed w = w.sent ++ w.msg

abbrev pub waiting : World → List WsSendData
waiting w = w.acc ++ (acc_hand w.hand ++ w.live)

-- Before the replay is over nothing that is enqueued overtakes it.
abbrev pub Holding : World → Type 0
Holding w = (w.pre_sync_ok ≡ false) × (msg_hand w.hand ≡ [])

abbrev pub Stage : List WsSendData → List WsSendData → Job → World → Type 0
Stage snap total scanning w = Holding w × (passed w ≡ []) × (waiting w ≡ total)
Stage snap total (replaying todo) w = Holding w × (passed w ++ todo ≡ snap) × (waiting w ≡ total)
Stage snap total (flushing todo) w =
    Holding w × (passed w ++ todo ≡ snap ++ w.acc) × (waiting w ≡ total)
Stage snap total gap w =
    (flushed : List WsSendData) × Holding w
    × (passed w ≡ snap ++ flushed)
    × (flushed ++ waiting w ≡ total)
Stage snap total finished w =
    (flushed later : List WsSendData) × (w.pre_sync_ok ≡ true)
    × (passed w ++ (msg_hand w.hand ++ w.live) ≡ snap ++ (flushed ++ later))
    × (flushed ++ ((w.acc ++ acc_hand w.hand) ++ later) ≡ total)

abbrev pub Holds : (World → Type 0) → Option World → Type 0
Holds P none = Unit
Holds P (some w) = P w

pub Holds-if :
    (P : World → Type 0) (b : Bool) (w : World) → P w → Holds P (if b then some w else none)
Holds-if P true w p = p
Holds-if P false w p = tt

-- One message moves from the list of those to send to msgCh.
pub moved :
    (xs ys : List WsSendData) (m : WsSendData) (ms : List WsSendData)
    → (xs ++ (ys ++ m ∷ [])) ++ ms ≡ (xs ++ ys) ++ m ∷ ms
moved xs ys m ms = simp append_assoc refl

handed :
    (xs ys : List WsSendData) (m : WsSendData) (ms : List WsSendData)
    → ys ≡ []
    → ((xs ++ m ∷ []) ++ ys) ++ ms ≡ (xs ++ ys) ++ m ∷ ms
handed xs ys m ms e = rw e (simp (append_assoc, append-nil) refl)

-- A message of the replaying goroutine, from hand to hand or into msgCh.
pub post_msg-Holds :
    (P : World → Type 0) (lim : Limits) (h : Hand) (ms : List WsSendData) (m : WsSendData)
    (w : World)
    → (ms ≡ [] → P (record w { sent = w.sent ++ m ∷ [] }))
    → P (record w { msg = w.msg ++ m ∷ [] })
    → Holds P (post_msg lim h ms m w)
unfolding post_msg send_msg
post_msg-Holds P lim free [] m w p q = elim (Bool-cases (lim.msg == 0)) [
  | inl e ↦ rw e (p refl)
  | inr e ↦ rw e (Holds-if P (ltb (length w.msg) lim.msg) _ q)
]
post_msg-Holds P lim h ms m w p q = Holds-if P (ltb (length w.msg) lim.msg) _ q

-- The replaying goroutine.
pub act_job-Stage :
    (lim : Limits) (snap total : List WsSendData) (a : Action) (j : Job) (w : World)
    → Stage snap total j w
    → Holds (λ v. Stage (snap_after lim a w snap) total v.job v) (act_job lim a j w)
unfolding act_job
act_job-Stage lim snap total scan scanning w s =
    (s.0, ap (λ l. l ++ replayable lim.start w.queue) s.1, s.2)
act_job-Stage lim snap total replay (replaying (m ∷ ms)) w s =
    post_msg-Holds _ lim w.hand w.msg m _ (λ e. (s.0, handed w.sent w.msg m ms e ∙ s.1, s.2))
      (s.0, moved w.sent w.msg m ms ∙ s.1, s.2)
act_job-Stage lim snap total lock (replaying []) w s =
    (s.0, ap (λ l. l ++ w.acc) (sym (append-nil (passed w)) ∙ s.1), s.2)
act_job-Stage lim snap total flush (flushing (m ∷ ms)) w s =
    post_msg-Holds _ lim w.hand w.msg m _ (λ e. (s.0, handed w.sent w.msg m ms e ∙ s.1, s.2))
      (s.0, moved w.sent w.msg m ms ∙ s.1, s.2)
act_job-Stage lim snap total unlock (flushing []) w s =
    (w.acc, s.0, sym (append-nil (passed w)) ∙ s.1, s.2)
act_job-Stage lim snap total sync gap w s = (
  s.0,
  w.live,
  refl,
  ap (λ l. passed w ++ (l ++ w.live)) (s.1).1
      ∙ ap (λ l. l ++ w.live) s.2
      ∙ append_assoc snap s.0 w.live,
  ap (λ l. s.0 ++ l) (append_assoc w.acc (acc_hand w.hand) w.live) ∙ s.3,
)
act_job-Stage lim snap total a j w s = tt

-- A message put on at the end of what is put together from parts.
snoc_three :
    (a b c : List WsSendData) (m : WsSendData) {t : List WsSendData}
    → a ++ (b ++ c) ≡ t
    → a ++ (b ++ (c ++ m ∷ [])) ≡ t ++ m ∷ []
snoc_three a b c m e = simp append_assoc refl ∙ ap (λ l. l ++ m ∷ []) e

snoc_four :
    (a b c d : List WsSendData) (m : WsSendData) {t : List WsSendData}
    → a ++ (b ++ (c ++ d)) ≡ t
    → a ++ (b ++ (c ++ (d ++ m ∷ []))) ≡ t ++ m ∷ []
snoc_four a b c d m e = simp append_assoc refl ∙ ap (λ l. l ++ m ∷ []) e

-- What is enqueued.
pub enqueue-Stage :
    (lim : Limits) (snap total : List WsSendData) (m : WsSendData) (j : Job) (w : World)
    → Stage snap total j w
    → Stage snap
        (total ++ m ∷ [])
        j
        (record w { queue = push_queue lim.queue m w.queue; live = w.live ++ m ∷ [] })
enqueue-Stage lim snap total m scanning w s =
    (s.0, s.1, snoc_three w.acc (acc_hand w.hand) w.live m s.2)
enqueue-Stage lim snap total m (replaying todo) w s =
    (s.0, s.1, snoc_three w.acc (acc_hand w.hand) w.live m s.2)
enqueue-Stage lim snap total m (flushing todo) w s =
    (s.0, s.1, snoc_three w.acc (acc_hand w.hand) w.live m s.2)
enqueue-Stage lim snap total m gap w s =
    (s.0, s.1, s.2, snoc_four s.0 w.acc (acc_hand w.hand) w.live m s.3)
enqueue-Stage lim snap total m finished w s = (
  s.0,
  s.1 ++ m ∷ [],
  s.2,
  snoc_three (passed w) (msg_hand w.hand) w.live m s.3 ∙ simp append_assoc refl,
  snoc_three s.0 (w.acc ++ acc_hand w.hand) s.1 m s.4,
)

abbrev pub Staged : List WsSendData → List WsSendData → World → Type 0
Staged snap total w = Stage snap total w.job w
