-- ===== src/Monitor/Frames.antt =====
-- What goes over the socket of core/qmon.go, while its two senders take turns, and when they do not.
use gobinace_qaggr_qrecv.Prelude.{
  ℤ, pos, ltb_ℤ, String, Bool, true, false, Option, none, some, List, [], ◌∷◌, ◌++◌, if◌then◌else◌,
  ◌≡◌, refl, ap, ◌∙◌, append_assoc, ◌⊎◌, inl, inr, Option-cases,
}
use gobinace_qaggr_qrecv.Quote.Ids.{Key}
use gobinace_qaggr_qrecv.Monitor.Manager.{
  MonStatus, MonLog, MonLogEntry, MonManager, set_now, status_message, log_message, Frame, topic,
  last, Json, Holder, nobody, half_sent, asleep, World, Action, report, end_report, log, end_log,
  wake, act_report, act_end_report, act_log, act_end_log, act, run, opened, sent,
}

module _ (json : Json) (id : String) where
  -- A payload of the service.
  abbrev pub IsStatus : Key → Type 0
  IsStatus r = (s : MonStatus) × (json.of_status s ≡ some r) × (s.service_id ≡ id)

  abbrev pub IsLog : Key → Type 0
  IsLog r = (l : MonLog) × (json.of_log l ≡ some r) × (l.service_id ≡ id)

  -- The payload is of the kind that the topic says.
  abbrev pub Fits : String → Key → Type 0
  Fits t r = ((t ≡ "cc_status") × IsStatus r) ⊎ ((t ≡ "cc_log") × IsLog r)

  -- Messages of two frames each.
  abbrev pub IsPaired : List Frame → Type 0
  IsPaired [] = Unit
  IsPaired (last r ∷ fs) = ⊥
  IsPaired (topic t ∷ []) = ⊥
  IsPaired (topic t ∷ topic u ∷ fs) = ⊥
  IsPaired (topic t ∷ last r ∷ fs) = Fits t r × IsPaired fs

  IsPaired-append :
      (fs : List Frame) (t : String) (r : Key)
      → IsPaired fs
      → Fits t r
      → IsPaired (fs ++ topic t ∷ last r ∷ [])
  IsPaired-append [] t r h f = (f, tt)
  IsPaired-append (last q ∷ fs) t r h f = h
  IsPaired-append (topic u ∷ []) t r h f = absurd h
  IsPaired-append (topic u ∷ topic v ∷ fs) t r h f = h
  IsPaired-append (topic u ∷ last q ∷ fs) t r h f = (h.0, IsPaired-append fs t r h.1 f)

  -- The frames after the complete messages: none, or the topic of the sender that is at it.
  abbrev pub Ends : List Frame → Option Key → Holder → List Frame → Type 0
  Ends fs none nobody done = fs ≡ done
  Ends fs none asleep done = fs ≡ done
  Ends fs none (half_sent r d) done = (fs ≡ done ++ topic "cc_log" ∷ []) × IsLog r
  Ends fs (some r) nobody done = (fs ≡ done ++ topic "cc_status" ∷ []) × IsStatus r
  Ends fs (some r) asleep done = (fs ≡ done ++ topic "cc_status" ∷ []) × IsStatus r
  Ends fs (some r) (half_sent q d) done = ⊥

  abbrev pub IsOrderly : World → Type 0
  IsOrderly w =
      (w.manager.status.service_id ≡ id)
      × (done : List Frame) × IsPaired done
      × Ends w.wire w.reporting w.holder done

  -- No log is half sent.
  abbrev IsWhole : Holder → Type 0
  IsWhole nobody = Unit
  IsWhole asleep = Unit
  IsWhole (half_sent r d) = ⊥

  -- A sender starts while the other one is not at it, and what ends a message is sent.
  abbrev pub TakesTurn : Action → World → Type 0
  TakesTurn (report now ok) w = IsWhole w.holder
  TakesTurn (end_report ok) w = ok ≡ true
  TakesTurn (log entry delay now ok) w = w.reporting ≡ none
  TakesTurn (end_log ok) w = ok ≡ true
  TakesTurn wake w = Unit

  abbrev pub TakeTurns : List Action → World → Type 0
  TakeTurns [] w = Unit
  TakeTurns (a ∷ actions) w = TakesTurn a w × TakeTurns actions (act json a w)

  abbrev world : MonManager → Option Key → Holder → List Frame → World
  world m rep h fs = record { manager = m; reporting = rep; holder = h; wire = fs }

  from_done : (h : Holder) {fs done : List Frame} → IsWhole h → Ends fs none h done → fs ≡ done
  from_done nobody q e = e
  from_done asleep q e = e
  from_done (half_sent r d) q e = absurd q

  to_done : (h : Holder) {fs done : List Frame} → IsWhole h → fs ≡ done → Ends fs none h done
  to_done nobody q e = e
  to_done asleep q e = e
  to_done (half_sent r d) q e = absurd q

  to_half :
      (h : Holder) {fs : List Frame} (done : List Frame) {r : Key}
      → IsWhole h
      → fs ≡ done ++ topic "cc_status" ∷ []
      → IsStatus r
      → Ends fs (some r) h done
  to_half nobody done q e f = (e, f)
  to_half asleep done q e f = (e, f)
  to_half (half_sent r d) done q e f = absurd q

  from_half :
      (h : Holder) {fs : List Frame} (done : List Frame) {r : Key}
      → Ends fs (some r) h done
      → IsWhole h × (fs ≡ done ++ topic "cc_status" ∷ []) × IsStatus r
  from_half nobody done e = (tt, e.0, e.1)
  from_half asleep done e = (tt, e.0, e.1)
  from_half (half_sent r d) done e = absurd e

  -- The frames once the end of a message is sent.
  finished :
      {fs : List Frame} (done : List Frame) (t : String) (r : Key)
      → fs ≡ done ++ topic t ∷ []
      → fs ++ last r ∷ [] ≡ done ++ topic t ∷ last r ∷ []
  finished done t r e =
      ap (λ l. l ++ last r ∷ []) e ∙ append_assoc done (topic t ∷ []) (last r ∷ [])

  starts_status :
      (now : ℤ) (ok : Bool) (m : MonManager) (h : Holder) (fs : List Frame)
      → IsWhole h
      → IsOrderly (world m none h fs)
      → IsOrderly (act_report json now ok none (world m none h fs))
  unfolding act_report
  starts_status now ok m h fs q (i, done, p, e) =
      elim (Option-cases (json.of_status (status_message (set_now now m)))) [
        | inl n ↦ rw (n, act_report) (i, done, p, e)
        | inr (r, g) ↦ rw (g, act_report) (go ok r g)
      ]
    where
      go :
          (ok : Bool) (r : Key)
          → json.of_status (status_message (set_now now m)) ≡ some r
          → IsOrderly (
              sent ok
                (topic "cc_status")
                (world (set_now now m) (if ok then some r else none) h fs))
      go true r g = (
        i,
        done,
        p,
        to_half h done q (ap (λ l. l ++ topic "cc_status" ∷ []) (from_done h q e)) (_, g, i),
      )
      go false r g = (i, done, p, e)

  starts_log :
      (entry : MonLogEntry) (delay now : ℤ) (ok : Bool) (m : MonManager) (fs : List Frame)
      → IsOrderly (world m none nobody fs)
      → IsOrderly (act_log json entry delay now ok nobody (world m none nobody fs))
  unfolding act_log
  starts_log entry delay now ok m fs (i, done, p, e) =
      elim (Option-cases (json.of_log (log_message entry (set_now now m)))) [
        | inl n ↦ rw (n, act_log) (i, done, p, e)
        | inr (r, g) ↦ rw (g, act_log) (go ok r g)
      ]
    where
      go :
          (ok : Bool) (r : Key)
          → json.of_log (log_message entry (set_now now m)) ≡ some r
          → IsOrderly (
              sent ok
                (topic "cc_log")
                (world (set_now now m) none (if ok then half_sent r delay else nobody) fs))
      go true r g = (i, done, p, (ap (λ l. l ++ topic "cc_log" ∷ []) e, (_, g, i)))
      go false r g = (i, done, p, e)

  ends_status :
      (ok : Bool) (m : MonManager) (r : Key) (h : Holder) (fs : List Frame)
      → ok ≡ true
      → IsOrderly (world m (some r) h fs)
      → IsOrderly (act_end_report json ok (some r) (world m (some r) h fs))
  unfolding act_end_report
  ends_status false m r h fs t o = cc
  ends_status true m r h fs t (i, done, p, e) =
      let (q, g, f) = from_half h done e in
      (
        i,
        done ++ topic "cc_status" ∷ last r ∷ [],
        IsPaired-append done "cc_status" r p (inl (refl, f)),
        to_done h q (finished done "cc_status" r g),
      )

  ends_log :
      (ok : Bool) (m : MonManager) (rep : Option Key) (r : Key) (d : ℤ) (fs : List Frame)
      → ok ≡ true
      → IsOrderly (world m rep (half_sent r d) fs)
      → IsOrderly (act_end_log json ok (half_sent r d) (world m rep (half_sent r d) fs))
  unfolding act_end_log
  ends_log false m rep r d fs t o = cc
  ends_log true m (some s) r d fs t (i, done, p, e) = absurd e
  ends_log true m none r d fs t (i, done, p, e) = (
    i,
    done ++ topic "cc_log" ∷ last r ∷ [],
    IsPaired-append done "cc_log" r p (inr (refl, e.1)),
    to_done (if ltb_ℤ (pos 0) d then asleep else nobody) (rests (ltb_ℤ (pos 0) d))
        (finished done "cc_log" r e.0),
  )
    where
      rests : (b : Bool) → IsWhole (if b then asleep else nobody)
      rests true = tt
      rests false = tt

  act-IsOrderly :
      (a : Action) (m : MonManager) (rep : Option Key) (h : Holder) (fs : List Frame)
      → TakesTurn a (world m rep h fs)
      → IsOrderly (world m rep h fs)
      → IsOrderly (act json a (world m rep h fs))
  unfolding act
  act-IsOrderly (report now ok) m none h fs t o = starts_status now ok m h fs t o
  act-IsOrderly (report now ok) m (some r) h fs t o = o
  act-IsOrderly (end_report ok) m none h fs t o = o
  act-IsOrderly (end_report ok) m (some r) h fs t o = ends_status ok m r h fs t o
  act-IsOrderly (log entry delay now ok) m none nobody fs t o = starts_log entry delay now ok m fs o
  act-IsOrderly (log entry delay now ok) m (some r) nobody fs t o = cc
  act-IsOrderly (log entry delay now ok) m rep (half_sent r d) fs t o = o
  act-IsOrderly (log entry delay now ok) m rep asleep fs t o = o
  act-IsOrderly (end_log ok) m rep nobody fs t o = o
  act-IsOrderly (end_log ok) m rep asleep fs t o = o
  act-IsOrderly (end_log ok) m rep (half_sent r d) fs t o = ends_log ok m rep r d fs t o
  act-IsOrderly wake m rep nobody fs t o = o
  act-IsOrderly wake m rep (half_sent r d) fs t o = o
  act-IsOrderly wake m none asleep fs t o = o
  act-IsOrderly wake m (some r) asleep fs t o = o

  run-keeps :
      (actions : List Action) (w : World)
      → TakeTurns actions w
      → IsOrderly w
      → IsOrderly (run json actions w)
  unfolding run
  run-keeps [] w t o = o
  run-keeps (a ∷ actions) w t o =
      run-keeps actions (act json a w) t.1
        (act-IsOrderly a w.manager w.reporting w.holder w.wire t.0 o)

-- While neither sender starts in the midst of the other's message, and each end of a message is sent:
-- what the socket was sent is a sequence of messages of two frames, and at most the topic of one more.
-- Each has a topic, and its payload encodes a status or a log entry as the topic says, and has the id
-- of the service. Encoding may fail, and entries may come while the mutex is held.
pub run-IsOrderly :
    (json : Json) (m : MonManager) (actions : List Action)
    → TakeTurns json m.status.service_id actions (opened m)
    → IsOrderly json m.status.service_id (run json actions (opened m))
unfolding opened
run-IsOrderly json m actions t =
    run-keeps json m.status.service_id actions (opened m) t (refl, [], tt, refl)
