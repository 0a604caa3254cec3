-- ===== src/Monitor/Samples.antt =====
-- The service monitor at concrete inputs.
use gobinace_qaggr_qrecv.Prelude.{pos, true, some, List, [], ◌∷◌, ◌≡◌, refl}
use gobinace_qaggr_qrecv.Monitor.Manager.{
  MonConfig, MonLogEntry, MonManager, Json, Action, report, end_report, log, end_log, wake, topic,
  last, new_mon_manager, set_service_id, set_service_type, set_version, set_ip, set_pid, set_start,
  set_auth_key, init, status_message, run, opened, act,
}
use gobinace_qaggr_qrecv.Monitor.Frames.{run-IsOrderly, IsOrderly}

abbrev sample_json : Json
sample_json = record { of_status = λ s. some (b'S' ∷ []); of_log = λ l. some (b'L' ∷ []) }

abbrev settings : MonConfig
settings = record {
  enable = true;
  report_dest = "tcp://1";
  report_interval = pos 5;
  auth_key = "k";
}

unfoldable manager : MonManager
unfolding new_mon_manager set_service_id set_service_type set_version set_ip init
manager =
    (init (pos 100) (pos 7) true (
      set_ip "10.0.0.1" (
        set_version "1"
          (set_service_id "qas" (set_service_type "aggr" (new_mon_manager settings)))))).0

abbrev entry : MonLogEntry
entry = record { level = "WARN"; category = "PeriodCollect"; action = "EmptyQuote"; detail = "" }

-- The second entry comes during the delay of the first one.
abbrev turns : List Action
turns =
    report (pos 100) true
    ∷ end_report true
    ∷ log entry (pos 5) (pos 101) true
    ∷ end_log true
    ∷ log entry (pos 5) (pos 102) true
    ∷ wake
    ∷ log entry (pos 0) (pos 106) true
    ∷ []

run-IsOrderly_example :
    IsOrderly sample_json manager.status.service_id (run sample_json turns (opened manager))
unfolding manager act opened
run-IsOrderly_example =
    run-IsOrderly sample_json manager turns (tt, (refl, (refl, (refl, (refl, (tt, (refl, tt)))))))

run-turns :
    (run sample_json turns (opened manager)).wire
    ≡ topic "cc_status" ∷ last (b'S' ∷ []) ∷ topic "cc_log" ∷ last (b'L' ∷ []) ∷ topic "cc_log" ∷ []
unfolding manager run opened act
run-turns = refl

-- SendStatus takes no mutex: a log entry between its two frames.
run-mixed :
    (run sample_json
      (report (pos 1) true ∷ log entry (pos 5) (pos 2) true ∷ end_report true ∷ end_log true ∷ [])
      (opened manager)).wire
    ≡ topic "cc_status" ∷ topic "cc_log" ∷ last (b'S' ∷ []) ∷ last (b'L' ∷ []) ∷ []
unfolding manager run opened act
run-mixed = refl

manager-status : (status_message manager).auth_key ≡ "k"
unfolding manager set_auth_key set_pid set_start status_message
manager-status = refl
