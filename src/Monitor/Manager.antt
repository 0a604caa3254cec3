-- ===== src/Monitor/Manager.antt =====
-- ServiceMonManager of core/qmon.go: its options, Init, and the two senders, SendStatus and SendLog. A
-- sender is cut at its first frame, since the other one may send in between. The JSON encoder is an
-- interface, the answers of the socket are arguments.
use gobinace_qaggr_qrecv.Prelude.{
  ℤ, pos, ltb_ℤ, String, Bool, Option, none, some, List, [], ◌∷◌, ◌++◌, if◌then◌else◌,
}
use gobinace_qaggr_qrecv.Quote.Ids.{Key}

pub record MonConfig : Type 0 where
  pub enable : Bool
  pub report_dest : String
  pub report_interval : ℤ
  pub auth_key : String

pub record MonStatus : Type 0 where
  pub msg_type : String
  pub service_id : String
  pub service_type : String
  pub version : String
  pub ip : String
  pub pid : ℤ
  pub start : ℤ
  pub now : ℤ
  pub auth_key : String
  pub others : String

pub record MonLogEntry : Type 0 where
  pub level : String
  pub category : String
  pub action : String
  pub detail : String

pub record MonLog : Type 0 where
  pub msg_type : String
  pub service_id : String
  pub service_type : String
  pub version : String
  pub ip : String
  pub pid : ℤ
  pub start : ℤ
  pub now : ℤ
  pub auth_key : String
  pub logs : MonLogEntry

pub record MonManager : Type 0 where
  pub config : MonConfig
  pub status : MonStatus

abbrev no_status : MonStatus
no_status = record {
  msg_type = "";
  service_id = "";
  service_type = "";
  version = "";
  ip = "";
  pid = pos 0;
  start = pos 0;
  now = pos 0;
  auth_key = "";
  others = "";
}

unfoldable pub new_mon_manager : MonConfig → MonManager
new_mon_manager config = record { config = config; status = no_status }

unfoldable pub set_service_id : String → MonManager → MonManager
set_service_id id m = record m { status = record (m.status) { service_id = id } }

unfoldable pub set_service_type : String → MonManager → MonManager
set_service_type tp m = record m { status = record (m.status) { service_type = tp } }

unfoldable pub set_version : String → MonManager → MonManager
set_version v m = record m { status = record (m.status) { version = v } }

unfoldable pub set_ip : String → MonManager → MonManager
set_ip ip m = record m { status = record (m.status) { ip = ip } }

unfoldable pub set_pid : ℤ → MonManager → MonManager
set_pid pid m = record m { status = record (m.status) { pid = pid } }

unfoldable pub set_start : ℤ → MonManager → MonManager
set_start start m = record m { status = record (m.status) { start = start } }

unfoldable pub set_now : ℤ → MonManager → MonManager
set_now now m = record m { status = record (m.status) { now = now } }

unfoldable pub set_auth_key : String → MonManager → MonManager
set_auth_key key m = record m { status = record (m.status) { auth_key = key } }

-- Init, with the clock, the process and whether the socket connects; the second part is the absence of
-- an error.
unfoldable pub init : ℤ → ℤ → Bool → MonManager → MonManager × Bool
unfolding set_start set_pid set_auth_key
init now pid connects m = (set_auth_key m.config.auth_key (set_pid pid (set_start now m)), connects)

-- What SendStatus and SendLog make, at `now`.
unfoldable pub status_message : MonManager → MonStatus
status_message m = record (m.status) { msg_type = "cc_status"; others = "" }

unfoldable pub log_message : MonLogEntry → MonManager → MonLog
log_message entry m = record {
  msg_type = "cc_log";
  service_id = m.status.service_id;
  service_type = m.status.service_type;
  version = m.status.version;
  ip = m.status.ip;
  pid = m.status.pid;
  start = m.status.start;
  now = m.status.now;
  auth_key = m.status.auth_key;
  logs = entry;
}

-- What a socket is sent: a topic, with more to follow, or the end of a message.
pub data Frame : Type 0 where
  topic : String → Frame
  last : Key → Frame

-- json.Marshal; `none` is an error.
pub record Json : Type 0 where
  pub of_status : MonStatus → Option Key
  pub of_log : MonLog → Option Key

-- The mutex: free, held by a goroutine of SendLog that has sent its topic, with the rest and the delay,
-- or by one that waits for the delay to pass.
pub data Holder : Type 0 where
  nobody : Holder
  half_sent : Key → ℤ → Holder
  asleep : Holder

-- `reporting` is what SendStatus has still to send.
pub record World : Type 0 where
  pub manager : MonManager
  pub reporting : Option Key
  pub holder : Holder
  pub wire : List Frame

-- The two parts of each sender, with the answers of the socket (true if the frame is sent), and the
-- end of a delay.
pub data Action : Type 0 where
  report : ℤ → Bool → Action
  end_report : Bool → Action
  log : MonLogEntry → ℤ → ℤ → Bool → Action
  end_log : Bool → Action
  wake : Action

unfoldable pub sent : Bool → Frame → World → World
sent ok f w = if ok then record w { wire = w.wire ++ f ∷ [] } else w

module _ (json : Json) where
  -- SendStatus up to its first frame; the timer does not call it while a call has not returned.
  unfoldable pub act_report : ℤ → Bool → Option Key → World → World
  unfolding set_now status_message sent
  act_report now ok (some r) w = w
  act_report now ok none w =
      let m = set_now now w.manager in
      elim (json.of_status (status_message m)) [
        | none ↦ record w { manager = m }
        | some r ↦
            sent ok (topic "cc_status")
              (record w { manager = m; reporting = if ok then some r else none })
      ]

  unfoldable pub act_end_report : Bool → Option Key → World → World
  unfolding sent
  act_end_report ok none w = w
  act_end_report ok (some r) w = sent ok (last r) (record w { reporting = none })

  -- SendLog up to its first frame; where TryLock fails the entry is dropped.
  unfoldable pub act_log : MonLogEntry → ℤ → ℤ → Bool → Holder → World → World
  unfolding set_now log_message sent
  act_log entry delay now ok nobody w =
      let m = set_now now w.manager in
      elim (json.of_log (log_message entry m)) [
        | none ↦ record w { manager = m }
        | some r ↦
            sent ok (topic "cc_log")
              (record w { manager = m; holder = if ok then half_sent r delay else nobody })
      ]
  act_log entry delay now ok (half_sent r d) w = w
  act_log entry delay now ok asleep w = w

  unfoldable pub act_end_log : Bool → Holder → World → World
  unfolding sent
  act_end_log ok (half_sent r delay) w =
      sent ok (last r) (record w {
        holder = if ok then if ltb_ℤ (pos 0) delay then asleep else nobody else nobody;
      })
  act_end_log ok nobody w = w
  act_end_log ok asleep w = w

  unfoldable pub act_wake : Holder → World → World
  act_wake asleep w = record w { holder = nobody }
  act_wake nobody w = w
  act_wake (half_sent r d) w = w

  unfoldable pub act : Action → World → World
  unfolding act_report act_end_report act_log act_end_log act_wake
  act (report now ok) w = act_report now ok w.reporting w
  act (end_report ok) w = act_end_report ok w.reporting w
  act (log entry delay now ok) w = act_log entry delay now ok w.holder w
  act (end_log ok) w = act_end_log ok w.holder w
  act wake w = act_wake w.holder w

  unfoldable pub run : List Action → World → World
  unfolding act
  run [] w = w
  run (a ∷ actions) w = run actions (act a w)

unfoldable pub opened : MonManager → World
opened m = record { manager = m; reporting = none; holder = nobody; wire = [] }
