-- ===== src/Commons.antt =====
-- src/headers/commons.h: the constants, the structures that live in shared memory or in the
-- message queue, and the small functions on them (the service queue is in Queue.antt).
-- The double sums of the statistics have an abstract type `D` with the operations that the code
-- applies to them. Counters of type long only ever grow by one, and are numbers here.
pub mod Semaphores
pub mod Time
mod Tests
use operative_system_project.Prelude.{ℕ, ◌+◌, ◌*◌, Bool, List, [], ◌∷◌, if◌then◌else◌, map}
use operative_system_project.Prelude.Int.{ℤ, pos, ltb_ℤ}

abbrev pub service_count : ℕ
service_count = 6

abbrev pub workday_minutes : ℕ
workday_minutes = 480

abbrev pub director_mtype : ℕ
director_mtype = 1

abbrev pub ticket_request_mtype : ℕ
ticket_request_mtype = 2

abbrev pub user_reply_base : ℕ
user_reply_base = 100000

-- enum director_message_kind
pub data DirectorMessageKind : Type 0 where
  init day_finished : DirectorMessageKind

-- enum user_reply_status
pub data UserReplyStatus : Type 0 where
  served not_served : UserReplyStatus

-- enum termination_cause
pub data TerminationCause : Type 0 where
  running timeout explode : TerminationCause

-- counter
pub record Counter : Type 0 where
  pub counter_id : ℕ
  pub service : ℤ
  pub worker_pid : ℤ

-- worker_info
pub record WorkerInfo : Type 0 where
  pub pid : ℤ
  pub service : ℕ
  pub pauses_taken : ℕ
  pub pauses_today : ℕ
  pub active_today : Bool
  pub active_ever : Bool
  pub current_counter : ℤ

-- user_info
pub record UserInfo : Type 0 where
  pub pid : ℤ
  pub go_probability : ℤ

-- simulation_parameter, as the configuration file gives it: any int
pub record SimulationParameter : Type 0 where
  pub nof_worker_seats : ℤ
  pub nof_workers : ℤ
  pub nof_users : ℤ
  pub nof_pause : ℤ
  pub p_serv_min : ℤ
  pub p_serv_max : ℤ
  pub sim_duration : ℤ
  pub n_nano_seconds : ℤ
  pub explode_threshold : ℤ
  pub current_day : ℕ
  pub day_active : Bool
  pub termination_cause : TerminationCause

-- director_message
pub record DirectorMessage : Type 0 where
  pub mtype : ℕ
  pub kind : DirectorMessageKind
  pub index : ℤ
  pub pid : ℤ

-- ticket_message
pub record TicketMessage : Type 0 where
  pub mtype : ℕ
  pub user_index : ℤ
  pub user_pid : ℤ
  pub service : ℤ

-- user_reply_message
pub record UserReplyMessage : Type 0 where
  pub mtype : ℤ
  pub status : UserReplyStatus
  pub service : ℕ

-- service_mean_minutes
abbrev pub service_mean_minutes : List ℕ
service_mean_minutes = 8 ∷ 8 ∷ 6 ∷ 8 ∷ 20 ∷ 20 ∷ []

-- clamp_percentage
unfoldable pub clamp_percentage : ℤ → ℤ
clamp_percentage value =
    if ltb_ℤ value (pos 0) then pos 0 else if ltb_ℤ (pos 100) value then pos 100 else value
