-- ===== src/Shared.antt =====
-- What the processes of the simulation share: the six shared memory segments, the semaphore set
-- and the message queue (structures of src/headers/commons.h). `mailbox` is the message queue,
-- oldest message first.
pub mod Soundness
pub mod Tests
use operative_system_project.Prelude.{
  Bool, ℕ, List, Option, none, ◌∷◌, if◌then◌else◌, some, [], get_or,
}
use operative_system_project.Prelude.Int.{ℤ, pos, ◌==ℤ◌, pos_part}
use operative_system_project.Commons.{
  SimulationParameter, Counter, WorkerInfo, UserInfo, DirectorMessage, TicketMessage,
  UserReplyMessage,
}
use operative_system_project.Stats.{SimulationStats}
use operative_system_project.Queue.{ServiceQueue}

-- A message of one of the three kinds that the program sends.
pub data Message : Type 0 where
  to_director : DirectorMessage → Message
  ticket_request : TicketMessage → Message
  user_reply : UserReplyMessage → Message

-- The type by which msgrcv selects.
unfoldable pub mtype_of : Message → ℤ
mtype_of (to_director m) = pos m.mtype
mtype_of (ticket_request m) = pos m.mtype
mtype_of (user_reply m) = m.mtype

-- The oldest message of a type, and the queue without it.
unfoldable pub take_message : ℤ → List Message → Option (Message × List Message)
take_message t [] = none
take_message t (m ∷ ms) =
    if mtype_of m ==ℤ t
    then some (m, ms)
    else elim (take_message t ms) [ none ↦ none | some (n, rest) ↦ some (n, m ∷ rest) ]

pub record Shared (D : Type 0) : Type 0 where
  pub config : SimulationParameter
  pub counters : List Counter
  pub workers : List WorkerInfo
  pub users : List UserInfo
  pub stats : SimulationStats D
  pub queues : List ServiceQueue
  pub sems : List ℕ
  pub mailbox : List Message

-- NOF_WORKER_SEATS, which is positive when the other processes start.
abbrev pub seats : {D : Type 0} → Shared D → ℕ
seats s = pos_part s.config.nof_worker_seats

-- queues[service]. The six queues exist; what stands beyond them is never used.
abbrev pub no_queue : ServiceQueue
no_queue = record { entries = []; head = 0; tail = 0; length = 0 }

abbrev pub queue_of : {D : Type 0} → ℕ → Shared D → ServiceQueue
queue_of service s = get_or s.queues service no_queue

-- What stands beyond the ends of workers, counters and users is never used.
abbrev pub no_worker : WorkerInfo
no_worker = record {
  pid = pos 0;
  service = 0;
  pauses_taken = 0;
  pauses_today = 0;
  active_today = Bool.false;
  active_ever = Bool.false;
  current_counter = pos 0;
}
