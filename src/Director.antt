-- ===== src/Director.antt =====
-- src/director.c from the initialization of the others on: the days of the simulation. The
-- configuration is in Config. What rand returns is an argument. A kill shows only in the log: when
-- the signal arrives at another process is up to that process's script. `workers` and `users` have
-- NOF_WORKERS and NOF_USERS entries.
pub mod Safety
pub mod Days
pub mod Start
pub mod Flush
pub mod Interruption
pub mod Assign
pub mod Ipc
pub mod Children
pub mod Report
mod Tests
use operative_system_project.Prelude.{
  ℕ, ◌%◌, ◌+◌, Bool, true, false, List, [], ◌∷◌, if◌then◌else◌, get_or, set, modify, map, replicate,
  zero, suc, ltb, length, leb, ◌==◌,
}
use operative_system_project.Prelude.Int.{ℤ, pos, negsuc, ltb_ℤ, leb_ℤ, ◌+ℤ◌}
use operative_system_project.Process.{
  stopped, failed, Signal, Proc, require, retry, peek, Answer, commit, ret, blocked, ◌>>=◌, raise,
  lower, wrote, send, exit_failure, signalled, ◌>>◌, popped, counted,
}
use operative_system_project.Queue
use operative_system_project.Commons.{WorkerInfo, UserReplyStatus, service_count, user_reply_base}
use operative_system_project.Queue.{QueueTicket}
use operative_system_project.Commons.Semaphores.{
  counter_mutex_sem, stats_mutex_sem, service_jobs_sem, service_queue_mutex_sem,
  service_free_counter_sem,
}
use operative_system_project.Shared.{queue_of, seats, user_reply}
use operative_system_project.Stats.{count_not_served, refuses}

-- The static variable that the signal handler sets.
pub record Flags : Type 0 where
  pub shutdown_requested : Bool

-- handle_director_signal
unfoldable pub handle_director_signal : Signal → Flags → Flags
handle_director_signal _ f = record { shutdown_requested = true }

-- reset_workers_day_state, for one worker
unfoldable pub reset_worker : WorkerInfo → WorkerInfo
reset_worker w = record w { active_today = false; pauses_today = 0; current_counter = negsuc 0 }

-- The receivers of a signal among the processes with the given ids.
unfoldable pub live : List ℤ → List ℤ
live [] = []
live (pid ∷ pids) = if ltb_ℤ (pos 0) pid then pid ∷ live pids else live pids

module _ {D : Type 0} where
  -- set_sem_value
  unfoldable pub set_sem_value : ℕ → ℕ → Proc Flags D (Unit {0})
  set_sem_value sem_num value = peek >>= λ s.
      if ltb sem_num (length s.sems)
      then commit (λ s'. record s' { sems = set s'.sems sem_num value }) wrote
      else exit_failure

  -- sem_op_retry, with +1 and with -1; `stopped` and `failed` are both the result -1.
  unfoldable pub sem_up : ℕ → Proc Flags D (Answer (Unit {0}))
  sem_up n = retry handle_director_signal (λ f. f.shutdown_requested) (raise n)

  unfoldable pub sem_down : ℕ → Proc Flags D (Answer (Unit {0}))
  sem_down n = retry handle_director_signal (λ f. f.shutdown_requested) (lower n)

  unfoldable pub lock_stats : Proc Flags D (Unit {0})
  lock_stats = do s ← peek; require (sem_down (stats_mutex_sem (seats s)))

  unfoldable pub unlock_stats : Proc Flags D (Unit {0})
  unlock_stats = do s ← peek; require (sem_up (stats_mutex_sem (seats s)))

  -- reset_workers_day_state
  unfoldable pub reset_workers_day_state : Proc Flags D (Unit {0})
  reset_workers_day_state = commit (λ s. record s { workers = map reset_worker s.workers }) wrote

  -- send_signal_to_users and send_signal_to_workers
  unfoldable pub send_signal_to_users : Signal → Proc Flags D (Unit {0})
  send_signal_to_users sig = do
    s ← peek
    commit (λ s'. s') (signalled sig (live (map (λ u. u.pid) s.users)))

  unfoldable pub send_signal_to_workers : Signal → Proc Flags D (Unit {0})
  send_signal_to_workers sig = do
    s ← peek
    commit (λ s'. s') (signalled sig (live (map (λ u. u.pid) s.workers)))

  -- The first loop of assign_daily_counters, from counter `i` on.
  unfoldable pub assign_counters : (ℕ → ℕ) → ℕ → ℕ → List ℕ → Proc Flags D (List ℕ)
  assign_counters draw i zero counts = ret counts
  assign_counters draw i (suc left) counts =
      require (sem_down (counter_mutex_sem i))
      >> (commit
            (λ s. record s {
              counters =
                  modify s.counters i (λ c. record c {
                    service = pos (draw i % service_count);
                    worker_pid = negsuc 0;
                  });
            })
            wrote
          >> (require (sem_up (counter_mutex_sem i))
              >> assign_counters draw (i + 1) left
                  (modify counts (draw i % service_count) (λ c. c + 1))))

  -- service_queue_reset on the queue of the service, in shared memory.
  unfoldable pub reset_queue : ℕ → Proc Flags D (Unit {0})
  reset_queue service =
      commit (λ s. record s { queues = set s.queues service (Queue.reset (queue_of service s)) })
        wrote

  -- The second loop, from the given service on.
  unfoldable pub open_services : List ℕ → ℕ → ℕ → Proc Flags D (Unit {0})
  open_services counts service zero = ret tt
  open_services counts service (suc left) =
      (peek >>= λ s. set_sem_value (service_jobs_sem (seats s) service) 0)
      >> ((peek >>= λ s.
            set_sem_value (service_free_counter_sem (seats s) service) (get_or counts service 0))
          >> (reset_queue service >> open_services counts (service + 1) left))

  -- assign_daily_counters: the counters that each service has got.
  unfoldable pub assign_daily_counters : (ℕ → ℕ) → Proc Flags D (List ℕ)
  assign_daily_counters draw = peek >>= λ s.
      assign_counters draw 0 (seats s) (replicate service_count 0) >>= λ counts.
      open_services counts 0 service_count >> ret counts

  -- send_user_reply
  unfoldable pub send_user_reply : ℤ → UserReplyStatus → ℕ → Proc Flags D (Unit {0})
  send_user_reply user_pid status service = require (
      retry handle_director_signal (λ _. false)
        (send (
          user_reply (record {
            mtype = pos user_reply_base +ℤ user_pid;
            status = status;
            service = service;
          }))))

  -- service_queue_pop on the queue of the service, in shared memory.
  unfoldable pub pop_ticket : ℕ → Proc Flags D QueueTicket
  pop_ticket service = do
    s ← peek
    commit (λ s'. record s' { queues = set s'.queues service (Queue.pop (queue_of service s)).1 })
        (popped service)
    ret (Queue.pop (queue_of service s)).0

  -- What flush_pending_users does for each ticket under the mutex of the statistics.
  unfoldable pub mark_not_served : ℕ → Proc Flags D (Unit {0})
  mark_not_served service = do
    lock_stats
    commit (λ s. record s { stats = count_not_served service s.stats }) (counted (refuses service))
    unlock_stats

  -- The inner loop of flush_pending_users, for at most the given number of rounds, and the tickets
  -- that it has counted so far.
  unfoldable pub flush_queue : ℕ → ℕ → ℕ → Proc Flags D ℕ
  flush_queue service zero total w = blocked w
  flush_queue service (suc rounds) total w =
      (peek >>= λ s.
      if Queue.queue_length (queue_of service s) == 0
      then ret total
      else (pop_ticket service >>= λ ticket.
          send_user_reply ticket.user_pid UserReplyStatus.not_served service
          >> (mark_not_served service >> flush_queue service rounds (total + 1))))
        w

  -- flush_pending_users, from the given service on.
  unfoldable pub flush_services : ℕ → ℕ → ℕ → ℕ → Proc Flags D ℕ
  flush_services rounds service zero total = ret total
  flush_services rounds service (suc left) total =
      (peek >>= λ s. require (sem_down (service_queue_mutex_sem (seats s) service)))
      >> (flush_queue service rounds total >>= λ total'.
          (peek >>= λ s. require (sem_up (service_queue_mutex_sem (seats s) service)))
          >> ((peek >>= λ s. set_sem_value (service_jobs_sem (seats s) service) 0)
              >> flush_services rounds (service + 1) left total'))

  unfoldable pub flush_pending_users : ℕ → Proc Flags D ℕ
  flush_pending_users rounds = flush_services rounds 0 service_count 0

  -- count_pending_users, from the given service on.
  unfoldable pub count_services : ℕ → ℕ → ℕ → Proc Flags D ℕ
  count_services service zero total = ret total
  count_services service (suc left) total =
      (peek >>= λ s. require (sem_down (service_queue_mutex_sem (seats s) service)))
      >> (peek >>= λ s.
          let found = Queue.queue_length (queue_of service s) in
          (peek >>= λ s'. require (sem_up (service_queue_mutex_sem (seats s') service)))
          >> count_services (service + 1) left (total + found))

  unfoldable pub count_pending_users : Proc Flags D ℕ
  count_pending_users = count_services 0 service_count 0
