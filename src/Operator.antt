-- ===== src/Operator.antt =====
-- src/operator.c: an operator, who claims a counter of his service and serves the tickets of its
-- queue. The results 0, 1 and -1 of sem_op_interruptible are `got`, `stopped` and `failed`.
-- `Identity` holds the static variable worker_index and the process id. What rand and
-- now_monotonic_ns return is an argument.
pub mod Day
pub mod Duration
pub mod Work
pub mod Safety
pub mod Interruption
mod Tests
use operative_system_project.Prelude.{
  ℕ, Bool, List, true, false, ◌||◌, get_or, modify, Option, not, if◌then◌else◌, ◌&&◌, none, set,
  ◌+◌, ◌/◌, suc, leb, some, ltb, ◌%◌, zero, ◌-◌,
}
use operative_system_project.Prelude.Int.{ℤ, pos, pos_part, negsuc, ◌==ℤ◌, leb_ℤ, ltb_ℤ, ◌+ℤ◌}
use operative_system_project.Commons.{
  Counter, WorkerInfo, UserReplyMessage, DirectorMessageKind, UserReplyStatus, service_mean_minutes,
  director_mtype, user_reply_base,
}
use operative_system_project.Shared.{Shared, to_director, user_reply, seats, queue_of, no_worker}
use operative_system_project.Process.{
  stopped, failed, Proc, Signal, Answer, ◌>>=◌, ◌>>◌, ret, retry, peek, Attempt, got, done, commit,
  raise, lower, require, send, blocked, wrote, slept, counted, observe, popped, own_flags,
}
use operative_system_project.Stats.{Floating, count_pause, count_served, pauses}
use operative_system_project.Queue
use operative_system_project.Commons.Semaphores.{
  counter_mutex_sem, service_jobs_sem, stats_mutex_sem, service_free_counter_sem,
  service_queue_mutex_sem,
}
use operative_system_project.Queue.{QueueTicket}

-- The static variables that the signal handler sets.
pub record Flags : Type 0 where
  pub day_started : Bool
  pub day_stop_requested : Bool
  pub terminate_requested : Bool

pub record Identity : Type 0 where
  pub worker_index : ℕ
  pub pid : ℤ

-- handle_operator_signal
unfoldable pub handle_operator_signal : Signal → Flags → Flags
handle_operator_signal Signal.sigusr1 f = record f { day_started = true }
handle_operator_signal Signal.sigusr2 f = record f { day_stop_requested = true }
handle_operator_signal Signal.sigterm f = record {
  day_started = true;
  day_stop_requested = true;
  terminate_requested = true;
}
handle_operator_signal Signal.sigint f = f

-- The test of sem_op_interruptible after EINTR.
unfoldable pub must_stop : Flags → Bool
must_stop f = f.terminate_requested || f.day_stop_requested

-- random_service_duration_minutes, of what rand returns
unfoldable pub random_service_duration_minutes : ℕ → ℕ → ℕ
random_service_duration_minutes service draw =
    let mean = get_or service_mean_minutes service 0 in
    let max = mean + mean / 2 in
    let min = if leb (mean / 2) 0 then 1 else mean / 2 in min + draw % (max - min + 1)

-- What stands beyond the end of counters is never used.
abbrev pub no_counter : Counter
no_counter = record { counter_id = 0; service = negsuc 0; worker_pid = negsuc 0 }

abbrev pub is_free : ℕ → Counter → Bool
is_free service c = c.service ==ℤ pos service && c.worker_pid ==ℤ negsuc 0

module _ {D : Type 0} where
  -- sem_op_interruptible, with +1 and with -1
  unfoldable pub sem_up : ℕ → Proc Flags D (Answer (Unit {0}))
  sem_up n = retry handle_operator_signal must_stop (raise n)

  unfoldable pub sem_down : ℕ → Proc Flags D (Answer (Unit {0}))
  sem_down n = retry handle_operator_signal must_stop (lower n)

  unfoldable pub lock_stats : Proc Flags D (Unit {0})
  lock_stats = do s ← peek; require (sem_down (stats_mutex_sem (seats s)))

  unfoldable pub unlock_stats : Proc Flags D (Unit {0})
  unlock_stats = do s ← peek; require (sem_up (stats_mutex_sem (seats s)))

  -- A call that no signal makes the process give up, and whose failure ends the process.
  abbrev pub insist : (Shared D → Attempt D (Unit {0})) → Proc Flags D (Unit {0})
  insist call = require (retry handle_operator_signal (λ _. false) call)

  unfoldable pub send_director_message : Identity → DirectorMessageKind → Proc Flags D (Unit {0})
  send_director_message me kind = insist (
      send (
        to_director (record {
          mtype = director_mtype;
          kind = kind;
          index = pos me.worker_index;
          pid = me.pid;
        })))

  unfoldable pub send_user_reply : ℤ → UserReplyStatus → ℕ → Proc Flags D (Unit {0})
  send_user_reply user_pid status service = insist (
      send (
        user_reply
          (record { mtype = pos user_reply_base +ℤ user_pid; status = status; service = service })))

  -- `return v` unless the call before has returned 0.
  abbrev pub or_return :
      {A : Type 0} → A → Proc Flags D (Answer (Unit {0})) → Proc Flags D A → Proc Flags D A
  or_return v call rest = call >>= elim [ got _ ↦ rest | stopped ↦ ret v | failed ↦ ret v ]

  -- A call whose result is not looked at.
  abbrev pub ignore : Proc Flags D (Answer (Unit {0})) → Proc Flags D (Unit {0})
  ignore call = call >>= λ _. ret tt

  -- What claim_counter_for_service writes under the mutex of counter `i`.
  unfoldable pub take_counter : Identity → ℕ → Shared D → Shared D
  take_counter me i s = record s {
    counters = modify s.counters i (λ c. record c { worker_pid = me.pid });
    workers =
        modify s.workers me.worker_index
          (λ w. record w { current_counter = pos i; active_today = true; active_ever = true });
  }

  -- The `for` loop of claim_counter_for_service from counter `i` on, with `left` counters left:
  -- `some r` if the function returns `r` from within it.
  unfoldable pub scan_counters : Identity → ℕ → ℕ → ℕ → Proc Flags D (Option (Option ℕ))
  scan_counters me service i zero = ret none
  scan_counters me service i (suc left) = or_return (some none) (sem_down (counter_mutex_sem i)) (
      observe handle_operator_signal >>= λ s.
      if is_free service (get_or s.counters i no_counter)
      then (commit (take_counter me i) wrote
          >> or_return (some none) (sem_up (counter_mutex_sem i)) (ret (some (some i))))
      else or_return (some none) (sem_up (counter_mutex_sem i))
          (scan_counters me service (i + 1) left))

  -- The condition of the loop of claim_counter_for_service.
  unfoldable pub may_claim : Flags → Shared D → Bool
  may_claim f s = not f.terminate_requested && (s.config.day_active && not f.day_stop_requested)

  -- claim_counter_for_service, with at most the given number of rounds: after them the process is
  -- still at work. `none` is the result -1.
  unfoldable pub claim_counter_for_service : Identity → ℕ → ℕ → Proc Flags D (Option ℕ)
  claim_counter_for_service me service zero w = blocked w
  claim_counter_for_service me service (suc rounds) w =
      (observe handle_operator_signal >>= λ s. own_flags >>= λ f.
      if may_claim f s
      then or_return none (sem_down (service_free_counter_sem (seats s) service)) (
          observe handle_operator_signal >>= λ s'. own_flags >>= λ f'.
          if may_claim f' s'
          then (scan_counters me service 0 (seats s') >>= elim [
            | some r ↦ ret r
            | none ↦
                ignore (sem_up (service_free_counter_sem (seats s') service))
                >> claim_counter_for_service me service rounds
          ])
          else (ignore (sem_up (service_free_counter_sem (seats s') service)) >> ret none))
      else ret none)
        w

  -- What release_counter writes under the mutex of the counter.
  unfoldable pub give_back : Identity → ℕ → Shared D → Shared D
  give_back me i s = record s {
    counters = modify s.counters i (λ c. record c { worker_pid = negsuc 0 });
    workers = modify s.workers me.worker_index (λ w. record w { current_counter = negsuc 0 });
  }

  -- release_counter; its caller has a counter.
  unfoldable pub release_counter : Identity → ℕ → ℕ → Proc Flags D (Unit {0})
  release_counter me i service = or_return tt (sem_down (counter_mutex_sem i)) (
      commit (give_back me i) wrote
      >> or_return tt (sem_up (counter_mutex_sem i)) (
          peek >>= λ s.
          or_return tt (sem_up (service_free_counter_sem (seats s) service)) (ret tt)))

  unfoldable pub wait_for_ticket : ℕ → Proc Flags D (Answer (Unit {0}))
  wait_for_ticket service = do s ← peek; sem_down (service_jobs_sem (seats s) service)

  -- service_queue_pop on the queue of the service, in shared memory.
  unfoldable pub pop_ticket : ℕ → Proc Flags D QueueTicket
  pop_ticket service = do
    s ← peek
    commit (λ s'. record s' { queues = set s'.queues service (Queue.pop (queue_of service s)).1 })
        (popped service)
    ret (Queue.pop (queue_of service s)).0

  -- pop_ticket_for_service: the ticket, or `none` for the result 1.
  unfoldable pub pop_ticket_for_service : ℕ → Proc Flags D (Option QueueTicket)
  pop_ticket_for_service service = do
    s ← peek
    or_return none (sem_down (service_queue_mutex_sem (seats s) service)) (
        pop_ticket service >>= λ ticket.
        or_return none (sem_up (service_queue_mutex_sem (seats s) service))
          (ret (if ltb_ℤ (pos 0) ticket.user_pid then some ticket else none)))

  -- sleep_service_duration: every EINTR continues the sleep.
  unfoldable pub sleep_service_duration : Proc Flags D (Unit {0})
  sleep_service_duration = insist (λ s. done tt s slept)

  -- update_pause_statistics
  unfoldable pub update_pause_statistics : Identity → Proc Flags D (Unit {0})
  update_pause_statistics me = do
    commit
        (λ s. record s {
          workers = modify s.workers me.worker_index (λ w. record w {
            pauses_taken = w.pauses_taken + 1;
            pauses_today = w.pauses_today + 1;
          });
        })
        wrote
    lock_stats
    commit (λ s. record s { stats = count_pause s.stats }) (counted pauses)
    unlock_stats

  -- should_take_pause, of what rand returns
  unfoldable pub should_take_pause : Identity → ℕ → Shared D → Bool
  should_take_pause me draw s =
      if not s.config.day_active
        || leb_ℤ s.config.nof_pause (pos (get_or s.workers me.worker_index no_worker).pauses_taken)
      then false
      else ltb (draw % 100) 10
