-- ===== src/Dispenser.antt =====
-- src/erogatore_ticket.c: the ticket dispenser, which answers the requests of the users or queues
-- them for the operators. The results 0, 1 and -1 of sem_op_retry are `got`, `stopped` and
-- `failed`. NOF_WORKER_SEATS is not written after the processes have started; it is positive, so a
-- loop up to it runs `seats` times.
pub mod Steps
pub mod Protocol
pub mod Ready
pub mod Undisturbed
pub mod Safety
mod Tests
use operative_system_project.Prelude.{
  ℕ, Bool, List, true, false, ◌∷◌, get_or, if◌then◌else◌, ◌||◌, set, not, [], suc, zero,
}
use operative_system_project.Prelude.Int.{ℤ, pos, pos_part, ◌==ℤ◌, ◌+ℤ◌, ltb_ℤ, negsuc, leb_ℤ}
use operative_system_project.Commons.{
  Counter, TicketMessage, UserReplyMessage, UserReplyStatus, user_reply_base, DirectorMessageKind,
  director_mtype, service_count, ticket_request_mtype,
}
use operative_system_project.Shared.{
  Shared, user_reply, seats, queue_of, Message, to_director, ticket_request,
}
use operative_system_project.Process.{
  Proc, Signal, Answer, ◌>>=◌, ◌>>◌, ret, retry, got, peek, commit, observe, raise, lower,
  exit_failure, send, counted, pushed, stopped, failed, require, blocked, returned, receive,
  own_flags,
}
use operative_system_project.Stats.{count_request, count_not_served, refuses, requests}
use operative_system_project.Queue
use operative_system_project.Queue.{ServiceQueue, QueueTicket}
use operative_system_project.Commons.Semaphores.{
  stats_mutex_sem, service_queue_mutex_sem, service_jobs_sem,
}

-- The static variable that the signal handler sets.
pub record Flags : Type 0 where
  pub terminate_requested : Bool

-- handle_ticket_signal
unfoldable pub handle_ticket_signal : Signal → Flags → Flags
handle_ticket_signal Signal.sigterm f = record { terminate_requested = true }
handle_ticket_signal _ f = f

-- service_is_offered_today, over the counters in shared memory
unfoldable pub service_is_offered_today : ℤ → List Counter → Bool
service_is_offered_today service [] = false
service_is_offered_today service (c ∷ cs) =
    c.service ==ℤ service || service_is_offered_today service cs

module _ {D : Type 0} where
  -- sem_op_retry, with +1 and with -1
  unfoldable pub sem_up : ℕ → Proc Flags D (Answer (Unit {0}))
  sem_up n = retry handle_ticket_signal (λ f. f.terminate_requested) (raise n)

  unfoldable pub sem_down : ℕ → Proc Flags D (Answer (Unit {0}))
  sem_down n = retry handle_ticket_signal (λ f. f.terminate_requested) (lower n)

  unfoldable pub lock_stats : Proc Flags D (Unit {0})
  lock_stats = do s ← peek; require (sem_down (stats_mutex_sem (seats s)))

  unfoldable pub unlock_stats : Proc Flags D (Unit {0})
  unlock_stats = do s ← peek; require (sem_up (stats_mutex_sem (seats s)))

  -- send_user_reply: a signal may stop it before the message is sent.
  unfoldable pub send_user_reply : ℤ → UserReplyStatus → ℕ → Proc Flags D (Unit {0})
  send_user_reply user_pid status service = do
    r ←
        retry handle_ticket_signal (λ f. f.terminate_requested)
          (send (
            user_reply (record {
              mtype = pos user_reply_base +ℤ user_pid;
              status = status;
              service = service;
            })))
    elim r [ got _ ↦ ret tt | stopped ↦ ret tt | failed ↦ exit_failure ]

  -- mark_not_served
  unfoldable pub mark_not_served : ℕ → Proc Flags D (Unit {0})
  mark_not_served service = do
    lock_stats
    commit (λ s. record s { stats = count_not_served service s.stats }) (counted (refuses service))
    unlock_stats

  -- mark_request
  unfoldable pub mark_request : ℕ → Proc Flags D (Unit {0})
  mark_request service = do
    lock_stats
    commit (λ s. record s { stats = count_request service s.stats }) (counted (requests service))
    unlock_stats

  -- The three places where a request is turned down.
  unfoldable pub refuse : ℤ → ℕ → Proc Flags D (Unit {0})
  refuse user_pid service = do
    mark_not_served service
    send_user_reply user_pid UserReplyStatus.not_served service

  -- service_queue_push on the queue of the service, in shared memory.
  unfoldable pub push_ticket : ℕ → QueueTicket → Proc Flags D Bool
  push_ticket service ticket = do
    s ← peek
    let r = Queue.push (queue_of service s) ticket
    if r.0
        then (do
          commit (λ s'. record s' { queues = set s'.queues service r.1 }) (pushed service ticket)
          ret true)
        else ret false

  -- enqueue_user_request from the push on, under the mutex of the queue. The time is what
  -- now_monotonic_ns returns.
  unfoldable pub push_and_notify : ℤ → TicketMessage → ℕ → Proc Flags D (Unit {0})
  push_and_notify now m service = do
    ok ←
        push_ticket service
          (record { user_pid = m.user_pid; user_index = m.user_index; requested_at_ns = now })
    s ← peek
    if ok
        then (do
          require (sem_up (service_queue_mutex_sem (seats s) service))
          require (sem_up (service_jobs_sem (seats s) service)))
        else do
          require (sem_up (service_queue_mutex_sem (seats s) service))
          refuse m.user_pid service

  -- enqueue_user_request from the lock of the queue on.
  unfoldable pub enqueue_offered : ℤ → TicketMessage → ℕ → Proc Flags D (Unit {0})
  enqueue_offered now m service = do
    s ← peek
    require (sem_down (service_queue_mutex_sem (seats s) service))
    s' ← observe handle_ticket_signal
    if not s'.config.day_active || Queue.is_full (queue_of service s')
        then (do
          require (sem_up (service_queue_mutex_sem (seats s') service))
          refuse m.user_pid service)
        else push_and_notify now m service

  -- enqueue_user_request, for a message whose service exists.
  unfoldable pub enqueue_user_request : ℤ → TicketMessage → Proc Flags D (Unit {0})
  enqueue_user_request now m = do
    mark_request (pos_part m.service)
    s ← observe handle_ticket_signal
    if not s.config.day_active || not (service_is_offered_today m.service s.counters)
        then refuse m.user_pid (pos_part m.service)
        else enqueue_offered now m (pos_part m.service)

  -- send_director_message: no signal stops it.
  unfoldable pub send_director_message : ℤ → DirectorMessageKind → Proc Flags D (Unit {0})
  send_director_message pid kind = do
    r ←
        retry handle_ticket_signal (λ _. false)
          (send (
            to_director
              (record { mtype = director_mtype; kind = kind; index = negsuc 0; pid = pid })))
    elim r [ got _ ↦ ret tt | stopped ↦ exit_failure | failed ↦ exit_failure ]

  -- What the loop of main does with a message: a request for a service that does not exist is
  -- answered at once. Only requests have the type TICKET_REQUEST_MTYPE.
  unfoldable pub serve_message : ℤ → Message → Proc Flags D (Unit {0})
  serve_message now (ticket_request m) =
      if ltb_ℤ m.service (pos 0) || leb_ℤ (pos service_count) m.service
      then send_user_reply m.user_pid UserReplyStatus.not_served 0
      else enqueue_user_request now m
  serve_message now (to_director _) = ret tt
  serve_message now (user_reply _) = ret tt

  -- The first rounds of the loop of main. `clock` is what now_monotonic_ns returns in each round;
  -- after the last of the given rounds the process is still at work.
  unfoldable pub serve_loop : (ℕ → ℤ) → ℕ → Proc Flags D (Unit {0})
  serve_loop clock zero w = blocked w
  serve_loop clock (suc k) w =
      (own_flags >>= λ f.
      if f.terminate_requested
      then ret tt
      else (retry handle_ticket_signal (λ g. g.terminate_requested)
            (receive (pos ticket_request_mtype))
          >>= elim [
            | got m ↦ serve_message (clock k) m >> serve_loop clock k
            | stopped ↦ ret tt
            | failed ↦ exit_failure
          ]))
        w

  -- main, from its message to the director on.
  unfoldable pub main : ℤ → (ℕ → ℤ) → ℕ → Proc Flags D (Unit {0})
  main pid clock rounds = do
    send_director_message pid DirectorMessageKind.init
    serve_loop clock rounds
