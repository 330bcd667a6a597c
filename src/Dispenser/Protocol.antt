-- ===== src/Dispenser/Protocol.antt =====
-- enqueue_user_request of src/erogatore_ticket.c, over every interleaving with the other processes
-- and with signals: what it does, in order, when it returns.
use operative_system_project.Prelude.{
  refl, ℕ, ◌≡◌, ◌<◌, List, ◌∷◌, false, true, set, arith, ap, if◌then◌else◌, ◌⊎◌, not, ◌||◌, inr,
  Bool-cases, inl,
}
use operative_system_project.Commons.{service_count, TicketMessage}
use operative_system_project.Commons.Semaphores.{service_queue_mutex_sem, service_jobs_sem}
use operative_system_project.Shared.{Shared}
use operative_system_project.Process.{World, Act, raised, lowered, pushed, ◌>>◌}
use operative_system_project.Process.Post.{Post, At, Post-bind, Post-mono, Keeps}
use operative_system_project.Process.Logs.{
  IsKept, Logs, Logs-then, require_up, require_down, observe_then,
}
use operative_system_project.Queue
use operative_system_project.Dispenser.{
  Flags, ℤ, QueueTicket, sem_up, sem_down, queue_of, push_and_notify, require, push_ticket,
  handle_ticket_signal, enqueue_offered, refuse, seats, enqueue_user_request, pos_part, requests,
  service_is_offered_today, mark_request,
}
use operative_system_project.Dispenser.Steps.{
  IsPreserved, Refused, refuse-Post, counting, mark_request-Logs,
}

-- The ticket that a request becomes.
abbrev pub ticket_of : ℤ → TicketMessage → QueueTicket
ticket_of now m = record { user_pid = m.user_pid; user_index = m.user_index; requested_at_ns = now }

-- The ticket is queued under the mutex of the queue, and then the operators are told.
abbrev pub queueing : {D : Type 0} → ℕ → ℕ → QueueTicket → List (Act D) → List (Act D)
queueing n service ticket t =
    raised (service_jobs_sem n service)
    ∷ raised (service_queue_mutex_sem n service)
    ∷ pushed service ticket
    ∷ lowered (service_queue_mutex_sem n service)
    ∷ t

-- A request is turned down before the queue is locked, or under the mutex of the queue, or it is
-- queued.
abbrev pub Settled :
    {D : Type 0}
    → ℕ
    → (Shared D → Type 0)
    → ℤ
    → TicketMessage
    → ℕ
    → List (Act D)
    → World Flags D
    → Type 0
Settled n I now m service t w =
    Refused n I m.user_pid service t w
    ⊎ Refused n I m.user_pid service
        (raised (service_queue_mutex_sem n service)
          ∷ lowered (service_queue_mutex_sem n service)
          ∷ t)
        w
    ⊎ At I (queueing n service (ticket_of now m) t) w

module _ {D : Type 0} (n : ℕ) (I : Shared D → Type 0) (keep : IsPreserved n I) (now : ℤ)
    (m : TicketMessage) (service : ℕ) (exists : service < service_count) where
  abbrev queue_sem : ℕ
  queue_sem = service_queue_mutex_sem n service

  abbrev jobs_sem : ℕ
  jobs_sem = service_jobs_sem n service

  abbrev ticket : QueueTicket
  ticket = ticket_of now m

  abbrev Done : List (Act D) → World Flags D → Type 0
  Done t w = Settled n I now m service t w

  abbrev calls : IsKept n I
  calls = keep.calls

  queue_up : (t : List (Act D)) → Logs I t (raised queue_sem ∷ t) (require (sem_up queue_sem))
  unfolding sem_up
  queue_up t = require_up handle_ticket_signal (λ f. f.terminate_requested) n I calls queue_sem t

  queue_down : (t : List (Act D)) → Logs I t (lowered queue_sem ∷ t) (require (sem_down queue_sem))
  unfolding sem_down
  queue_down t =
      require_down handle_ticket_signal (λ f. f.terminate_requested) n I calls queue_sem t

  jobs_up : (t : List (Act D)) → Logs I t (raised jobs_sem ∷ t) (require (sem_up jobs_sem))
  unfolding sem_up
  jobs_up t = require_up handle_ticket_signal (λ f. f.terminate_requested) n I calls jobs_sem t

  pushes :
      (s : Shared D)
      → Queue.is_full (queue_of service s) ≡ false
      → (Queue.push (queue_of service s) ticket).0 ≡ true
  unfolding Queue.push Queue.is_full
  pushes s h = ground arith

  push_and_notify-Post :
      (t : List (Act D)) (w : World Flags D)
      → Queue.is_full (queue_of service w.shared) ≡ false
      → At I t w
      → Post
          (λ _ w'. At I (raised jobs_sem ∷ raised queue_sem ∷ pushed service ticket ∷ t) w')
          (λ w'. I w'.shared)
          (push_and_notify now m service w)
  unfolding push_and_notify push_ticket
  push_and_notify-Post t w room at = rw (pushes w.shared room) (
      rw (calls.fixed _ pushed_holds) (
        Logs-then I (pushed service ticket ∷ t) (raised queue_sem ∷ pushed service ticket ∷ t)
          (raised jobs_sem ∷ raised queue_sem ∷ pushed service ticket ∷ t) _ _ (queue_up _)
          (jobs_up _) _
          (record {
            logged = ap (λ u. pushed service ticket ∷ u) at.logged;
            holds = pushed_holds;
            kept = at.kept;
          })))
    where
      pushed_holds : I (record w.shared {
        queues = set w.shared.queues service (Queue.push (queue_of service w.shared) ticket).1;
      })
      pushed_holds = keep.by_push w.shared service ticket exists at.holds

  abbrev Holds : World Flags D → Type 0
  Holds w = I w.shared

  refuse_locked-Post :
      (t : List (Act D)) (w : World Flags D)
      → At I (lowered queue_sem ∷ t) w
      → Post (λ _ w'. Done t w') Holds ((require (sem_up queue_sem) >> refuse m.user_pid service) w)
  refuse_locked-Post t w at =
      Post-bind (λ _ w'. At I (raised queue_sem ∷ lowered queue_sem ∷ t) w') (λ _ w'. Done t w')
        Holds (require (sem_up queue_sem) w) (λ _. refuse m.user_pid service)
        (queue_up (lowered queue_sem ∷ t) w at)
        λ _ w' at'.
          Post-mono
            (λ _ w''. Refused n I m.user_pid service (raised queue_sem ∷ lowered queue_sem ∷ t) w'')
            (λ _ w''. Done t w'') Holds Holds (refuse m.user_pid service w')
            (refuse-Post n I keep service exists m.user_pid
              (raised queue_sem ∷ lowered queue_sem ∷ t) w' at')
            (λ _ w'' r. inr (inl r)) (λ w'' h. h)

  locked-Post :
      (t : List (Act D)) (w : World Flags D)
      → At I (lowered queue_sem ∷ t) w
      → Post
          (λ _ w'. Done t w')
          Holds
          ((if not w.shared.config.day_active || Queue.is_full (queue_of service w.shared)
              then (require (sem_up (service_queue_mutex_sem (seats w.shared) service))
                  >> refuse m.user_pid service)
              else push_and_notify now m service)
            w)
  locked-Post t w at =
      elim (Bool-cases
        (not w.shared.config.day_active || Queue.is_full (queue_of service w.shared))) [
          | inl e ↦ rw (e, calls.fixed w.shared at.holds) (refuse_locked-Post t w at)
          | inr e ↦ rw e (
              Post-mono (λ _ w'. At I (queueing n service ticket t) w') (λ _ w'. Done t w') Holds
                Holds (push_and_notify now m service w)
                (push_and_notify-Post (lowered queue_sem ∷ t) w (ground arith) at)
                (λ _ w' q. inr (inr q)) (λ w' h. h))
        ]

  enqueue_offered-Post :
      (t : List (Act D)) (w : World Flags D)
      → At I t w
      → Post (λ _ w'. Done t w') Holds (enqueue_offered now m service w)
  unfolding enqueue_offered
  enqueue_offered-Post t w at = rw (calls.fixed w.shared at.holds) (
      Post-bind (λ _ w'. At I (lowered queue_sem ∷ t) w') (λ _ w'. Done t w') Holds
        (require (sem_down queue_sem) w) _ (queue_down t w at)
        λ _ w' at'.
          observe_then handle_ticket_signal (λ f. f.terminate_requested) n I calls _
            (λ _ w''. Done t w'') (lowered queue_sem ∷ t) w' at' (locked-Post t))

-- Whenever enqueue_user_request returns for a known service, it has counted the request, and then
-- has either counted and sent a refusal, before it locked the queue or under that lock, or has
-- queued the ticket and told the operators, each exactly once and with every mutex released; the
-- reply of a refusal is missing only after SIGTERM. In any case what the other processes keep
-- holds at the end.
pub enqueue_user_request-Settled :
    {D : Type 0} (n : ℕ) (I : Shared D → Type 0) (keep : IsPreserved n I) (now : ℤ)
    (m : TicketMessage) (exists : pos_part m.service < service_count) (w : World Flags D)
    → I w.shared
    → Keeps I w.script
    → Post
        (λ _ w'.
          Settled n I now m
            (pos_part m.service)
            (counting n (requests (pos_part m.service)) w.trace)
            w')
        (λ w'. I w'.shared)
        (enqueue_user_request now m w)
unfolding enqueue_user_request
enqueue_user_request-Settled {D} n I keep now m exists w holds kept =
    Post-bind (λ _ w'. At I counted_log w') (λ _ w'. settled w') (λ w'. I w'.shared)
      (mark_request service w) _
      (mark_request-Logs n I keep service exists w.trace w
        (record { logged = refl; holds = holds; kept = kept }))
      λ _ w' at'.
        observe_then handle_ticket_signal (λ f. f.terminate_requested) n I keep.calls _
          (λ _ w''. settled w'') counted_log w' at' decide
  where
    service : ℕ
    service = pos_part m.service

    counted_log : List (Act D)
    counted_log = counting n (requests service) w.trace

    settled : World Flags D → Type 0
    settled = Settled n I now m service counted_log

    decide :
        (w'' : World Flags D)
        → At I counted_log w''
        → Post
            (λ _ v. settled v)
            (λ v. I v.shared)
            ((if not w''.shared.config.day_active
                  || not (service_is_offered_today m.service w''.shared.counters)
                then refuse m.user_pid service
                else enqueue_offered now m service)
              w'')
    decide w'' at =
        elim (Bool-cases (
          not w''.shared.config.day_active
          || not (service_is_offered_today m.service w''.shared.counters))) [
            | inl e ↦ rw e (
                Post-mono (λ _ v. Refused n I m.user_pid service counted_log v) (λ _ v. settled v)
                  (λ v. I v.shared) (λ v. I v.shared) (refuse m.user_pid service w'')
                  (refuse-Post n I keep service exists m.user_pid counted_log w'' at)
                  (λ _ v r. inl r) (λ v h. h))
            | inr e ↦ rw e (enqueue_offered-Post n I keep now m service exists counted_log w'' at)
          ]
