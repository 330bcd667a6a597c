-- ===== src/Dispenser/Safety.antt =====
-- The ticket dispenser keeps the shared state sound and the discipline of the locks.
use operative_system_project.Prelude.{
  ℕ, inl, ◌<◌, inr, suc, Bool-cases, ◌||◌, arith, zero, false, true, [], ◌∷◌, subst, refl, not, set,
  if◌then◌else◌,
}
use operative_system_project.Shared.Soundness
use operative_system_project.Shared.Soundness.{IsSound, IsSound-IsKept}
use operative_system_project.Dispenser.Steps.{IsPreserved}
use operative_system_project.Stats.Consistency.{
  count_request-IsConsistent, count_not_served-IsConsistent,
}
use operative_system_project.Queue
use operative_system_project.Queue.{QueueTicket}
use operative_system_project.Queue.Invariant.{push-IsValid}
use operative_system_project.Shared.{
  Shared, Message, ticket_request, to_director, user_reply, seats, queue_of,
}
use operative_system_project.Process.{
  stopped, failed, got, Proc, World, peek, ◌>>=◌, ◌>>◌, require, commit, counted, pushed, ret,
}
use operative_system_project.Prelude.Int.{ℤ, pos_part, ltb_ℤ, pos, leb_ℤ}
use operative_system_project.Dispenser.{
  Flags, handle_ticket_signal, enqueue_user_request, send_user_reply, serve_message, serve_loop,
  main, send_director_message, sem_up, sem_down, lock_stats, unlock_stats, mark_not_served,
  mark_request, refuse, push_ticket, push_and_notify, enqueue_offered, service_is_offered_today,
}
use operative_system_project.Process.Post.{Keeps, Post}
use operative_system_project.Process.Guarded.{IsGuarded}
use operative_system_project.Commons.{
  TicketMessage, service_count, UserReplyStatus, ticket_request_mtype,
}
use operative_system_project.Commons.Semaphores.{
  stats_mutex_sem, service_queue_mutex_sem, service_jobs_sem,
}
use operative_system_project.Stats.{Update, requests, refuses}
use operative_system_project.Process.Keeping.{
  KeepsAll, Moves, bind_keeps, send_keeps, receive_keeps, then_keeps, ret_keeps, own_flags_keeps,
  if_keeps, exit_keeps, wait_keeps, peek_keeps, lower_keeps, raise_keeps, commit_keeps,
  forget_keeps, observe_keeps, keeps_ends,
}

pub IsSound-IsPreserved : {D : Type 0} (n : ℕ) → IsPreserved {D = D} n (IsSound n)
IsSound-IsPreserved n = record {
  calls = IsSound-IsKept n;
  by_request = λ s service lt v.
      Soundness.by_stats v _ (count_request-IsConsistent service s.stats lt v.consistent);
  by_refusal = λ s service lt v.
      Soundness.by_stats v _ (count_not_served-IsConsistent service s.stats lt v.consistent);
  by_push = λ s service t lt v.
      Soundness.by_queue v service _ lt (push-IsValid t (v.valid_queues service lt));
}

module _ {D : Type 0} (n : ℕ) where
  abbrev I : Shared D → Type 0
  I = IsSound n

  abbrev Sound : {A : Type 0} → Proc Flags D A → Type 0
  Sound m = KeepsAll n I m

  -- After the lock the process holds the semaphore.
  down_keeps :
      (place : ℕ → ℕ)
      → Moves n I [] (place n ∷ []) (peek >>= λ s. require (sem_down (place (seats s))))
  unfolding sem_down
  down_keeps place =
      peek_keeps n I (λ s. require (sem_down (place (seats s))))
        λ s i.
          subst (λ m. Moves n I [] (place m ∷ []) (require (sem_down (place (seats s))))) i.fixed
            (lower_keeps n I handle_ticket_signal (λ f. f.terminate_requested) (IsSound-IsKept n)
              (place (seats s)) _ (ret_keeps n I tt) (exit_keeps n I (Unit {0}))
              (exit_keeps n I (Unit {0})))

  up_keeps : (k : ℕ) → Sound (require (sem_up k))
  unfolding sem_up
  up_keeps k =
      raise_keeps n I handle_ticket_signal (λ f. f.terminate_requested) (IsSound-IsKept n) k _
        (λ x. x)
        (elim [
          | got _ ↦ ret_keeps n I tt
          | stopped ↦ exit_keeps n I (Unit {0})
          | failed ↦ exit_keeps n I (Unit {0})
        ])

  under_stats :
      (f : Shared D → Shared D) (u : Update D)
      → ((s : Shared D) → I s → I (f s))
      → Sound (lock_stats >> (commit f (counted u) >> unlock_stats))
  unfolding lock_stats unlock_stats
  under_stats f u h = then_keeps n I _ _ (down_keeps stats_mutex_sem) (
      then_keeps n I _ _ (commit_keeps n I f (counted u) (inl refl) h) (
        forget_keeps n I (stats_mutex_sem n) _ (
          peek_keeps n I (λ s. require (sem_up (stats_mutex_sem (seats s))))
            λ s i. up_keeps (stats_mutex_sem (seats s)))))

  send_user_reply_keeps :
      (pid : ℤ) (status : UserReplyStatus) (service : ℕ)
      → Sound (send_user_reply pid status service)
  unfolding send_user_reply
  send_user_reply_keeps pid status service =
      send_keeps n I handle_ticket_signal (λ f. f.terminate_requested) (IsSound-IsKept n) _ _
        (elim [
          | got _ ↦ ret_keeps n I tt
          | stopped ↦ ret_keeps n I tt
          | failed ↦ exit_keeps n I (Unit {0})
        ])

  refuse_keeps : (pid : ℤ) (service : ℕ) → service < service_count → Sound (refuse pid service)
  unfolding refuse mark_not_served
  refuse_keeps pid service lt =
      then_keeps n I _ _
        (under_stats _ (refuses service) (λ s v.
          Soundness.by_stats v _ (count_not_served-IsConsistent service s.stats lt v.consistent)))
        (send_user_reply_keeps pid UserReplyStatus.not_served service)

  -- A push under the mutex of the queue.
  push_keeps :
      (service : ℕ) (ticket : QueueTicket)
      → service < service_count
      → Moves n I
          (service_queue_mutex_sem n service ∷ [])
          (service_queue_mutex_sem n service ∷ [])
          (push_ticket service ticket)
  unfolding push_ticket
  push_keeps service ticket lt =
      peek_keeps n I
        (λ s.
          if (Queue.push (queue_of service s) ticket).0
          then (commit
                (λ s'. record s' {
                  queues = set s'.queues service (Queue.push (queue_of service s) ticket).1;
                })
                (pushed service ticket)
              >> ret true)
          else ret false)
        λ s i.
          if_keeps n I (Queue.push (queue_of service s) ticket).0 _ _
            (then_keeps n I _ _
              (commit_keeps n I _ (pushed service ticket) (inl refl) (λ s' v.
                Soundness.by_queue v service _ lt
                  (push-IsValid ticket (i.valid_queues service lt))))
              (ret_keeps n I true))
            (ret_keeps n I false)

  push_and_notify_keeps :
      (now : ℤ) (m : TicketMessage) (service : ℕ)
      → service < service_count
      → Moves n I (service_queue_mutex_sem n service ∷ []) [] (push_and_notify now m service)
  unfolding push_and_notify
  push_and_notify_keeps now m service lt = bind_keeps n I _ _ (push_keeps service _ lt) λ ok.
      forget_keeps n I (service_queue_mutex_sem n service) _ (
        peek_keeps n I
          (λ s.
            if ok
            then (require (sem_up (service_queue_mutex_sem (seats s) service))
                >> require (sem_up (service_jobs_sem (seats s) service)))
            else (require (sem_up (service_queue_mutex_sem (seats s) service))
                >> refuse m.user_pid service))
          λ s i.
            if_keeps n I ok _ _
              (then_keeps n I _ _ (up_keeps (service_queue_mutex_sem (seats s) service))
                (up_keeps (service_jobs_sem (seats s) service)))
              (then_keeps n I _ _ (up_keeps (service_queue_mutex_sem (seats s) service))
                (refuse_keeps m.user_pid service lt)))

  offered_keeps :
      (now : ℤ) (m : TicketMessage) (service : ℕ)
      → service < service_count
      → Sound (enqueue_offered now m service)
  unfolding enqueue_offered
  offered_keeps now m service lt =
      then_keeps n I _ _ (down_keeps (λ k. service_queue_mutex_sem k service)) (
        observe_keeps n I handle_ticket_signal _ λ s i.
          if_keeps n I (not s.config.day_active || Queue.is_full (queue_of service s)) _ _
            (forget_keeps n I (service_queue_mutex_sem n service) _ (
              then_keeps n I _ _ (up_keeps (service_queue_mutex_sem (seats s) service))
                (refuse_keeps m.user_pid service lt)))
            (push_and_notify_keeps now m service lt))

  enqueue_keeps :
      (now : ℤ) (m : TicketMessage)
      → pos_part m.service < service_count
      → Sound (enqueue_user_request now m)
  unfolding enqueue_user_request mark_request
  enqueue_keeps now m lt =
      then_keeps n I _ _
        (under_stats _ (requests (pos_part m.service)) (λ s v.
          Soundness.by_stats v _
            (count_request-IsConsistent (pos_part m.service) s.stats lt v.consistent)))
        (observe_keeps n I handle_ticket_signal _ λ s i.
          if_keeps n I
            (not s.config.day_active || not (service_is_offered_today m.service s.counters)) _ _
            (refuse_keeps m.user_pid (pos_part m.service) lt)
            (offered_keeps now m (pos_part m.service) lt))

  serve_message_keeps : (now : ℤ) (m : Message) → Sound (serve_message now m)
  unfolding serve_message
  serve_message_keeps now (ticket_request m) =
      elim (Bool-cases (ltb_ℤ m.service (pos 0) || leb_ℤ (pos service_count) m.service)) [
        | inl out ↦ rw out (send_user_reply_keeps m.user_pid UserReplyStatus.not_served 0)
        | inr inside ↦ rw inside (enqueue_keeps now m (ground arith))
      ]
  serve_message_keeps now (to_director _) = ret_keeps n I tt
  serve_message_keeps now (user_reply _) = ret_keeps n I tt

  serve_loop_keeps : (clock : ℕ → ℤ) (rounds : ℕ) → Sound (serve_loop clock rounds)
  unfolding serve_loop
  serve_loop_keeps clock zero = wait_keeps n I (Unit {0})
  serve_loop_keeps clock (suc rounds) = own_flags_keeps n I _ λ f.
      if_keeps n I f.terminate_requested _ _ (ret_keeps n I tt) (
        receive_keeps n I handle_ticket_signal (λ g. g.terminate_requested) (IsSound-IsKept n)
          (pos ticket_request_mtype) _
          (elim [
            | got m ↦
                then_keeps n I _ _ (serve_message_keeps (clock rounds) m)
                  (serve_loop_keeps clock rounds)
            | stopped ↦ ret_keeps n I tt
            | failed ↦ exit_keeps n I (Unit {0})
          ]))

  pub main_keeps : (pid : ℤ) (clock : ℕ → ℤ) (rounds : ℕ) → Sound (main pid clock rounds)
  unfolding main send_director_message
  main_keeps pid clock rounds =
      then_keeps n I _ _
        (send_keeps n I handle_ticket_signal (λ _. false) (IsSound-IsKept n) _ _
          (elim [
            | got _ ↦ ret_keeps n I tt
            | stopped ↦ exit_keeps n I (Unit {0})
            | failed ↦ exit_keeps n I (Unit {0})
          ]))
        (serve_loop_keeps clock rounds)

-- Whatever the other processes do that keeps the shared state sound, and whatever signals and
-- failures come, the ticket dispenser keeps it sound through any number of rounds of its loop,
-- whether it has returned, exited or still waits; and it keeps the discipline of the locks: it
-- counts in the statistics only while it holds their mutex, and pushes to a queue only while it
-- holds the mutex of that queue.
pub main-IsSound :
    {D : Type 0} (n : ℕ) (pid : ℤ) (clock : ℕ → ℤ) (rounds : ℕ) (w : World Flags D)
    → IsSound n w.shared
    → Keeps (IsSound n) w.script
    → IsGuarded n w.trace
    → Post
        (λ _ w'. IsSound n w'.shared × IsGuarded n w'.trace)
        (λ w'. IsSound n w'.shared × IsGuarded n w'.trace)
        (main pid clock rounds w)
main-IsSound n pid clock rounds w i k g =
    keeps_ends n (IsSound n) (main pid clock rounds) (main_keeps n pid clock rounds) w i k g
