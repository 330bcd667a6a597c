-- ===== src/Operator/Work.antt =====
-- One ticket of an operator of src/operator.c when its calls complete at once and nobody else runs.
pub mod Line
pub mod Served
use operative_system_project.Prelude.{
  ℕ, ◌+◌, ◌-◌, ◌<◌, ◌≡◌, refl, ◌++◌, ◌∷◌, [], set, length, arith, ap, true, some, none,
  if◌then◌else◌, subst, length-set, sym, Option, false,
}
use operative_system_project.Prelude.Int.{ℤ, pos, ltb_ℤ, ◌+ℤ◌, ◌-ℤ◌}
use operative_system_project.Queue
use operative_system_project.Operator.{
  Flags, handle_operator_signal, must_stop, sem_up, sem_down, lock_stats, unlock_stats,
  sleep_service_duration, send_user_reply, wait_for_ticket, pop_ticket, pop_ticket_for_service,
  or_return, random_service_duration_minutes, got, seats, counted,
}
use operative_system_project.Operator.Day.{Draw, serve_ticket}
use operative_system_project.Shared.{Message, Shared, user_reply, queue_of}
use operative_system_project.Stats.{Floating, count_served, ns_to_minutes, serves}
use operative_system_project.Process.Quiet.{IsReady, Has, value, with_sem, lower_works, raise_works}
use operative_system_project.Commons.Semaphores.{
  service_jobs_sem, service_queue_mutex_sem, layout, stats_mutex_sem, total_sems,
}
use operative_system_project.Queue.{run, QueueTicket}
use operative_system_project.Commons.{user_reply_base, service_count, UserReplyStatus}
use operative_system_project.Process.Runs.{
  Runs, peek-Runs, retry-Runs, restored, grants, require-Runs, send-Runs, then_steps, bind-Runs,
  recount, ret-Runs, commit-Runs,
}
use operative_system_project.Process.{
  lower, raise, lowered, raised, Proc, popped, require, ◌>>=◌, done, commit, ret, slept, ◌>>◌,
}

abbrev pub served_reply : ℤ → ℕ → Message
served_reply pid service = user_reply (record {
  mtype = pos user_reply_base +ℤ pid;
  status = UserReplyStatus.served;
  service = service;
})

-- The service has a job and a ticket whose mutex is free.
pub record CanServe {D : Type 0} (n service : ℕ) (s : Shared D) : Type 0 where
  pub ready : IsReady n s
  pub known : service < service_count
  pub mutex_free : 0 < value (service_queue_mutex_sem n service) s
  pub job : 0 < value (service_jobs_sem n service) s
  pub ticket : ltb_ℤ (pos 0) (Queue.pop (queue_of service s)).0.user_pid ≡ true

module _ {D : Type 0} ⦃float : Floating D⦄ where
  -- The shared state when the ticket at the head of the queue has been served.
  abbrev pub after_service : ℕ → ℕ → Draw → Shared D → Shared D
  after_service n service draw s = record s {
    sems = set s.sems (service_jobs_sem n service) (value (service_jobs_sem n service) s - 1);
    queues = set s.queues service (Queue.pop (queue_of service s)).1;
    stats =
        count_served service
          (ns_to_minutes (draw.now -ℤ (Queue.pop (queue_of service s)).0.requested_at_ns)
            s.config.n_nano_seconds)
          (float.of_int (pos (random_service_duration_minutes service draw.duration))) s.stats;
    mailbox = s.mailbox ++ served_reply (Queue.pop (queue_of service s)).0.user_pid service ∷ [];
  }

module _ {D : Type 0} (n : ℕ) (f : Flags) where
  down_got :
      (k : ℕ) (s : Shared D)
      → Has k s
      → 0 < value k s
      → Runs (sem_down k) f s 1 (got tt) (with_sem k (value k s - 1) s)
  unfolding sem_down
  down_got k s h p =
      retry-Runs handle_operator_signal must_stop f s (lower k) tt _ (lowered k)
        (lower_works k s h p)

  up_got :
      (k : ℕ) (s : Shared D)
      → Has k s
      → Runs (sem_up k) f s 1 (got tt) (with_sem k (value k s + 1) s)
  unfolding sem_up
  up_got k s h =
      retry-Runs handle_operator_signal must_stop f s (raise k) tt _ (raised k) (raise_works k s h)

  -- A semaphore that has been lowered before a step that leaves the semaphores alone is as before.
  up_restores :
      (k : ℕ) (s s' : Shared D)
      → Has k s
      → 0 < value k s
      → s'.sems ≡ set s.sems k (value k s - 1)
      → Runs (sem_up k) f s' 1 (got tt) (record s' { sems = s.sems })
  up_restores k s s' h p same =
      subst (λ x. Runs (sem_up k) f s' 1 (got tt) x) (restored k s s' same h p)
        (up_got k s' (omega (arith, h, ap length same, length-set s.sems k (value k s - 1))))

  pub wait-Runs :
      (service : ℕ) (s : Shared D)
      → CanServe n service s
      → Runs (wait_for_ticket service) f s 1 (got tt) (record s {
        sems = set s.sems (service_jobs_sem n service) (value (service_jobs_sem n service) s - 1);
      })
  unfolding wait_for_ticket
  wait-Runs service s c =
      peek-Runs (λ r. sem_down (service_jobs_sem (seats r) service)) f s _ 1 (got tt)
        (subst
          (λ m.
            Runs (sem_down (service_jobs_sem m service)) f s 1 (got tt)
              (with_sem (service_jobs_sem n service) (value (service_jobs_sem n service) s - 1) s))
          (sym c.ready.fixed)
          (down_got (service_jobs_sem n service) s
            (omega (arith, c.ready.sem_set, (layout n service c.known).jobs_in)) c.job))

  take-Runs :
      (service : ℕ) (s : Shared D)
      → Runs
          (pop_ticket service)
          f
          s
          0
          (Queue.pop (queue_of service s)).0
          (record s { queues = set s.queues service (Queue.pop (queue_of service s)).1 })
  unfolding pop_ticket grants
  take-Runs service s = record { run = λ es t. (popped service ∷ t, refl) }

  pub pop-Runs :
      (service : ℕ) (s : Shared D)
      → IsReady n s
      → service < service_count
      → 0 < value (service_queue_mutex_sem n service) s
      → ltb_ℤ (pos 0) (Queue.pop (queue_of service s)).0.user_pid ≡ true
      → Runs
          (pop_ticket_for_service service)
          f
          s
          2
          (some (Queue.pop (queue_of service s)).0)
          (record s { queues = set s.queues service (Queue.pop (queue_of service s)).1 })
  unfolding pop_ticket_for_service
  pop-Runs service s ready known free ticket =
      let t = (Queue.pop (queue_of service s)).0 in
      let k = service_queue_mutex_sem n service in
      let here : Has k s = omega (arith, ready.sem_set, (layout n service known).queue_in) in
      let locked : Shared D = with_sem k (value k s - 1) s in
      let popped_ : Shared D = record locked {
        queues = set s.queues service (Queue.pop (queue_of service s)).1;
      } in
      let final : Shared D = record s { queues = popped_.queues } in
      peek-Runs (λ r. pop_with (seats r)) f s final 2 (some t)
        (subst (λ m. Runs (pop_with m) f s 2 (some t) final) (sym ready.fixed)
          (bind-Runs (sem_down k) _ f s locked final 1 1 (got tt) (some t) (down_got k s here free)
            (bind-Runs (pop_ticket service) _ f locked popped_ final 0 1 t (some t)
              (take-Runs service locked)
              (bind-Runs (sem_up k) _ f popped_ final final 1 0 (got tt) (some t)
                (up_restores k s popped_ here free refl)
                (recount _ f final final 0 0 _ (some t) refl
                  (ap (λ b. if b then some t else none) ticket)
                  (ret-Runs (if ltb_ℤ (pos 0) t.user_pid then some t else none) f final))))))
    where
      pop_with : ℕ → Proc Flags D (Option QueueTicket)
      pop_with m = or_return none (sem_down (service_queue_mutex_sem m service)) (
          pop_ticket service >>= λ x.
          or_return none (sem_up (service_queue_mutex_sem m service))
            (ret (if ltb_ℤ (pos 0) x.user_pid then some x else none)))

  sleep-Runs : (s : Shared D) → Runs sleep_service_duration f s 1 tt s
  unfolding sleep_service_duration
  sleep-Runs s =
      require-Runs _ f s s 1
        (retry-Runs handle_operator_signal (λ _. false) f s (λ r. done tt r slept) tt s slept refl)

  reply-Runs :
      (pid : ℤ) (service : ℕ) (s : Shared D)
      → Runs
          (send_user_reply pid UserReplyStatus.served service)
          f
          s
          1
          tt
          (record s { mailbox = s.mailbox ++ served_reply pid service ∷ [] })
  unfolding send_user_reply
  reply-Runs pid service s =
      require-Runs _ f s _ 1
        (send-Runs handle_operator_signal (λ _. false) f s (served_reply pid service))

  stats_exist : (s : Shared D) → IsReady n s → Has (stats_mutex_sem n) s
  unfolding stats_mutex_sem total_sems
  stats_exist s r = omega (arith, r.sem_set)

  lock-Runs :
      (s : Shared D)
      → IsReady n s
      → Runs lock_stats f s 1 tt (with_sem (stats_mutex_sem n) (value (stats_mutex_sem n) s - 1) s)
  unfolding lock_stats
  lock-Runs s r =
      peek-Runs (λ x. require (sem_down (stats_mutex_sem (seats x)))) f s _ 1 tt
        (subst
          (λ m.
            Runs (require (sem_down (stats_mutex_sem m))) f s 1 tt
              (with_sem (stats_mutex_sem n) (value (stats_mutex_sem n) s - 1) s))
          (sym r.fixed)
          (require-Runs _ f s _ 1 (down_got (stats_mutex_sem n) s (stats_exist s r) r.stats_free)))

  unlock-Runs :
      (s s' : Shared D)
      → IsReady n s
      → seats s' ≡ n
      → s'.sems ≡ set s.sems (stats_mutex_sem n) (value (stats_mutex_sem n) s - 1)
      → Runs unlock_stats f s' 1 tt (record s' { sems = s.sems })
  unfolding unlock_stats
  unlock-Runs s s' r fixed same =
      peek-Runs (λ x. require (sem_up (stats_mutex_sem (seats x)))) f s' _ 1 tt
        (subst
          (λ m. Runs (require (sem_up (stats_mutex_sem m))) f s' 1 tt (record s' { sems = s.sems }))
          (sym fixed)
          (require-Runs _ f s' _ 1
            (up_restores (stats_mutex_sem n) s s' (stats_exist s r) r.stats_free same)))

  pub serve-Runs :
      ⦃float : Floating D⦄ (service : ℕ) (ticket : QueueTicket) (draw : Draw) (s : Shared D)
      → IsReady n s
      → Runs (serve_ticket service ticket draw) f s 4 tt (record s {
        stats =
            count_served service
              (ns_to_minutes (draw.now -ℤ ticket.requested_at_ns) s.config.n_nano_seconds)
              (float.of_int (pos (random_service_duration_minutes service draw.duration)))
              s.stats;
        mailbox = s.mailbox ++ served_reply ticket.user_pid service ∷ [];
      })
  unfolding serve_ticket
  serve-Runs ⦃float⦄ service ticket draw s ready =
      let waited = ns_to_minutes (draw.now -ℤ ticket.requested_at_ns) s.config.n_nano_seconds in
      let minutes = float.of_int (pos (random_service_duration_minutes service draw.duration)) in
      let locked : Shared D = with_sem (stats_mutex_sem n) (value (stats_mutex_sem n) s - 1) s in
      let noted : Shared D = record locked {
        stats = count_served service waited minutes s.stats;
      } in
      let open_ : Shared D = record s { stats = noted.stats } in
      let final : Shared D = record open_ {
        mailbox = s.mailbox ++ served_reply ticket.user_pid service ∷ [];
      } in
      let answer = send_user_reply ticket.user_pid UserReplyStatus.served service in
      then_steps sleep_service_duration _ f s s final 1 3 tt (sleep-Runs s) (
        then_steps lock_stats _ f s locked final 1 2 tt (lock-Runs s ready) (
          peek-Runs
            (λ x.
              commit
                (λ y. record y {
                  stats =
                      count_served service
                        (ns_to_minutes (draw.now -ℤ ticket.requested_at_ns) x.config.n_nano_seconds)
                        minutes y.stats;
                })
                (counted (
                  serves service
                    (ns_to_minutes (draw.now -ℤ ticket.requested_at_ns) x.config.n_nano_seconds)
                    minutes))
              >> (unlock_stats >> answer))
            f locked final 2 tt
            (then_steps
              (commit (λ y. record y { stats = count_served service waited minutes y.stats })
                (counted (serves service waited minutes)))
              _ f locked noted final 0 2 tt (commit-Runs _ _ f locked)
              (then_steps unlock_stats answer f noted open_ final 1 1 tt
                (unlock-Runs s noted ready ready.fixed refl)
                (reply-Runs ticket.user_pid service open_)))))
