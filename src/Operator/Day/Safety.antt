-- ===== src/Operator/Day/Safety.antt =====
-- An operator keeps the shared state sound and the discipline of the locks, all day and from day to
-- day.
use operative_system_project.Prelude.{
  if◌then◌else◌, set, subst, refl, ℕ, ◌<◌, none, ◌+◌, suc, false, get_or, ◌||◌, ◌&&◌, some, not,
  true, zero, [], ◌∷◌, inl, sym,
}
use operative_system_project.Shared.Soundness
use operative_system_project.Operator.Safety.{
  or_up, or_down, insist_keeps, lock_keeps, claim_keeps, unlock_keeps, release_keeps,
}
use operative_system_project.Stats.{Floating, count_served, ns_to_minutes, serves, pauses}
use operative_system_project.Shared.{Shared, no_worker, queue_of}
use operative_system_project.Process.{
  ◌>>=◌, counted, commit, popped, ret, ◌>>◌, done, slept, Proc, World, wrote, got, stopped, failed,
}
use operative_system_project.Operator.{
  send_user_reply, Flags, send_director_message, sem_down, sem_up, pop_ticket,
  pop_ticket_for_service, sleep_service_duration, update_pause_statistics, Identity,
  wait_for_ticket, handle_operator_signal, seats, should_take_pause, or_return,
  claim_counter_for_service, release_counter, random_service_duration_minutes, unlock_stats,
}
use operative_system_project.Operator.Day.{
  main, serve_ticket, work_loop, run_day, day_loop, set_flags, wait_for_next_day, Draw, may_start,
}
use operative_system_project.Shared.Soundness.{IsSound}
use operative_system_project.Process.Keeping.{
  KeepsAll, Moves, then_keeps, retry_keeps, commit_keeps, peek_keeps, wait_keeps, bind_keeps,
  ret_keeps, observe_keeps, own_flags_keeps, if_keeps, exit_keeps, forget_keeps, keeps_ends,
  let_go_keeps,
}
use operative_system_project.Prelude.Int.{ℤ, ltb_ℤ, pos, ◌-ℤ◌}
use operative_system_project.Queue
use operative_system_project.Queue.{QueueTicket}
use operative_system_project.Commons.{service_count, UserReplyStatus}
use operative_system_project.Queue.Invariant.{pop-IsValid}
use operative_system_project.Process.Post.{Keeps, Post}
use operative_system_project.Process.Logs.{slept_done}
use operative_system_project.Process.Guarded.{IsGuarded, MayDo}
use operative_system_project.Stats.Consistency.{count_pause-IsConsistent, count_served-IsConsistent}
use operative_system_project.Commons.Semaphores.{service_queue_mutex_sem, service_jobs_sem}
use operative_system_project.Process.Waiting.{suspend_until_keeps}

module _ {D : Type 0} ⦃float : Floating D⦄ (n : ℕ) where
  abbrev I : Shared D → Type 0
  I = IsSound n

  abbrev Sound : {A : Type 0} → Proc Flags D A → Type 0
  Sound m = KeepsAll n I m

  pop_ticket_keeps :
      (service : ℕ)
      → service < service_count
      → Moves n I
          (service_queue_mutex_sem n service ∷ [])
          (service_queue_mutex_sem n service ∷ [])
          (pop_ticket service)
  unfolding pop_ticket
  pop_ticket_keeps service lt =
      peek_keeps n I
        (λ x.
          commit
            (λ s'. record s' { queues = set s'.queues service (Queue.pop (queue_of service x)).1 })
            (popped service)
          >> ret (Queue.pop (queue_of service x)).0)
        λ s i.
          then_keeps n I _ _
            (commit_keeps n I
              (λ s'. record s' {
                queues = set s'.queues service (Queue.pop (queue_of service s)).1;
              })
              (popped service) (inl refl)
              (λ s' v. Soundness.by_queue v service _ lt (pop-IsValid (i.valid_queues service lt))))
            (ret_keeps n I (Queue.pop (queue_of service s)).0)

  pop_keeps : (service : ℕ) → service < service_count → Sound (pop_ticket_for_service service)
  unfolding pop_ticket_for_service
  pop_keeps service lt =
      peek_keeps n I
        (λ s. or_return none (sem_down (service_queue_mutex_sem (seats s) service)) (
          pop_ticket service >>= λ ticket.
          or_return none (sem_up (service_queue_mutex_sem (seats s) service))
            (ret (if ltb_ℤ (pos 0) ticket.user_pid then some ticket else none))))
        λ s i. or_down n none (service_queue_mutex_sem (seats s) service) _ (
          bind_keeps n I (pop_ticket service) _ (locked_pop s i service lt) (λ ticket.
            or_up n none (service_queue_mutex_sem (seats s) service) _ (ret_keeps n I _)))
    where
      locked_pop :
          (s : Shared D)
          → I s
          → (service : ℕ) → service < service_count
          → Moves n I (service_queue_mutex_sem (seats s) service ∷ []) [] (pop_ticket service)
      locked_pop s i service lt =
          let_go_keeps n I (service_queue_mutex_sem (seats s) service) (pop_ticket service) (
            subst
              (λ m.
                Moves n I (service_queue_mutex_sem m service ∷ [])
                  (service_queue_mutex_sem m service ∷ []) (pop_ticket service))
              (sym i.fixed) (pop_ticket_keeps service lt))

  reply_keeps :
      (pid : ℤ) (status : UserReplyStatus) (service : ℕ)
      → Sound (send_user_reply pid status service)
  unfolding send_user_reply
  reply_keeps pid status service = insist_keeps n _

  sleep_keeps : Sound sleep_service_duration
  unfolding sleep_service_duration
  sleep_keeps =
      retry_keeps n I handle_operator_signal (λ _. false) (λ s. done tt s slept) _
        (λ s s' a act i d.
          let (same, e) = slept_done s s' a act d in (subst (MayDo n []) e tt, subst I same i))
        (elim [
          | got _ ↦ ret_keeps n I tt
          | stopped ↦ exit_keeps n I (Unit {0})
          | failed ↦ exit_keeps n I (Unit {0})
        ])

  pause_keeps : (me : Identity) → Sound (update_pause_statistics me)
  unfolding update_pause_statistics
  pause_keeps me =
      then_keeps n I _ _
        (commit_keeps n I _ wrote tt (λ s v.
          Soundness.by_worker v me.worker_index
            (λ w. record w { pauses_taken = w.pauses_taken + 1; pauses_today = w.pauses_today + 1 })
            (λ w. refl)))
        (then_keeps n I _ _ (lock_keeps n) (
          then_keeps n I _ _
            (commit_keeps n I _ (counted pauses) (inl refl)
              (λ s v. Soundness.by_stats v _ (count_pause-IsConsistent s.stats v.consistent)))
            (unlock_keeps n)))

  serve_ticket_keeps :
      (service : ℕ) (ticket : QueueTicket) (draw : Draw)
      → service < service_count
      → Sound (serve_ticket service ticket draw)
  unfolding serve_ticket
  serve_ticket_keeps service ticket draw lt = then_keeps n I _ _ sleep_keeps (
      then_keeps n I _ _ (lock_keeps n) (
        peek_keeps n I
          (λ s.
            commit
              (λ s'. record s' {
                stats =
                    count_served service
                      (ns_to_minutes (draw.now -ℤ ticket.requested_at_ns) s.config.n_nano_seconds)
                      (float.of_int (pos (random_service_duration_minutes service draw.duration)))
                      s'.stats;
              })
              (counted (
                serves service
                  (ns_to_minutes (draw.now -ℤ ticket.requested_at_ns) s.config.n_nano_seconds)
                  (float.of_int (pos (random_service_duration_minutes service draw.duration)))))
            >> (unlock_stats >> send_user_reply ticket.user_pid UserReplyStatus.served service))
          λ s i.
            then_keeps n I _ _
              (commit_keeps n I _ _ (inl refl) (λ s' v.
                Soundness.by_stats v _
                  (count_served-IsConsistent service _ _ s'.stats lt v.consistent)))
              (then_keeps n I _ _ (unlock_keeps n)
                (reply_keeps ticket.user_pid UserReplyStatus.served service))))

  set_flags_keeps : (g : Flags → Flags) → Sound (set_flags g)
  set_flags_keeps g = record {
    run = λ w g. record { state = g.state; others = g.others; guarded = g.guarded; held = g.held };
  }

  -- `return` unless there is a job. A semaphore of jobs is no lock, and is not given back.
  wait_then :
      (service : ℕ) (rest : Proc Flags D (Unit {0}))
      → Sound rest
      → Sound (or_return tt (wait_for_ticket service) rest)
  unfolding wait_for_ticket
  wait_then service rest h =
      peek_keeps n I (λ s. or_return tt (sem_down (service_jobs_sem (seats s) service)) rest)
        λ s i.
          or_down n tt (service_jobs_sem (seats s) service) rest
            (forget_keeps n I (service_jobs_sem (seats s) service) rest h)

  work_keeps :
      (me : Identity) (service : ℕ) (draws : ℕ → Draw) (rounds : ℕ)
      → service < service_count
      → Sound (work_loop me service draws rounds)
  unfolding work_loop wait_for_ticket
  work_keeps me service draws zero lt = wait_keeps n I (Unit {0})
  work_keeps me service draws (suc rounds) lt = observe_keeps n I handle_operator_signal _ λ s v.
      own_flags_keeps n I _ λ f.
        if_keeps n I (f.terminate_requested || (f.day_stop_requested && not s.config.day_active)) _
          _ (ret_keeps n I tt)
          (wait_then service _ (
            bind_keeps n I (pop_ticket_for_service service) _ (pop_keeps service lt) (elim [
              | none ↦ work_keeps me service draws rounds lt
              | some ticket ↦
                  then_keeps n I (serve_ticket service ticket (draws rounds)) _
                    (serve_ticket_keeps service ticket (draws rounds) lt)
                    (observe_keeps n I handle_operator_signal _ λ s' v'. own_flags_keeps n I _ λ f'.
                      if_keeps n I
                        (f'.terminate_requested
                          || (f'.day_stop_requested || not s'.config.day_active))
                        _ _ (ret_keeps n I tt)
                        (if_keeps n I (should_take_pause me (draws rounds).pause s') _ _
                          (then_keeps n I _ _ (pause_keeps me)
                            (set_flags_keeps (λ g. record g { day_stop_requested = true })))
                          (work_keeps me service draws rounds lt)))
            ])))

  run_day_keeps : (me : Identity) (draws : ℕ → Draw) (rounds : ℕ) → Sound (run_day me draws rounds)
  unfolding run_day send_director_message
  run_day_keeps me draws rounds =
      then_keeps n I _ _
        (peek_keeps n I
          (λ s.
            claim_counter_for_service me (get_or s.workers me.worker_index no_worker).service rounds
            >>= elim [
              | none ↦ ret tt
              | some c ↦
                  work_loop me (get_or s.workers me.worker_index no_worker).service draws rounds
                  >> release_counter me c (get_or s.workers me.worker_index no_worker).service
            ])
          λ s i.
            bind_keeps n I _ _
              (claim_keeps n me (get_or s.workers me.worker_index no_worker).service rounds)
              (elim [
                | none ↦ ret_keeps n I tt
                | some c ↦
                    then_keeps n I _ _
                      (work_keeps me (get_or s.workers me.worker_index no_worker).service draws
                        rounds (i.known_services me.worker_index))
                      (release_keeps n me c (get_or s.workers me.worker_index no_worker).service)
              ]))
        (insist_keeps n _)

  day_loop_keeps :
      (me : Identity) (draws : ℕ → ℕ → Draw) (rounds days : ℕ)
      → Sound (day_loop me draws rounds days)
  unfolding day_loop wait_for_next_day
  day_loop_keeps me draws rounds zero = wait_keeps n I (Unit {0})
  day_loop_keeps me draws rounds (suc days) = own_flags_keeps n I _ λ f.
      if_keeps n I f.terminate_requested _ _ (ret_keeps n I tt) (
        then_keeps n I _ _ (suspend_until_keeps handle_operator_signal may_start n I []) (
          own_flags_keeps n I _ λ f'. if_keeps n I f'.terminate_requested _ _ (ret_keeps n I tt) (
            then_keeps n I _ _
              (set_flags_keeps (λ g. record g { day_started = false; day_stop_requested = false }))
              (then_keeps n I _ _ (run_day_keeps me (draws days) rounds)
                (day_loop_keeps me draws rounds days)))))

  pub operator_keeps :
      (me : Identity) (draws : ℕ → ℕ → Draw) (rounds days : ℕ) → Sound (main me draws rounds days)
  unfolding main send_director_message
  operator_keeps me draws rounds days =
      then_keeps n I _ _ (insist_keeps n _) (day_loop_keeps me draws rounds days)

-- Whatever the other processes do that keeps the shared state sound, and whatever signals and
-- failures come, an operator keeps it sound for any number of days and of rounds in each of them,
-- whether he has returned, exited or still waits; and he keeps the discipline of the locks: he
-- counts in the statistics only while he holds their mutex, and pops from a queue only while he
-- holds the mutex of that queue.
pub operator-IsSound :
    {D : Type 0} ⦃float : Floating D⦄ (n : ℕ) (me : Identity) (draws : ℕ → ℕ → Draw)
    (rounds days : ℕ) (w : World Flags D)
    → IsSound n w.shared
    → Keeps (IsSound n) w.script
    → IsGuarded n w.trace
    → Post
        (λ _ w'. IsSound n w'.shared × IsGuarded n w'.trace)
        (λ w'. IsSound n w'.shared × IsGuarded n w'.trace)
        (main me draws rounds days w)
operator-IsSound n me draws rounds days w i k g =
    keeps_ends n (IsSound n) (main me draws rounds days) (operator_keeps n me draws rounds days) w i
      k g
