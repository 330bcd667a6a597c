-- ===== src/Director/Safety.antt =====
-- The parts of a day of the director keep the shared state sound, and the discipline of the locks.
use operative_system_project.Prelude.{
  refl, ℕ, false, zero, suc, get_or, set, length-set, List, ◌<◌, ◌+◌, if◌then◌else◌, ◌≤◌, arith,
  ltb, replicate, length, ◌==◌, map, subst, sym, inl, inr, [], ◌∷◌,
}
use operative_system_project.Prelude.Int.{ℤ}
use operative_system_project.Queue
use operative_system_project.Shared.Soundness
use operative_system_project.Director.{
  Flags, handle_director_signal, reset_worker, set_sem_value, sem_up, sem_down, lock_stats,
  unlock_stats, reset_workers_day_state, send_signal_to_users, send_signal_to_workers,
  assign_counters, reset_queue, open_services, assign_daily_counters, send_user_reply, pop_ticket,
  mark_not_served, flush_queue, flush_services, flush_pending_users, count_services,
  count_pending_users, seats, live,
}
use operative_system_project.Shared.{Shared, queue_of}
use operative_system_project.Process.{
  Proc, require, Signal, peek, ◌>>◌, commit, ◌>>=◌, signalled, ret, popped, wrote, exit_failure,
  got, stopped, failed, counted,
}
use operative_system_project.Process.Guarded.{In}
use operative_system_project.Process.Keeping.{
  peek_keeps, commit_keeps, ret_keeps, KeepsAll, Moves, then_keeps, wait_keeps, raise_keeps,
  lower_keeps, send_keeps, bind_keeps, if_keeps, exit_keeps, forget_keeps,
}
use operative_system_project.Commons.{UserReplyStatus, service_count}
use operative_system_project.Shared.Soundness.{IsSound, IsSound-IsKept}
use operative_system_project.Queue.Invariant.{reset-IsValid, pop-IsValid}
use operative_system_project.Stats.{refuses}
use operative_system_project.Stats.Consistency.{count_not_served-IsConsistent}
use operative_system_project.Commons.Semaphores.{
  counter_mutex_sem, layout, stats_mutex_sem, service_jobs_sem, service_queue_mutex_sem,
  service_free_counter_sem,
}

module _ {D : Type 0} (n : ℕ) where
  abbrev I : Shared D → Type 0
  I = IsSound n

  abbrev Sound : {A : Type 0} → Proc Flags D A → Type 0
  Sound m = KeepsAll n I m

  pub set_sem_keeps : (k v : ℕ) → Sound (set_sem_value k v)
  unfolding set_sem_value
  set_sem_keeps k v =
      peek_keeps n I
        (λ s.
          if ltb k (length s.sems)
          then commit (λ s'. record s' { sems = set s'.sems k v }) wrote
          else exit_failure)
        λ s i.
          if_keeps n I (ltb k (length s.sems)) _ _
            (commit_keeps n I _ wrote tt
              (λ s' i'. Soundness.by_sems i' (set s'.sems k v) (length-set s'.sems k v)))
            (exit_keeps n I (Unit {0}))

  pub set_sem_at_keeps :
      (place : Shared D → ℕ) (value : ℕ) → Sound (peek >>= λ s. set_sem_value (place s) value)
  set_sem_at_keeps place value =
      peek_keeps n I (λ s. set_sem_value (place s) value) λ s i. set_sem_keeps (place s) value

  up_keeps : {ks : List ℕ} (k : ℕ) → ¬ (In k ks) → Moves n I ks ks (require (sem_up k))
  unfolding sem_up
  up_keeps k out =
      raise_keeps n I handle_director_signal (λ f. f.shutdown_requested) (IsSound-IsKept n) k _ out
        (elim [
          | got _ ↦ ret_keeps n I tt
          | stopped ↦ exit_keeps n I (Unit {0})
          | failed ↦ exit_keeps n I (Unit {0})
        ])

  -- After the lock the process holds the semaphore.
  down_keeps : {ks : List ℕ} (k : ℕ) → Moves n I ks (k ∷ ks) (require (sem_down k))
  unfolding sem_down
  down_keeps k =
      lower_keeps n I handle_director_signal (λ f. f.shutdown_requested) (IsSound-IsKept n) k _
        (ret_keeps n I tt) (exit_keeps n I (Unit {0})) (exit_keeps n I (Unit {0}))

  up_at_keeps :
      {ks : List ℕ} (place : ℕ → ℕ)
      → ¬ (In (place n) ks)
      → Moves n I (place n ∷ ks) ks (peek >>= λ s. require (sem_up (place (seats s))))
  up_at_keeps {ks} place out = forget_keeps n I (place n) _ (
      peek_keeps n I (λ s. require (sem_up (place (seats s))))
        λ s i.
          subst (λ m. Moves n I ks ks (require (sem_up (place m)))) (sym i.fixed)
            (up_keeps (place n) out))

  down_at_keeps :
      {ks : List ℕ} (place : ℕ → ℕ)
      → Moves n I ks (place n ∷ ks) (peek >>= λ s. require (sem_down (place (seats s))))
  down_at_keeps {ks} place =
      peek_keeps n I (λ s. require (sem_down (place (seats s))))
        λ s i.
          subst (λ m. Moves n I ks (place n ∷ ks) (require (sem_down (place m)))) (sym i.fixed)
            (down_keeps (place n))

  -- What is done between the lock and the unlock of the statistics.
  pub under_stats :
      {ks : List ℕ} (m : Proc Flags D (Unit {0}))
      → ¬ (In (stats_mutex_sem n) ks)
      → Moves n I (stats_mutex_sem n ∷ ks) (stats_mutex_sem n ∷ ks) m
      → Moves n I ks ks (lock_stats >> (m >> unlock_stats))
  unfolding lock_stats unlock_stats
  under_stats m out h =
      then_keeps n I _ _ (down_at_keeps stats_mutex_sem)
        (then_keeps n I _ _ h (up_at_keeps stats_mutex_sem out))

  -- What is read under the lock of the statistics.
  pub read_stats_keeps :
      {A : Type 0} (g : Shared D → A)
      → Sound (lock_stats >> (peek >>= λ s. unlock_stats >> ret (g s)))
  unfolding lock_stats unlock_stats
  read_stats_keeps g = then_keeps n I _ _ (down_at_keeps stats_mutex_sem) (
      peek_keeps n I (λ s. unlock_stats >> ret (g s))
        λ s i. then_keeps n I _ _ (up_at_keeps stats_mutex_sem (λ x. x)) (ret_keeps n I (g s)))

  pub workers_keeps : Sound reset_workers_day_state
  unfolding reset_workers_day_state reset_worker
  workers_keeps =
      commit_keeps n I _ wrote tt (λ s v. Soundness.by_all_workers v reset_worker (λ w. refl))

  pub signal_workers_keeps : (sig : Signal) → Sound (send_signal_to_workers sig)
  unfolding send_signal_to_workers
  signal_workers_keeps sig =
      peek_keeps n I (λ s. commit (λ s'. s') (signalled sig (live (map (λ u. u.pid) s.workers))))
        λ s i. commit_keeps n I _ _ tt (λ s' v. v)

  pub signal_users_keeps : (sig : Signal) → Sound (send_signal_to_users sig)
  unfolding send_signal_to_users
  signal_users_keeps sig =
      peek_keeps n I (λ s. commit (λ s'. s') (signalled sig (live (map (λ u. u.pid) s.users))))
        λ s i. commit_keeps n I _ _ tt (λ s' v. v)

  assign_keeps :
      (draw : ℕ → ℕ) (i left : ℕ) (counts : List ℕ) → Sound (assign_counters draw i left counts)
  unfolding assign_counters
  assign_keeps draw i zero counts = ret_keeps n I counts
  assign_keeps draw i (suc left) counts = then_keeps n I _ _ (down_keeps (counter_mutex_sem i)) (
      forget_keeps n I (counter_mutex_sem i) _ (
        then_keeps n I _ _ (commit_keeps n I _ wrote tt (λ s v. Soundness.by_counters v _)) (
          then_keeps n I _ _ (up_keeps (counter_mutex_sem i) (λ x. x))
            (assign_keeps draw (i + 1) left _))))

  pub reset_queue_keeps : (service : ℕ) → service < service_count → Sound (reset_queue service)
  unfolding reset_queue
  reset_queue_keeps service lt =
      commit_keeps n I _ wrote tt (λ s v. Soundness.by_queue v service _ lt (reset-IsValid _))

  open_keeps :
      (counts : List ℕ) (service left : ℕ)
      → service + left ≤ service_count
      → Sound (open_services counts service left)
  unfolding open_services
  open_keeps counts service zero lt = ret_keeps n I tt
  open_keeps counts service (suc left) lt =
      then_keeps n I _ _ (set_sem_at_keeps (λ s. service_jobs_sem (seats s) service) 0) (
        then_keeps n I _ _
          (set_sem_at_keeps (λ s. service_free_counter_sem (seats s) service)
            (get_or counts service 0))
          (then_keeps n I _ _ (reset_queue_keeps service (omega (arith, lt)))
            (open_keeps counts (service + 1) left (omega (arith, lt)))))

  pub assign_daily_keeps : (draw : ℕ → ℕ) → Sound (assign_daily_counters draw)
  unfolding assign_daily_counters
  assign_daily_keeps draw =
      peek_keeps n I
        (λ s. assign_counters draw 0 (seats s) (replicate service_count 0) >>= λ counts.
          open_services counts 0 service_count >> ret counts)
        λ s i.
          bind_keeps n I (assign_counters draw 0 (seats s) (replicate service_count 0)) _
            (assign_keeps draw 0 (seats s) (replicate service_count 0))
            λ counts.
              then_keeps n I _ _ (open_keeps counts 0 service_count (omega arith))
                (ret_keeps n I counts)

  reply_keeps :
      {ks : List ℕ} (pid : ℤ) (status : UserReplyStatus) (service : ℕ)
      → Moves n I ks ks (send_user_reply pid status service)
  unfolding send_user_reply
  reply_keeps pid status service =
      send_keeps n I handle_director_signal (λ _. false) (IsSound-IsKept n) _ _
        (elim [
          | got _ ↦ ret_keeps n I tt
          | stopped ↦ exit_keeps n I (Unit {0})
          | failed ↦ exit_keeps n I (Unit {0})
        ])

  pop_keeps :
      (service : ℕ)
      → service < service_count
      → Moves n I
          (service_queue_mutex_sem n service ∷ [])
          (service_queue_mutex_sem n service ∷ [])
          (pop_ticket service)
  unfolding pop_ticket
  pop_keeps service lt =
      peek_keeps n I
        (λ x.
          commit
            (λ s'. record s' { queues = set s'.queues service (Queue.pop (queue_of service x)).1 })
            (popped service)
          >> ret (Queue.pop (queue_of service x)).0)
        λ s i.
          then_keeps n I _ _
            (commit_keeps n I
              (λ s'. record s' {
                queues = set s'.queues service (Queue.pop (queue_of service s)).1;
              })
              (popped service) (inl refl)
              (λ s' v. Soundness.by_queue v service _ lt (pop-IsValid (i.valid_queues service lt))))
            (ret_keeps n I (Queue.pop (queue_of service s)).0)

  -- The mutex of the statistics is not that of the queue, which the process holds.
  mark_keeps :
      (service : ℕ)
      → service < service_count
      → Moves n I
          (service_queue_mutex_sem n service ∷ [])
          (service_queue_mutex_sem n service ∷ [])
          (mark_not_served service)
  unfolding mark_not_served
  mark_keeps service lt = under_stats _ not_held (
      commit_keeps n I _ (counted (refuses service)) (inl refl) (λ s v.
        Soundness.by_stats v _ (count_not_served-IsConsistent service s.stats lt v.consistent)))
    where
      not_held : ¬ (In (stats_mutex_sem n) (service_queue_mutex_sem n service ∷ []))
      not_held (inl e) = (layout n service lt).queue-ne-stats (sym e)
      not_held (inr x) = x

  flush_queue_keeps :
      (service rounds total : ℕ)
      → service < service_count
      → Moves n I
          (service_queue_mutex_sem n service ∷ [])
          (service_queue_mutex_sem n service ∷ [])
          (flush_queue service rounds total)
  unfolding flush_queue
  flush_queue_keeps service zero total lt = wait_keeps n I ℕ
  flush_queue_keeps service (suc rounds) total lt =
      peek_keeps n I
        (λ s.
          if Queue.queue_length (queue_of service s) == 0
          then ret total
          else (pop_ticket service >>= λ ticket.
              send_user_reply ticket.user_pid UserReplyStatus.not_served service
              >> (mark_not_served service >> flush_queue service rounds (total + 1))))
        λ s i.
          if_keeps n I (Queue.queue_length (queue_of service s) == 0) _ _ (ret_keeps n I total) (
            bind_keeps n I (pop_ticket service) _ (pop_keeps service lt) λ ticket.
              then_keeps n I _ _ (reply_keeps ticket.user_pid UserReplyStatus.not_served service) (
                then_keeps n I _ _ (mark_keeps service lt)
                  (flush_queue_keeps service rounds (total + 1) lt)))

  flush_services_keeps :
      (rounds service left total : ℕ)
      → service + left ≤ service_count
      → Sound (flush_services rounds service left total)
  unfolding flush_services
  flush_services_keeps rounds service zero total lt = ret_keeps n I total
  flush_services_keeps rounds service (suc left) total lt =
      then_keeps n I _ _ (down_at_keeps (λ k. service_queue_mutex_sem k service)) (
        bind_keeps n I _ _ (flush_queue_keeps service rounds total (omega (arith, lt))) λ total'.
          then_keeps n I _ _ (up_at_keeps (λ k. service_queue_mutex_sem k service) (λ x. x)) (
            then_keeps n I _ _ (set_sem_at_keeps (λ s. service_jobs_sem (seats s) service) 0)
              (flush_services_keeps rounds (service + 1) left total' (omega (arith, lt)))))

  pub flush_keeps : (rounds : ℕ) → Sound (flush_pending_users rounds)
  unfolding flush_pending_users
  flush_keeps rounds = flush_services_keeps rounds 0 service_count 0 (omega arith)

  count_services_keeps : (service left total : ℕ) → Sound (count_services service left total)
  unfolding count_services
  count_services_keeps service zero total = ret_keeps n I total
  count_services_keeps service (suc left) total =
      then_keeps n I _ _ (down_at_keeps (λ k. service_queue_mutex_sem k service)) (
        peek_keeps n I
          (λ s.
            (peek >>= λ s'. require (sem_up (service_queue_mutex_sem (seats s') service)))
            >> count_services (service + 1) left (total + Queue.queue_length (queue_of service s)))
          λ s i.
            then_keeps n I _ _ (up_at_keeps (λ k. service_queue_mutex_sem k service) (λ x. x)) (
              count_services_keeps (service + 1) left
                (total + Queue.queue_length (queue_of service s))))

  pub count_keeps : Sound count_pending_users
  unfolding count_pending_users
  count_keeps = count_services_keeps 0 service_count 0
