-- ===== src/Director/Start.antt =====
-- initialize_shared_state of src/director.c: the shared state before the other processes start.
use operative_system_project.Prelude.{
  ℕ, ◌+◌, ◌%◌, ◌≡◌, ◌<◌, zero, suc, false, replicate, tabulate, length, get_or, ◌≤◌, arith,
  length-replicate, ◌∷◌, get_or-replicate_in, if◌then◌else◌, ltb, set, length-set,
}
use operative_system_project.Prelude.Int.{pos, negsuc, ◌+ℤ◌, ◌-ℤ◌, pos_part}
use operative_system_project.Queue
use operative_system_project.Director.{Flags, set_sem_value, reset_queue, seats, exit_failure}
use operative_system_project.Stats.{Floating, zero_stats}
use operative_system_project.Process.{Proc, ret, commit, peek, World, ◌>>=◌, wrote, ◌>>◌}
use operative_system_project.Shared.{Shared, no_worker, no_queue}
use operative_system_project.Process.Preserving.{
  Preserves, ret_step, then_step, peek_step, commit_step, if_step, exit_step,
}
use operative_system_project.Commons.{WorkerInfo, service_count}
use operative_system_project.Shared.Soundness.{IsSound}
use operative_system_project.Commons.Semaphores.{
  counter_mutex_sem, total_sems, service_queue_mutex_sem, service_jobs_sem, stats_mutex_sem,
  service_free_counter_sem,
}
use operative_system_project.Shared.Soundness
use operative_system_project.Process.Post.{Keeps, Post, Post-mono}
use operative_system_project.Stats.Consistency.{zero_stats-IsConsistent}
use operative_system_project.Queue.Invariant.{IsValid, reset-IsValid}

-- What rand returns for the workers and for the users.
pub record StartDraw : Type 0 where
  pub service : ℕ → ℕ
  pub probability : ℕ → ℕ

module _ {D : Type 0} ⦃float : Floating D⦄ where
  -- The memory: the calls of memset, and the loops over counters, workers and users.
  unfoldable pub clear_memory : StartDraw → Shared D → Shared D
  clear_memory draw s = record s {
    counters =
        tabulate (seats s)
          (λ i. record { counter_id = i; service = negsuc 0; worker_pid = negsuc 0 });
    workers = tabulate (pos_part s.config.nof_workers) (λ i. record {
      pid = pos 0;
      service = draw.service i % service_count;
      pauses_taken = 0;
      pauses_today = 0;
      active_today = false;
      active_ever = false;
      current_counter = negsuc 0;
    });
    users = tabulate (pos_part s.config.nof_users) (λ i. record {
      pid = pos 0;
      go_probability =
          s.config.p_serv_min
          +ℤ pos
              (draw.probability i % pos_part (s.config.p_serv_max -ℤ s.config.p_serv_min +ℤ pos 1));
    });
    stats = zero_stats;
    queues = replicate service_count (Queue.reset no_queue);
  }

module _ {D : Type 0} where
  -- The loop over the mutexes of the counters, from counter `i` on.
  unfoldable pub free_counters : ℕ → ℕ → Proc Flags D (Unit {0})
  free_counters i zero = ret tt
  free_counters i (suc left) = set_sem_value (counter_mutex_sem i) 1 >> free_counters (i + 1) left

  -- The loop over the services, from the given one on.
  unfoldable pub free_services : ℕ → ℕ → Proc Flags D (Unit {0})
  free_services service zero = ret tt
  free_services service (suc left) =
      (peek >>= λ s. set_sem_value (service_queue_mutex_sem (seats s) service) 1)
      >> ((peek >>= λ s. set_sem_value (service_jobs_sem (seats s) service) 0)
          >> ((peek >>= λ s. set_sem_value (service_free_counter_sem (seats s) service) 0)
              >> (reset_queue service >> free_services (service + 1) left)))

  unfoldable pub initialize_shared_state :
      ⦃float : Floating D⦄ → StartDraw → Proc Flags D (Unit {0})
  initialize_shared_state draw =
      commit (clear_memory draw) wrote
      >> ((peek >>= λ s. free_counters 0 (seats s))
          >> (free_services 0 service_count
              >> (peek >>= λ s. set_sem_value (stats_mutex_sem (seats s)) 1)))

  module _ (n : ℕ) where
    abbrev I : Shared D → Type 0
    I = IsSound n

    set_sem_keeps : (k v : ℕ) → Preserves I (set_sem_value k v)
    unfolding set_sem_value
    set_sem_keeps k v =
        peek_step I
          (λ s.
            if ltb k (length s.sems)
            then commit (λ s'. record s' { sems = set s'.sems k v }) wrote
            else exit_failure)
          λ s i.
            if_step I (ltb k (length s.sems)) _ _
              (commit_step I _ _
                (λ s' i'. Soundness.by_sems i' (set s'.sems k v) (length-set s'.sems k v)))
              (exit_step I (Unit {0}))

    set_sem_at_keeps :
        (place : Shared D → ℕ) (value : ℕ)
        → Preserves I (peek >>= λ s. set_sem_value (place s) value)
    set_sem_at_keeps place value =
        peek_step I (λ s. set_sem_value (place s) value) λ s i. set_sem_keeps (place s) value

    reset_queue_keeps : (service : ℕ) → service < service_count → Preserves I (reset_queue service)
    unfolding reset_queue
    reset_queue_keeps service lt =
        commit_step I _ _ (λ s v. Soundness.by_queue v service _ lt (reset-IsValid _))

    counters_keeps : (i left : ℕ) → Preserves I (free_counters i left)
    unfolding free_counters
    counters_keeps i zero = ret_step I tt
    counters_keeps i (suc left) =
        then_step I _ _ (set_sem_keeps (counter_mutex_sem i) 1) (counters_keeps (i + 1) left)

    services_keeps :
        (service left : ℕ)
        → service + left ≤ service_count
        → Preserves I (free_services service left)
    unfolding free_services
    services_keeps service zero lt = ret_step I tt
    services_keeps service (suc left) lt =
        then_step I _ _ (set_sem_at_keeps (λ s. service_queue_mutex_sem (seats s) service) 1) (
          then_step I _ _ (set_sem_at_keeps (λ s. service_jobs_sem (seats s) service) 0) (
            then_step I _ _ (set_sem_at_keeps (λ s. service_free_counter_sem (seats s) service) 0) (
              then_step I _ _ (reset_queue_keeps service (omega (arith, lt)))
                (services_keeps (service + 1) left (omega (arith, lt))))))

    semaphores_keeps : Preserves I (
        (peek >>= λ s. free_counters 0 (seats s))
        >> (free_services 0 service_count
            >> (peek >>= λ s. set_sem_value (stats_mutex_sem (seats s)) 1)))
    semaphores_keeps =
        then_step I _ _
          (peek_step I (λ s. free_counters 0 (seats s)) λ s i. counters_keeps 0 (seats s))
          (then_step I _ _ (services_keeps 0 service_count (omega arith))
            (set_sem_at_keeps (λ s. stats_mutex_sem (seats s)) 1))

known :
    (f : ℕ → WorkerInfo)
    → ((i : ℕ) → (f i).service < service_count)
    → (k j : ℕ) → (get_or (tabulate k f) j no_worker).service < service_count
unfolding tabulate
known f h zero j = omega arith
known f h (suc k) zero = h 0
known f h (suc k) (suc j) = known (λ i. f (suc i)) (λ i. h (suc i)) k j

clear_memory-IsSound :
    {D : Type 0} ⦃float : Floating D⦄ (n : ℕ) (draw : StartDraw) (s : Shared D)
    → seats s ≡ n
    → length s.sems ≡ total_sems n
    → IsSound n (clear_memory draw s)
unfolding clear_memory
clear_memory-IsSound n draw s e l = record {
  fixed = e;
  sem_set = l;
  six_queues = length-replicate service_count (Queue.reset no_queue);
  valid_queues = λ i h.
      get_or-replicate_in IsValid service_count i (Queue.reset no_queue) no_queue h
        (reset-IsValid no_queue);
  consistent = zero_stats-IsConsistent;
  known_services = known _ (λ i. omega arith) (pos_part s.config.nof_workers);
}

-- Once the semaphore set has been created, initialize_shared_state makes the shared state sound,
-- whatever the memory held before and whatever rand returns.
pub initialize-IsSound :
    {D : Type 0} ⦃float : Floating D⦄ (n : ℕ) (draw : StartDraw) (w : World Flags D)
    → seats w.shared ≡ n
    → length w.shared.sems ≡ total_sems n
    → Keeps (IsSound n) w.script
    → Post
        (λ _ w'. IsSound n w'.shared)
        (λ w'. IsSound n w'.shared)
        (initialize_shared_state draw w)
unfolding initialize_shared_state
initialize-IsSound n draw w e l k =
    Post-mono (λ _ w'. IsSound n w'.shared × Keeps (IsSound n) w'.script)
      (λ _ w'. IsSound n w'.shared) (λ w'. IsSound n w'.shared) (λ w'. IsSound n w'.shared) _
      ((semaphores_keeps n).run
        (record w { shared = clear_memory draw w.shared; trace = wrote ∷ w.trace })
        (clear_memory-IsSound n draw w.shared e l) k)
      (λ _ w' g. g.0) (λ w' h. h)
