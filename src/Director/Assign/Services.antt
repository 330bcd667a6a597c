-- ===== src/Director/Assign/Services.antt =====
-- assign_daily_counters of src/director.c, when its calls complete at once and nobody else runs.
use operative_system_project.Prelude.{
  ℕ, ◌+◌, ◌*◌, ◌<◌, ◌≡◌, refl, List, length, get_or, arith, ap, ◌∙◌, sum_of, replicate, subst, sym,
  length-replicate, get_or-replicate, sum_of-replicate,
}
use operative_system_project.Queue
use operative_system_project.Director.{
  Flags, open_services, assign_daily_counters, seats, assign_counters,
}
use operative_system_project.Director.Assign.{
  assigned, tallied, hits, offer, drawn, tallied_lem, assign_counters-Runs, assigned_lem,
  sum-tallied,
}
use operative_system_project.Shared.{Shared, queue_of, no_queue}
use operative_system_project.Process.Quiet.{value}
use operative_system_project.Commons.Semaphores.{
  service_jobs_sem, service_free_counter_sem, total_sems, counter_mutex_sem,
}
use operative_system_project.Process.Runs.{
  Runs, ret-Runs, then_steps, recount, peek-Runs, bind-Runs,
}
use operative_system_project.Process.{◌>>=◌, ◌>>◌, ret}
use operative_system_project.Commons.{service_count, Counter}
use operative_system_project.Operator.{no_counter}
use operative_system_project.Director.Assign.Opened.{open_services-Runs}

-- After the assignment, `counts` are the numbers of counters that offer each service.
pub record IsAssigned {D : Type 0} (n : ℕ) (draw : ℕ → ℕ) (counts : List ℕ) (s : Shared D)
    : Type 0 where
  -- Every counter offers the service drawn for it, which exists, and is free.
  pub offered :
      (i : ℕ) → i < n → (c : Counter) × (get_or s.counters i no_counter ≡ offer (drawn draw i) c)
  -- The counters offering a service, its permits and its entry in `counts` are as many.
  pub counted :
      (service : ℕ) → service < service_count → get_or counts service 0 ≡ hits draw service 0 n
  pub permits :
      (service : ℕ)
      → service < service_count
      → value (service_free_counter_sem n service) s ≡ hits draw service 0 n
  pub all_counted : sum_of (λ c. c) counts ≡ n
  pub no_jobs : (service : ℕ) → service < service_count → value (service_jobs_sem n service) s ≡ 0
  pub empty : (service : ℕ) → service < service_count → queue_of service s ≡ Queue.reset no_queue

-- With the semaphore set of the director, as many counters as seats, the mutexes of the counters
-- free, and all calls complete at once with nobody else at work, assign_daily_counters returns the
-- numbers of counters that offer each service. Every counter offers the service drawn for it and is
-- free; as many operators can claim a counter of a service as there are; no queue holds a ticket and
-- no service has a job.
pub assign_daily_counters-Runs :
    {D : Type 0} (n : ℕ) (f : Flags) (draw : ℕ → ℕ) (s : Shared D)
    → seats s ≡ n
    → length s.sems ≡ total_sems n
    → length s.counters ≡ n
    → length s.queues ≡ service_count
    → ((i : ℕ) → i < n → 0 < value (counter_mutex_sem i) s)
    → (counts : List ℕ) × (s' : Shared D) × Runs (assign_daily_counters draw) f s (2 * n) counts s'
      × IsAssigned n draw counts s'
unfolding assign_daily_counters total_sems
assign_daily_counters-Runs {D} n f draw s fixed size many six free =
    let zeros : List ℕ = replicate service_count 0 in
    let counts = tallied draw 0 n zeros in
    let mid : Shared D = record s { counters = assigned draw 0 n s.counters } in
    let (s', rest, o) =
      open_services-Runs n f counts 0 service_count mid fixed size six (omega arith) in
    let sized : length zeros ≡ service_count = length-replicate service_count 0 in
    let tally = λ (service : ℕ) (h : service < service_count).
      tallied_lem draw service 0 n zeros (omega (arith, h, sized)) in
    let unused = λ (service : ℕ). get_or-replicate {A = ℕ} service_count 0 service in
    let first =
      subst (λ m. Runs (assign_counters draw 0 m zeros) f s (2 * n) counts mid) (sym fixed)
        (assign_counters-Runs n f draw 0 n zeros s (omega (arith, size))
          (λ j low high. free j (omega (arith, high)))) in
    (
      counts,
      s',
      recount _ f s s' (2 * n + (0 + 0)) (2 * n) counts counts (omega arith) refl (
          peek-Runs
            (λ r. assign_counters draw 0 (seats r) zeros >>= λ c.
              open_services c 0 service_count >> ret c)
            f s s' (2 * n + (0 + 0)) counts
            (bind-Runs (assign_counters draw 0 (seats s) zeros) _ f s mid s' (2 * n) (0 + 0) counts
              counts first
              (then_steps (open_services counts 0 service_count) (ret counts) f mid s' s' 0 0 counts
                rest (ret-Runs counts f s')))),
      record {
        offered = λ i h.
            let (c, e) =
              assigned_lem draw 0 n i s.counters (omega arith) (omega (arith, h))
                (omega (arith, many)) in
            (c, ap (λ cs. get_or cs i no_counter) o.same_counters ∙ e);
        counted = λ service h. omega (arith, tally service h, unused service);
        permits = λ service h.
            o.permits service (omega arith) (omega (arith, h))
            ∙ omega (arith, tally service h, unused service);
        all_counted = omega (
          arith,
          sum-tallied draw 0 n zeros sized,
          sum_of-replicate (λ c. c) 0 refl service_count,
        );
        no_jobs = λ service h. o.no_jobs service (omega arith) (omega (arith, h));
        empty = λ service h. o.empty service (omega arith) (omega (arith, h));
      },
    )
