-- ===== src/Director/Assign/Opened.antt =====
-- The second loop of assign_daily_counters in src/director.c, when its calls complete at once and
-- nobody else runs: the services are opened.
use native.Mathlib.Decide.{ℕ_discrete}
use operative_system_project.Prelude.{
  ℕ, ◌+◌, ◌<◌, ◌≤◌, ◌≡◌, refl, List, zero, suc, set, length, get_or, arith, ◌∙◌, subst, sym,
  length-set, get_or-set_ne, get_or-set_self,
}
use operative_system_project.Queue
use operative_system_project.Director.{Flags, open_services, reset_queue, seats, set_sem_value}
use operative_system_project.Shared.{Shared, queue_of, no_queue}
use operative_system_project.Process.Quiet.{value}
use operative_system_project.Commons.Semaphores.{
  service_jobs_sem, service_free_counter_sem, total_sems, layout,
}
use operative_system_project.Process.Runs.{Runs, commit-Runs, ret-Runs, then_steps}
use operative_system_project.Process.{Proc, peek, ◌>>=◌, wrote, ◌>>◌}
use operative_system_project.Commons.{service_count}
use operative_system_project.Director.Flush.Pending.{set_sem-Runs}

-- The services from `service` on are opened with these numbers of counters.
pub record IsOpened {D : Type 0} (n service left : ℕ) (counts : List ℕ) (s s' : Shared D)
    : Type 0 where
  pub same_config : s'.config ≡ s.config
  pub same_counters : s'.counters ≡ s.counters
  pub sem_set : length s'.sems ≡ length s.sems
  pub six_queues : length s'.queues ≡ length s.queues
  pub no_jobs : (i : ℕ) → service ≤ i → i < service + left → value (service_jobs_sem n i) s' ≡ 0
  pub permits :
      (i : ℕ)
      → service ≤ i
      → i < service + left
      → value (service_free_counter_sem n i) s' ≡ get_or counts i 0
  pub empty : (i : ℕ) → service ≤ i → i < service + left → queue_of i s' ≡ Queue.reset no_queue
  pub kept :
      (i : ℕ)
      → i < service
      → (value (service_jobs_sem n i) s' ≡ value (service_jobs_sem n i) s)
        × (value (service_free_counter_sem n i) s' ≡ value (service_free_counter_sem n i) s)
        × (queue_of i s' ≡ queue_of i s)

module _ {D : Type 0} (n : ℕ) (f : Flags) (counts : List ℕ) where
  module _ (service : ℕ) (s : Shared D) where
    abbrev opened : Shared D
    opened = record s {
      sems =
          set (set s.sems (service_jobs_sem n service) 0) (service_free_counter_sem n service)
            (get_or counts service 0);
      queues = set s.queues service (Queue.reset (queue_of service s));
    }

    reset_queue-Runs :
        (r : Shared D)
        → Runs
            (reset_queue service)
            f
            r
            0
            tt
            (record r { queues = set r.queues service (Queue.reset (queue_of service r)) })
    unfolding reset_queue
    reset_queue-Runs r = commit-Runs _ wrote f r

    set_at :
        (place : ℕ → ℕ) (v : ℕ) (r : Shared D)
        → seats r ≡ n
        → place n < length r.sems
        → Runs
            (peek >>= λ x. set_sem_value (place (seats x)) v)
            f
            r
            0
            tt
            (record r { sems = set r.sems (place n) v })
    set_at place v r fixed h =
        subst
          (λ m.
            Runs (peek >>= λ x. set_sem_value (place (seats x)) v) f r 0 tt
              (record r { sems = set r.sems (place m) v }))
          fixed
          (set_sem-Runs f (λ x. place (seats x)) v r
            (subst (λ m. place m < length r.sems) (sym fixed) h))

    this_opened :
        length s.sems ≡ total_sems n
        → length s.queues ≡ service_count
        → service < service_count
        → (value (service_jobs_sem n service) opened ≡ 0)
          × (value (service_free_counter_sem n service) opened ≡ get_or counts service 0)
          × (queue_of service opened ≡ Queue.reset no_queue)
    unfolding service_jobs_sem service_free_counter_sem total_sems Queue.reset
    this_opened size six known = (
      get_or-set_ne (set s.sems (service_jobs_sem n service) 0) (service_free_counter_sem n service)
            (service_jobs_sem n service) _ 0 (omega (arith, known))
          ∙ get_or-set_self s.sems (service_jobs_sem n service) 0 0 (omega (arith, size, known)),
      get_or-set_self (set s.sems (service_jobs_sem n service) 0)
          (service_free_counter_sem n service) (get_or counts service 0) 0
          (omega (arith, size, known, length-set s.sems (service_jobs_sem n service) 0)),
      get_or-set_self s.queues service (Queue.reset (queue_of service s)) no_queue
          (omega (arith, six, known)),
    )

    others_opened :
        (i : ℕ)
        → i < service
        → service < service_count
        → (value (service_jobs_sem n i) opened ≡ value (service_jobs_sem n i) s)
          × (value (service_free_counter_sem n i) opened ≡ value (service_free_counter_sem n i) s)
          × (queue_of i opened ≡ queue_of i s)
    unfolding service_jobs_sem service_free_counter_sem
    others_opened i lt known = (
      get_or-set_ne (set s.sems (service_jobs_sem n service) 0) (service_free_counter_sem n service)
            (service_jobs_sem n i) _ 0 (omega (arith, lt, known))
          ∙ get_or-set_ne s.sems (service_jobs_sem n service) (service_jobs_sem n i) 0 0
              (omega (arith, lt)),
      get_or-set_ne (set s.sems (service_jobs_sem n service) 0) (service_free_counter_sem n service)
            (service_free_counter_sem n i) _ 0 (omega (arith, lt))
          ∙ get_or-set_ne s.sems (service_jobs_sem n service) (service_free_counter_sem n i) 0 0
              (omega (arith, lt, known)),
      get_or-set_ne s.queues service i _ no_queue (omega (arith, lt)),
    )

    one-Runs :
        (g : Proc Flags D (Unit {0})) (s'' : Shared D)
        → seats s ≡ n
        → length s.sems ≡ total_sems n
        → service < service_count
        → Runs g f opened 0 tt s''
        → Runs
            ((peek >>= λ x. set_sem_value (service_jobs_sem (seats x) service) 0)
              >> ((peek >>= λ x.
                    set_sem_value
                      (service_free_counter_sem (seats x) service)
                      (get_or counts service 0))
                  >> (reset_queue service >> g)))
            f
            s
            0
            tt
            s''
    one-Runs g s'' fixed size known rest =
        then_steps _ _ f s (record s { sems = set s.sems (service_jobs_sem n service) 0 }) s'' 0 0
          tt
          (set_at (λ m. service_jobs_sem m service) 0 s fixed
            (omega (arith, size, (layout n service known).jobs_in)))
          (then_steps _ _ f (record s { sems = set s.sems (service_jobs_sem n service) 0 })
            (record s { sems = opened.sems }) s'' 0 0 tt
            (set_at (λ m. service_free_counter_sem m service) (get_or counts service 0)
              (record s { sems = set s.sems (service_jobs_sem n service) 0 }) fixed
              (omega (
                arith,
                size,
                length-set s.sems (service_jobs_sem n service) 0,
                (layout n service known).free_in,
              )))
            (then_steps (reset_queue service) g f (record s { sems = opened.sems }) opened s'' 0 0
              tt (reset_queue-Runs (record s { sems = opened.sems })) rest))

  pub open_services-Runs :
      (service left : ℕ) (s : Shared D)
      → seats s ≡ n
      → length s.sems ≡ total_sems n
      → length s.queues ≡ service_count
      → service + left ≤ service_count
      → (s' : Shared D) × Runs (open_services counts service left) f s 0 tt s'
        × IsOpened n service left counts s s'
  unfolding open_services
  open_services-Runs service zero s fixed size six inside = (
    s,
    ret-Runs tt f s,
    record {
      same_config = refl;
      same_counters = refl;
      sem_set = refl;
      six_queues = refl;
      no_jobs = λ i low high. absurd (omega (arith, low, high));
      permits = λ i low high. absurd (omega (arith, low, high));
      empty = λ i low high. absurd (omega (arith, low, high));
      kept = λ i low. (refl, refl, refl);
    },
  )
  open_services-Runs service (suc left) s fixed size six inside =
      let known : service < service_count = omega (arith, inside) in
      let o : Shared D = opened service s in
      let first = set s.sems (service_jobs_sem n service) 0 in
      let sized : length o.sems ≡ length s.sems =
        length-set first (service_free_counter_sem n service) (get_or counts service 0)
        ∙ length-set s.sems (service_jobs_sem n service) 0 in
      let queues : length o.queues ≡ length s.queues =
        length-set s.queues service (Queue.reset (queue_of service s)) in
      let (s', rest, fl) =
        open_services-Runs (service + 1) left o fixed (sized ∙ size) (queues ∙ six)
          (omega (arith, inside)) in
      let (jobs, free, fresh) = this_opened service s size six known in
      let (a, b, c) = fl.kept service (omega arith) in
      (
        s',
        one-Runs service s (open_services counts (service + 1) left) s' fixed size known rest,
        record {
          same_config = fl.same_config;
          same_counters = fl.same_counters;
          sem_set = fl.sem_set ∙ sized;
          six_queues = fl.six_queues ∙ queues;
          no_jobs = λ i low high. elim (ℕ_discrete i service) [
            | yes here ↦ subst (λ k. value (service_jobs_sem n k) s' ≡ 0) (sym here) (a ∙ jobs)
            | no ne ↦ fl.no_jobs i (omega (arith, low, ne)) (omega (arith, high))
          ];
          permits = λ i low high. elim (ℕ_discrete i service) [
            | yes here ↦
                subst (λ k. value (service_free_counter_sem n k) s' ≡ get_or counts k 0) (sym here)
                  (b ∙ free)
            | no ne ↦ fl.permits i (omega (arith, low, ne)) (omega (arith, high))
          ];
          empty = λ i low high. elim (ℕ_discrete i service) [
            | yes here ↦ subst (λ k. queue_of k s' ≡ Queue.reset no_queue) (sym here) (c ∙ fresh)
            | no ne ↦ fl.empty i (omega (arith, low, ne)) (omega (arith, high))
          ];
          kept = λ i low.
              let (a', b', c') = fl.kept i (omega (arith, low)) in
              let (x, y, z) = others_opened service s i (omega (arith, low)) known in
              (a' ∙ x, b' ∙ y, c' ∙ z);
        },
      )
