-- ===== src/Director/Flush/Services.antt =====
-- flush_pending_users of src/director.c over the six services, when its calls complete at once and
-- nobody else runs.
use native.Mathlib.Decide.{ℕ_discrete}
use operative_system_project.Prelude.{
  ℕ, ◌+◌, ◌<◌, ◌≤◌, ◌≡◌, refl, ◌++◌, zero, suc, set, length, arith, ap, ap₂, subst, length-set, ◌-◌,
  sym, ◌∙◌, ◌*◌, get_or-set_ne, ◌≢◌, append-nil, append_assoc, get_or-set_self,
}
use operative_system_project.Director.{
  Flags, set_sem_value, seats, sem_down, flush_queue, sem_up, flush_services, flush_pending_users,
}
use operative_system_project.Director.Flush.{
  IsValid, after_tickets, down_at-Runs, flush_queue-Runs, unlock-Runs,
}
use operative_system_project.Director.Flush.Drained.{IsDrained, drained}
use operative_system_project.Shared.{Shared, queue_of}
use operative_system_project.Process.Quiet.{IsReady, Has, value, with_sem}
use operative_system_project.Commons.{service_count}
use operative_system_project.Process.Runs.{Runs, then_steps, bind-Runs, recount, ret-Runs}
use operative_system_project.Commons.Semaphores.{
  service_queue_mutex_sem, service_jobs_sem, layout, stats_mutex_sem,
}
use operative_system_project.Process.{peek, ◌>>=◌, Proc, require, ◌>>◌}
use operative_system_project.Prelude.Int.{pos_part}
use operative_system_project.Queue.{max_count_queue}
use operative_system_project.Director.Flush.Pending.{
  pending, all_refusals, pending-ext, IsCalm, IsFlushed, set_sem-Runs,
}

module _ {D : Type 0} (n : ℕ) (f : Flags) where
  module _ (service : ℕ) (s : Shared D) (calm : IsCalm n s) (known : service < service_count) where
    abbrev waiting : ℕ
    waiting = (queue_of service s).length

    abbrev pub mutex : Shared D → ℕ
    mutex r = service_queue_mutex_sem (seats r) service

    abbrev pub locked : Shared D
    locked = with_sem (mutex s) (value (mutex s) s - 1) s

    -- The shared state when the queue of the service has been emptied.
    abbrev closed : Shared D
    closed = record (after_tickets service waiting locked) {
      sems = set s.sems (service_jobs_sem n service) 0;
    }

    pub mutex_exists : Has (mutex s) s
    mutex_exists = omega (
      arith,
      calm.ready.sem_set,
      ap (λ m. service_queue_mutex_sem m service) calm.ready.fixed,
      (layout n service known).queue_in,
    )

    pub mutex_free : 0 < value (mutex s) s
    mutex_free =
        subst (λ m. 0 < value (service_queue_mutex_sem m service) s) (sym calm.ready.fixed)
          (calm.mutexes_free service known)

    emptied : IsDrained service waiting locked (after_tickets service waiting locked)
    emptied =
        drained service waiting locked (calm.valid_queues service known)
          (omega (arith, calm.six_queues, known)) refl

    locked_ready : IsReady n locked
    locked_ready = record {
      fixed = calm.ready.fixed;
      sem_set = length-set s.sems (mutex s) _ ∙ calm.ready.sem_set;
      stats_free =
          subst (λ v. 0 < v)
            (sym (
              get_or-set_ne s.sems (mutex s) (stats_mutex_sem n) (value (mutex s) s - 1) 0 (
                subst (λ m. service_queue_mutex_sem m service ≢ stats_mutex_sem n)
                  (sym calm.ready.fixed) (layout n service known).queue-ne-stats)))
            calm.ready.stats_free;
    }

    abbrev unlocked : Shared D
    unlocked = record (after_tickets service waiting locked) { sems = s.sems }

    unlocked_fixed : seats unlocked ≡ n
    unlocked_fixed = ap (λ c. pos_part c.nof_worker_seats) emptied.same_config ∙ calm.ready.fixed

    jobs_exist : service_jobs_sem n service < length s.sems
    jobs_exist = omega (arith, calm.ready.sem_set, (layout n service known).jobs_in)

    jobs_cleared :
        Runs
          (peek >>= λ r. set_sem_value (service_jobs_sem (seats r) service) 0)
          f
          unlocked
          0
          tt
          closed
    jobs_cleared =
        subst
          (λ i.
            Runs (peek >>= λ r. set_sem_value (service_jobs_sem (seats r) service) 0) f unlocked 0
              tt (record unlocked { sems = set s.sems i 0 }))
          (ap (λ m. service_jobs_sem m service) unlocked_fixed)
          (set_sem-Runs f (λ r. service_jobs_sem (seats r) service) 0 unlocked
            (subst (λ m. service_jobs_sem m service < length s.sems) (sym unlocked_fixed)
              jobs_exist))

    service-Runs :
        (rounds total j : ℕ) (g : ℕ → Proc Flags D ℕ) (b : ℕ) (s'' : Shared D)
        → waiting < rounds
        → Runs (g (total + waiting)) f closed j b s''
        → Runs
            ((peek >>= λ r. require (sem_down (mutex r)))
              >> (flush_queue service rounds total >>= λ total'.
                  (peek >>= λ r. require (sem_up (mutex r)))
                  >> ((peek >>= λ r. set_sem_value (service_jobs_sem (seats r) service) 0)
                      >> g total')))
            f
            s
            (1 + (3 * waiting + (1 + (0 + j))))
            b
            s''
    service-Runs rounds total j g b s'' enough rest =
        then_steps _ _ f s locked s'' 1 (3 * waiting + (1 + (0 + j))) b
          (down_at-Runs n f mutex s mutex_exists mutex_free)
          (bind-Runs (flush_queue service rounds total) _ f locked
            (after_tickets service waiting locked) s'' (3 * waiting) (1 + (0 + j)) (total + waiting)
            b
            (flush_queue-Runs n f service rounds waiting total locked locked_ready
              (omega (arith, calm.six_queues, known)) refl enough)
            (then_steps _ _ f _ (record (after_tickets service waiting locked) { sems = s.sems })
              s'' 1 (0 + j) b
              (unlock-Runs n f mutex s (after_tickets service waiting locked) mutex_exists
                mutex_free emptied.same_sems
                (ap (λ c. service_queue_mutex_sem (pos_part c.nof_worker_seats) service)
                  emptied.same_config))
              (then_steps _ (g (total + waiting)) f _ closed s'' 0 j b jobs_cleared rest)))

    jobs-ne-queues :
        (i : ℕ) → i < service_count → service_jobs_sem n service ≢ service_queue_mutex_sem n i
    unfolding service_jobs_sem service_queue_mutex_sem
    jobs-ne-queues i h = omega (arith, h)

    jobs-ne-jobs : (i : ℕ) → i ≢ service → service_jobs_sem n service ≢ service_jobs_sem n i
    unfolding service_jobs_sem
    jobs-ne-jobs i h = omega (arith, h)

    others_kept :
        (i : ℕ)
        → i ≢ service
        → (queue_of i closed ≡ queue_of i s)
          × (value (service_jobs_sem n i) closed ≡ value (service_jobs_sem n i) s)
    others_kept i ne = (
      emptied.others i ne,
      get_or-set_ne s.sems (service_jobs_sem n service) (service_jobs_sem n i) 0 0
          (jobs-ne-jobs i ne),
    )

    closed-IsCalm : IsCalm n closed
    closed-IsCalm = record {
      ready = record {
        fixed = unlocked_fixed;
        sem_set = length-set s.sems (service_jobs_sem n service) 0 ∙ calm.ready.sem_set;
        stats_free =
            subst (λ v. 0 < v)
              (sym (
                get_or-set_ne s.sems (service_jobs_sem n service) (stats_mutex_sem n) 0 0
                  (layout n service known).jobs-ne-stats))
              calm.ready.stats_free;
      };
      mutexes_free = λ i h.
          subst (λ v. 0 < v)
            (sym (
              get_or-set_ne s.sems (service_jobs_sem n service) (service_queue_mutex_sem n i) 0 0
                (jobs-ne-queues i h)))
            (calm.mutexes_free i h);
      six_queues = emptied.same_size ∙ calm.six_queues;
      valid_queues = λ i h. elim (ℕ_discrete i service) [
        | yes e ↦ subst (λ k. IsValid (queue_of k closed)) (sym e) emptied.valid
        | no ne ↦ subst IsValid (sym (emptied.others i ne)) (calm.valid_queues i h)
      ];
    }

  flush_services-Runs :
      (rounds service left total : ℕ) (s : Shared D)
      → IsCalm n s
      → service + left ≤ service_count
      → max_count_queue < rounds
      → (s' : Shared D) × Runs
          (flush_services rounds service left total)
          f
          s
          (2 * left + 3 * pending service left s)
          (total + pending service left s)
          s'
        × IsFlushed n service left s s'
  unfolding flush_services pending all_refusals
  flush_services-Runs rounds service zero total s calm inside enough = (
    s,
    recount _ f s s 0 0 total (total + 0) refl (omega arith) (ret-Runs total f s),
    record {
      calm = calm;
      emptied = λ i low high. absurd (omega (arith, low, high));
      no_jobs = λ i low high. absurd (omega (arith, low, high));
      kept = λ i low. (refl, refl);
      told = sym (append-nil s.mailbox);
      day_counted = omega arith;
      total_counted = omega arith;
    },
  )
  flush_services-Runs rounds service (suc left) total s calm inside enough =
      let known : service < service_count = omega (arith, inside) in
      let w : ℕ = (queue_of service s).length in
      let c : Shared D = closed service s calm known in
      let e = emptied service s calm known in
      let same = λ (i : ℕ) (ne : i ≢ service). others_kept service s calm known i ne in
      let (s', rest, fl) =
        flush_services-Runs rounds (service + 1) left (total + w) c
          (closed-IsCalm service s calm known) (omega (arith, inside)) enough in
      let (p, q) = pending-ext (service + 1) left s c (λ i h. (same i (omega (arith, h))).0) in
      (
        s',
        recount _ f s s' (1 + (3 * w + (1 + (0 + (2 * left + 3 * pending (service + 1) left c))))) _
            (total + w + pending (service + 1) left c) _ (omega (arith, p)) (omega (arith, p))
            (service-Runs service s calm known rounds total
              (2 * left + 3 * pending (service + 1) left c)
              (flush_services rounds (service + 1) left) (total + w + pending (service + 1) left c)
              s' (omega (arith, enough, (calm.valid_queues service known).length_in)) rest),
        record {
          calm = fl.calm;
          emptied = λ i low high. elim (ℕ_discrete i service) [
            | yes here ↦
                subst (λ k. (queue_of k s').length ≡ 0) (sym here)
                  (ap (λ r. r.length) (fl.kept service (omega arith)).0 ∙ e.empty)
            | no ne ↦ fl.emptied i (omega (arith, low, ne)) (omega (arith, high))
          ];
          no_jobs = λ i low high. elim (ℕ_discrete i service) [
            | yes here ↦
                subst (λ k. value (service_jobs_sem n k) s' ≡ 0) (sym here)
                  ((fl.kept service (omega arith)).1
                    ∙ get_or-set_self s.sems (service_jobs_sem n service) 0 0
                        (jobs_exist service s calm known))
            | no ne ↦ fl.no_jobs i (omega (arith, low, ne)) (omega (arith, high))
          ];
          kept = λ i low.
              let (k, j) = fl.kept i (omega (arith, low)) in
              let (k', j') = same i (omega (arith, low)) in (k ∙ k', j ∙ j');
          told = fl.told ∙ ap₂ ◌++◌ e.told q ∙ append_assoc s.mailbox _ _;
          day_counted = omega (arith, fl.day_counted, e.day_counted, p);
          total_counted = omega (arith, fl.total_counted, e.total_counted, p);
        },
      )

-- If the mutexes are free, the queues valid, and all calls complete at once with nobody else at
-- work, flush_pending_users returns the number of the waiting users; it needs no more rounds for a
-- queue than the ring has places. Then every queue is empty, no service has a job left, every
-- waiting user has been sent one refusal, in the order of the services and of the tickets, and as
-- many services have been counted as not served.
pub flush_pending_users_drains :
    {D : Type 0} (n rounds : ℕ) (f : Flags) (s : Shared D)
    → IsCalm n s
    → max_count_queue < rounds
    → (s' : Shared D) × Runs
        (flush_pending_users rounds)
        f
        s
        (12 + 3 * pending 0 service_count s)
        (pending 0 service_count s)
        s'
      × IsFlushed n 0 service_count s s'
unfolding flush_pending_users
flush_pending_users_drains n rounds f s calm enough =
    let (s', run, fl) =
      flush_services-Runs n f rounds 0 service_count 0 s calm (omega arith) enough in
    (
      s',
      recount _ f s s' _ (12 + 3 * pending 0 service_count s) _ (pending 0 service_count s)
          (omega arith) (omega arith) run,
      fl,
    )
