-- ===== src/Dispenser/Undisturbed.antt =====
-- enqueue_user_request of src/erogatore_ticket.c when its calls are granted at once and nobody
-- else runs: it returns, and this is the state that it leaves, on every branch.
use operative_system_project.Prelude.{
  ℕ, ◌≡◌, ◌<◌, List, ◌∷◌, length, ◌-◌, arith, length-set, set-set_restore, set, ◌+◌, true, false,
  not, ◌||◌, Bool-cases, inl, inr, if◌then◌else◌,
}
use operative_system_project.Commons.Semaphores.{layout, service_queue_mutex_sem, service_jobs_sem}
use operative_system_project.Shared.{Shared, queue_of}
use operative_system_project.Process.{
  Act, Event, grant, returned, lowered, sent, require, observe, raised, observe_over, World, Proc,
  Outcome, ◌>>=◌,
}
use operative_system_project.Process.Quiet.{
  IsReady, world, value, with_sem, require_down_works, require_up_works, then_runs,
}
use operative_system_project.Dispenser.{
  Flags, sem_up, sem_down, handle_ticket_signal, mark_request, refuse, enqueue_offered,
  push_and_notify, push_ticket, pushed, enqueue_user_request, service_is_offered_today,
}
use operative_system_project.Dispenser.Steps.{counting, refusal}
use operative_system_project.Stats.{count_request, requests, refuses}
use operative_system_project.Prelude.Int.{ℤ, pos_part}
use operative_system_project.Queue
use operative_system_project.Commons.{TicketMessage, service_count}
use operative_system_project.Dispenser.Protocol.{ticket_of, queueing}
use operative_system_project.Queue.{ServiceQueue}
use operative_system_project.Dispenser.Ready.{refused, mark_request_runs, refuse_runs}

-- The index of the service that a message asks for.
abbrev pub index_of : TicketMessage → ℕ
index_of m = pos_part m.service

module _ {D : Type 0} (n : ℕ) where
  module _ (now : ℤ) (m : TicketMessage) where
    -- The shared state after the ticket has been queued.
    abbrev pub queued : Shared D → Shared D
    queued s = record s {
      stats = count_request (index_of m) s.stats;
      queues = set s.queues (index_of m) (Queue.push (queue_of (index_of m) s) (ticket_of now m)).1;
      sems =
          set s.sems (service_jobs_sem n (index_of m))
            (value (service_jobs_sem n (index_of m)) s + 1);
    }

    module _ (f : Flags) (es : List (Event D)) (s : Shared D) (t : List (Act D))
        (ready : IsReady n s) (exists : (index_of m) < service_count)
        (mutex_free : 0 < value (service_queue_mutex_sem n (index_of m)) s) where
      abbrev queue_sem : ℕ
      queue_sem = service_queue_mutex_sem n (index_of m)

      abbrev jobs_sem : ℕ
      jobs_sem = service_jobs_sem n (index_of m)

      abbrev locked : Shared D → Shared D
      locked s' = with_sem queue_sem (value queue_sem s' - 1) s'

      queue_exists : queue_sem < length s.sems
      queue_exists = omega (arith, (layout n (index_of m) exists).queue_in, ready.sem_set)

      jobs_exists : jobs_sem < length s.sems
      jobs_exists = omega (arith, (layout n (index_of m) exists).jobs_in, ready.sem_set)

      still : queue_sem < length (locked s).sems
      still = omega (arith, queue_exists, length-set s.sems queue_sem (value queue_sem s - 1))

      pushes :
          Queue.is_full (queue_of (index_of m) s) ≡ false
          → (Queue.push (queue_of (index_of m) s) (ticket_of now m)).0 ≡ true
      unfolding Queue.push Queue.is_full
      pushes h = ground arith

      up_runs :
          (k : ℕ) (s' : Shared D) (fs : List (Event D)) (u : List (Act D))
          → k < length s'.sems
          → require (sem_up k) (world f s' (grant ∷ fs) u)
            ≡ returned tt (world f (with_sem k (value k s' + 1) s') fs (raised k ∷ u))
      unfolding sem_up
      up_runs k s' fs u h =
          require_up_works handle_ticket_signal (λ g. g.terminate_requested) f s' fs u k h

      down_runs :
          (fs : List (Event D))
          → require (sem_down queue_sem) (world f s (grant ∷ fs) t)
            ≡ returned tt (world f (locked s) fs (lowered queue_sem ∷ t))
      unfolding sem_down
      down_runs fs =
          require_down_works handle_ticket_signal (λ g. g.terminate_requested) f s fs t queue_sem
            queue_exists mutex_free

      abbrev pushed_queues : List ServiceQueue
      pushed_queues =
          set s.queues (index_of m) (Queue.push (queue_of (index_of m) s) (ticket_of now m)).1

      enqueue_offered_runs :
          (not s.config.day_active || Queue.is_full (queue_of (index_of m) s)) ≡ false
          → enqueue_offered now m (index_of m) (world f s (grant ∷ grant ∷ grant ∷ es) t)
            ≡ returned tt (
                world f
                  (record s {
                    queues = pushed_queues;
                    sems = set s.sems jobs_sem (value jobs_sem s + 1);
                  })
                  es
                  (queueing n (index_of m) (ticket_of now m) t))
      unfolding enqueue_offered observe observe_over push_and_notify push_ticket
      enqueue_offered_runs room = rw ready.fixed (
          rw (down_runs (grant ∷ grant ∷ es)) (
            rw (room, pushes (ground arith))
              (rw ready.fixed (
                then_runs (require (sem_up queue_sem)) (require (sem_up jobs_sem)) _ _
                  (up_runs queue_sem (record (locked s) { queues = pushed_queues }) (grant ∷ es)
                    (pushed (index_of m) (ticket_of now m) ∷ lowered queue_sem ∷ t) still)
                  (rw (set-set_restore s.sems queue_sem queue_exists mutex_free) (
                    up_runs jobs_sem (record s { queues = pushed_queues }) es
                      (raised queue_sem
                        ∷ pushed (index_of m) (ticket_of now m)
                        ∷ lowered queue_sem
                        ∷ t)
                      jobs_exists))))))

      enqueue_offered_refuses :
          (not s.config.day_active || Queue.is_full (queue_of (index_of m) s)) ≡ true
          → enqueue_offered now m
              (index_of m)
              (world f s (grant ∷ grant ∷ grant ∷ grant ∷ grant ∷ es) t)
            ≡ returned tt (
                world f (refused n m.user_pid (index_of m) s) es (
                  sent (refusal m.user_pid (index_of m))
                  ∷ counting n (refuses (index_of m)) (raised queue_sem ∷ lowered queue_sem ∷ t)))
      unfolding enqueue_offered observe observe_over
      enqueue_offered_refuses no_room = rw ready.fixed (
          rw (down_runs (grant ∷ grant ∷ grant ∷ grant ∷ es)) (
            rw no_room (
              rw ready.fixed (
                then_runs (require (sem_up queue_sem)) (refuse m.user_pid (index_of m)) _ _
                  (up_runs queue_sem (locked s) (grant ∷ grant ∷ grant ∷ es) (lowered queue_sem ∷ t)
                    still)
                  (rw (set-set_restore s.sems queue_sem queue_exists mutex_free) (
                    refuse_runs n m.user_pid (index_of m) f s es
                      (raised queue_sem ∷ lowered queue_sem ∷ t) ready))))))

-- What a request comes to: refused if the day is over, if no counter offers the service or if its
-- queue is full, and queued otherwise. It is counted in any case.
unfoldable pub settle : {D : Type 0} → ℕ → ℤ → TicketMessage → Shared D → Shared D
settle n now m s =
    let counted_request = record s { stats = count_request (pos_part m.service) s.stats } in
    if not s.config.day_active || not (service_is_offered_today m.service s.counters)
    then refused n m.user_pid (pos_part m.service) counted_request
    else if Queue.is_full (queue_of (pos_part m.service) s)
    then refused n m.user_pid (pos_part m.service) counted_request
    else queued n now m s

-- With a known service, the mutexes free, and its calls granted without delay,
-- enqueue_user_request returns, and leaves the shared state that `settle` describes: every
-- semaphore as before, but for the jobs of the service, which go up by one exactly if the ticket
-- has been queued.
pub enqueue_user_request_returns :
    {D : Type 0} (n : ℕ) (now : ℤ) (m : TicketMessage) (f : Flags) (s : Shared D)
    (es : List (Event D)) (t : List (Act D))
    → IsReady n s
    → pos_part m.service < service_count
    → 0 < value (service_queue_mutex_sem n (pos_part m.service)) s
    → (w : World Flags D) × (enqueue_user_request now m
          (world f s (grant ∷ grant ∷ grant ∷ grant ∷ grant ∷ grant ∷ grant ∷ es) t)
        ≡ returned tt w)
      × (w.shared ≡ settle n now m s)
unfolding enqueue_user_request settle observe observe_over
enqueue_user_request_returns {D} n now m f s es t ready exists free =
    elim (Bool-cases
      (not s.config.day_active || not (service_is_offered_today m.service s.counters))) [
        | inl closed ↦ (
          world f (refused n m.user_pid index s1) (grant ∷ grant ∷ es)
              (sent (refusal m.user_pid index) ∷ counting n (refuses index) u),
          after_mark
              (rw closed (refuse_runs n m.user_pid index f s1 (grant ∷ grant ∷ es) u ready1)),
          rw closed,
        )
        | inr offered ↦
            elim (Bool-cases (not s.config.day_active || Queue.is_full (queue_of index s))) [
              | inl full ↦ (
                world f (refused n m.user_pid index s1) es (
                    sent (refusal m.user_pid index)
                    ∷ counting n (refuses index) (raised queue_mutex ∷ lowered queue_mutex ∷ u)),
                after_mark (
                    rw offered (enqueue_offered_refuses n now m f es s1 u ready1 exists free full)),
                rw (offered, is_full offered full),
              )
              | inr room ↦ (
                world f (queued n now m s) (grant ∷ grant ∷ es)
                    (queueing n index (ticket_of now m) u),
                after_mark (
                    rw offered (
                      enqueue_offered_runs n now m f (grant ∷ grant ∷ es) s1 u ready1 exists free
                        room)),
                rw (offered, is_not_full room),
              )
            ]
      ]
  where
    index : ℕ
    index = pos_part m.service

    s1 : Shared D
    s1 = record s { stats = count_request index s.stats }

    u : List (Act D)
    u = counting n (requests index) t

    ready1 : IsReady n s1
    ready1 = record { fixed = ready.fixed; sem_set = ready.sem_set; stats_free = ready.stats_free }

    queue_mutex : ℕ
    queue_mutex = service_queue_mutex_sem n index

    tail : Shared D → Proc Flags D (Unit {0})
    tail r =
        if not r.config.day_active || not (service_is_offered_today m.service r.counters)
        then refuse m.user_pid index
        else enqueue_offered now m index

    after_mark :
        {o : Outcome Flags D (Unit {0})}
        → tail s1 (world f s1 (grant ∷ grant ∷ grant ∷ grant ∷ grant ∷ es) u) ≡ o
        → enqueue_user_request now m
            (world f s (grant ∷ grant ∷ grant ∷ grant ∷ grant ∷ grant ∷ grant ∷ es) t)
          ≡ o
    after_mark q =
        then_runs (mark_request index) (observe handle_ticket_signal >>= tail) _ _
          (mark_request_runs n index f s (grant ∷ grant ∷ grant ∷ grant ∷ grant ∷ es) t ready) q

    is_full :
        (not s.config.day_active || not (service_is_offered_today m.service s.counters)) ≡ false
        → (not s.config.day_active || Queue.is_full (queue_of index s)) ≡ true
        → Queue.is_full (queue_of index s) ≡ true
    is_full a b = ground arith

    is_not_full :
        (not s.config.day_active || Queue.is_full (queue_of index s)) ≡ false
        → Queue.is_full (queue_of index s) ≡ false
    is_not_full b = ground arith
