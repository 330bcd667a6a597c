-- ===== src/Operator/Work/Served.antt =====
-- The loop of run_day in src/operator.c with tickets in the queue of the service.
use operative_system_project.Prelude.{
  ℕ, zero, suc, ◌+◌, ◌*◌, ◌-◌, ◌<◌, ◌≡◌, ◌≢◌, ◌≤◌, ◌%◌, Bool, true, refl, sym, ap, ◌∙◌, List, [],
  ◌∷◌, ◌++◌, length, arith, subst, map, get_or-set_self, append-nil, append_assoc, get_or-set_ne,
  length-set,
}
use operative_system_project.Prelude.Int.{pos, ltb_ℤ}
use operative_system_project.Shared.{Shared, queue_of, no_queue}
use operative_system_project.Queue.{QueueTicket}
use operative_system_project.Queue
use operative_system_project.Queue.Fifo
use operative_system_project.Queue.Invariant.{IsValid, pop-IsValid}
use operative_system_project.Queue.Refinement.{contents, pop_refines}
use operative_system_project.Stats.{Floating, count_served}
use operative_system_project.Commons.{service_count}
use operative_system_project.Commons.Semaphores.{
  service_jobs_sem, service_queue_mutex_sem, layout, stats_mutex_sem,
}
use operative_system_project.Process.{Act, blocked, observe, observe_over, retry, retry_over}
use operative_system_project.Process.Quiet.{IsReady, world, value}
use operative_system_project.Process.Runs.{grants, grants-add}
use operative_system_project.Operator.{Identity, sem_down, wait_for_ticket}
use operative_system_project.Operator.Day.{Draw, work_loop}
use operative_system_project.Operator.Work.{CanServe, after_service, served_reply}
use operative_system_project.Operator.Work.Line.{on_duty, round_serves, jobs-ne-queue}

-- Every ticket names a process.
abbrev pub ArePeople : List QueueTicket → Type 0
ArePeople [] = Unit {0}
ArePeople (t ∷ ts) = (ltb_ℤ (pos 0) t.user_pid ≡ true) × ArePeople ts

-- The day is on, the mutexes are free, the tickets wait in the queue of the service, and its
-- semaphore counts them.
pub record HasLine {D : Type 0} (n service : ℕ) (tickets : List QueueTicket) (s : Shared D)
    : Type 0 where
  pub ready : IsReady n s
  pub known : service < service_count
  pub mutex_free : 0 < value (service_queue_mutex_sem n service) s
  pub open_ : s.config.day_active ≡ true
  pub exists : service < length s.queues
  pub valid : IsValid (queue_of service s)
  pub waiting : contents (queue_of service s) ≡ tickets
  pub jobs : value (service_jobs_sem n service) s ≡ length tickets

-- From `s` to `s'`, the tickets have been served in their order.
pub record IsServed {D : Type 0} (n service : ℕ) (tickets : List QueueTicket) (s s' : Shared D)
    : Type 0 where
  pub line : HasLine n service [] s'
  pub told : s'.mailbox ≡ s.mailbox ++ map (λ t. served_reply t.user_pid service) tickets
  pub day_counted : s'.stats.day_users_served ≡ s.stats.day_users_served + length tickets
  pub total_counted : s'.stats.total_users_served ≡ s.stats.total_users_served + length tickets
  pub others : (i : ℕ) → i ≢ service → queue_of i s' ≡ queue_of i s
  pub other_sems : (k : ℕ) → k ≢ service_jobs_sem n service → value k s' ≡ value k s

module _ {D : Type 0} (n service : ℕ) where
  first :
      (t : QueueTicket) (ts : List QueueTicket) (s : Shared D)
      → HasLine n service (t ∷ ts) s
      → ((Queue.pop (queue_of service s)).0 ≡ t)
        × (contents (Queue.pop (queue_of service s)).1 ≡ ts)
  unfolding Fifo.pop
  first t ts s h =
      let e = pop_refines h.valid ∙ ap Fifo.pop h.waiting in (ap (λ p. p.0) e, ap (λ p. p.1) e)

  line-CanServe :
      (t : QueueTicket) (ts : List QueueTicket) (s : Shared D)
      → HasLine n service (t ∷ ts) s
      → ArePeople (t ∷ ts)
      → CanServe n service s
  line-CanServe t ts s h people = record {
    ready = h.ready;
    known = h.known;
    mutex_free = h.mutex_free;
    job = omega (arith, h.jobs);
    ticket = ap (λ x. ltb_ℤ (pos 0) x.user_pid) (first t ts s h).0 ∙ people.0;
  }

  module _ ⦃float : Floating D⦄ (draw : Draw) where
    after-HasLine :
        (t : QueueTicket) (ts : List QueueTicket) (s : Shared D)
        → HasLine n service (t ∷ ts) s
        → HasLine n service ts (after_service n service draw s)
    after-HasLine t ts s h = record {
      ready = record {
        fixed = h.ready.fixed;
        sem_set = length-set s.sems (service_jobs_sem n service) _ ∙ h.ready.sem_set;
        stats_free =
            subst (λ v. 0 < v)
              (sym (
                get_or-set_ne s.sems (service_jobs_sem n service) (stats_mutex_sem n) _ 0
                  (layout n service h.known).jobs-ne-stats))
              h.ready.stats_free;
      };
      known = h.known;
      mutex_free =
          subst (λ v. 0 < v)
            (sym (
              get_or-set_ne s.sems (service_jobs_sem n service) (service_queue_mutex_sem n service)
                _ 0 (jobs-ne-queue n service h.known)))
            h.mutex_free;
      open_ = h.open_;
      exists =
          omega (arith, h.exists, length-set s.queues service (Queue.pop (queue_of service s)).1);
      valid = subst IsValid (sym here) (pop-IsValid h.valid);
      waiting = ap contents here ∙ (first t ts s h).1;
      jobs =
          get_or-set_self s.sems (service_jobs_sem n service)
            (value (service_jobs_sem n service) s - 1) 0 jobs_exist
          ∙ omega (arith, h.jobs);
    }
      where
        here :
            queue_of service (after_service n service draw s) ≡ (Queue.pop (queue_of service s)).1
        here = get_or-set_self s.queues service (Queue.pop (queue_of service s)).1 no_queue h.exists

        jobs_exist : service_jobs_sem n service < length s.sems
        jobs_exist = omega (arith, h.ready.sem_set, (layout n service h.known).jobs_in)

    after-IsServed :
        (t : QueueTicket) (ts : List QueueTicket) (s s' : Shared D)
        → HasLine n service (t ∷ ts) s
        → IsServed n service ts (after_service n service draw s) s'
        → IsServed n service (t ∷ ts) s s'
    unfolding count_served
    after-IsServed t ts s s' h v = record {
      line = v.line;
      told =
          v.told
          ∙ append_assoc s.mailbox _ _
          ∙ ap
              (λ x.
                s.mailbox
                ++ served_reply x.user_pid service ∷ map (λ y. served_reply y.user_pid service) ts)
              (first t ts s h).0;
      day_counted = omega (arith, v.day_counted);
      total_counted = omega (arith, v.total_counted);
      others =
          λ i ne. v.others i ne ∙ get_or-set_ne s.queues service i _ no_queue (λ e. ne (sym e));
      other_sems = λ k ne.
          v.other_sems k ne
          ∙ get_or-set_ne s.sems (service_jobs_sem n service) k _ 0 (λ e. ne (sym e));
    }

module _ {D : Type 0} ⦃float : Floating D⦄ (n : ℕ) (me : Identity) (service : ℕ) (draws : ℕ → Draw)
    (b : Bool) where
  idle :
      (rounds : ℕ) (s : Shared D) (t : List (Act D))
      → work_loop me service draws (suc rounds) (world (on_duty b) s [] t)
        ≡ blocked (world (on_duty b) s [] t)
  unfolding work_loop observe observe_over wait_for_ticket sem_down retry retry_over
  idle rounds s t = refl

  -- If the day is on, the mutexes are free, the semaphore of the service counts its tickets, all calls
  -- complete at once and no pause is drawn, the loop of run_day answers every waiting user once, in
  -- the order of the tickets, with seven calls for each; it counts them as served, leaves the other
  -- queues and semaphores as they are, and then waits for the next ticket.
  pub line-IsServed :
      (tickets : List QueueTicket) (rounds : ℕ) (s : Shared D) (t : List (Act D))
      → HasLine n service tickets s
      → ArePeople tickets
      → ((i : ℕ) → 10 ≤ (draws i).pause % 100)
      → length tickets < rounds
      → (s' : Shared D) × (u : List (Act D)) × (work_loop me service draws rounds
            (world (on_duty b) s (grants (7 * length tickets) []) t)
          ≡ blocked (world (on_duty b) s' [] u))
        × IsServed n service tickets s s'
  unfolding grants
  line-IsServed tickets zero s t h people long enough = absurd (omega (arith, enough))
  line-IsServed [] (suc rounds) s t h people long enough = (
    s,
    t,
    idle rounds s t,
    record {
      line = h;
      told = sym (append-nil s.mailbox);
      day_counted = omega arith;
      total_counted = omega arith;
      others = λ i ne. refl;
      other_sems = λ k ne. refl;
    },
  )
  line-IsServed (x ∷ xs) (suc rounds) s t h people long enough =
      let (u, e) =
        round_serves n me service draws b rounds (7 * length xs) s t
          (line-CanServe n service x xs s h people) h.open_ (long rounds) in
      let (s', v, e', served) =
        line-IsServed xs rounds (after_service n service (draws rounds) s) u
          (after-HasLine n service (draws rounds) x xs s h) people.1 long (omega (arith, enough)) in
      (
        s',
        v,
        ap (λ es. work_loop me service draws (suc rounds) (world (on_duty b) s es t)) split
            ∙ e
            ∙ e',
        after-IsServed n service (draws rounds) x xs s s' h served,
      )
    where
      split : grants {D = D} (7 * length (x ∷ xs)) [] ≡ grants 7 (grants (7 * length xs) [])
      split = ap (λ i. grants i []) (omega arith) ∙ grants-add 7 (7 * length xs) []
