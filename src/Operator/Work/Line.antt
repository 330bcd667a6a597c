-- ===== src/Operator/Work/Line.antt =====
-- The work of an operator of src/operator.c on all the tickets that wait for its service.
use operative_system_project.Prelude.{
  ℕ, zero, suc, ◌-◌, ◌<◌, ◌≡◌, ◌≢◌, ◌≤◌, ◌%◌, Bool, true, false, refl, sym, ◌∙◌, List, [], ◌∷◌, set,
  arith, some, subst, length-set, get_or-set_ne,
}
use operative_system_project.Shared.{Shared, queue_of}
use operative_system_project.Queue.{QueueTicket, run}
use operative_system_project.Queue
use operative_system_project.Stats.{Floating}
use operative_system_project.Commons.{service_count}
use operative_system_project.Commons.Semaphores.{
  service_jobs_sem, service_queue_mutex_sem, stats_mutex_sem, layout,
}
use operative_system_project.Process.{Act, Event, returned, observe, observe_over, World, grant}
use operative_system_project.Process.Quiet.{IsReady, world, value}
use operative_system_project.Process.Runs.{grants}
use operative_system_project.Operator.{
  Flags, Identity, handle_operator_signal, should_take_pause, wait_for_ticket, got,
  pop_ticket_for_service,
}
use operative_system_project.Operator.Day.{Draw, work_loop, serve_ticket}
use operative_system_project.Operator.Work.{
  CanServe, after_service, wait-Runs, pop-Runs, serve-Runs,
}

-- The flags of an operator whom no signal has reached since the day began.
abbrev pub on_duty : Bool → Flags
on_duty b = record { day_started = b; day_stop_requested = false; terminate_requested = false }

-- Nothing but completed calls is ahead, so the shared state is read as it stands.
observe_calm :
    {D : Type 0} (k : ℕ) (f : Flags) (s : Shared D) (t : List (Act D))
    → observe handle_operator_signal (world f s (grants k []) t)
      ≡ returned s (world f s (grants k []) t)
unfolding observe observe_over grants
observe_calm zero f s t = refl
observe_calm (suc k) f s t = refl

pub jobs-ne-queue :
    (n service : ℕ)
    → service < service_count
    → service_jobs_sem n service ≢ service_queue_mutex_sem n service
unfolding service_jobs_sem service_queue_mutex_sem
jobs-ne-queue n service known = omega (arith, known)

module _ {D : Type 0} ⦃float : Floating D⦄ (n : ℕ) (me : Identity) (service : ℕ) (draws : ℕ → Draw)
    (b : Bool) where
  no_pause :
      (i : ℕ) (s : Shared D)
      → 10 ≤ (draws i).pause % 100
      → should_take_pause me (draws i).pause s ≡ false
  unfolding should_take_pause
  no_pause i s h = ground arith

  -- One job of the service taken.
  abbrev taken : Shared D → Shared D
  taken s = record s {
    sems = set s.sems (service_jobs_sem n service) (value (service_jobs_sem n service) s - 1);
  }

  taken-IsReady : (s : Shared D) → CanServe n service s → IsReady n (taken s)
  taken-IsReady s c = record {
    fixed = c.ready.fixed;
    sem_set = length-set s.sems (service_jobs_sem n service) _ ∙ c.ready.sem_set;
    stats_free =
        subst (λ v. 0 < v)
          (sym (
            get_or-set_ne s.sems (service_jobs_sem n service) (stats_mutex_sem n) _ 0
              (layout n service c.known).jobs-ne-stats))
          c.ready.stats_free;
  }

  popped-IsReady :
      (s : Shared D)
      → CanServe n service s
      → IsReady n
          (record (taken s) { queues = set s.queues service (Queue.pop (queue_of service s)).1 })
  popped-IsReady s c = record {
    fixed = c.ready.fixed;
    sem_set = (taken-IsReady s c).sem_set;
    stats_free = (taken-IsReady s c).stats_free;
  }

  mutex_left :
      (s : Shared D)
      → CanServe n service s
      → 0 < value (service_queue_mutex_sem n service) (taken s)
  mutex_left s c =
      subst (λ v. 0 < v)
        (sym (
          get_or-set_ne s.sems (service_jobs_sem n service) (service_queue_mutex_sem n service) _ 0
            (jobs-ne-queue n service c.known)))
        c.mutex_free

  -- One round of the loop, from what its three calls do.
  round_steps :
      (rounds k : ℕ) (s s' : Shared D) (es : List (Event D)) (t u : List (Act D))
      (w1 w2 : World Flags D) (ticket : QueueTicket)
      → wait_for_ticket service (world (on_duty b) s (grant ∷ es) t) ≡ returned (got tt) w1
      → pop_ticket_for_service service w1 ≡ returned (some ticket) w2
      → serve_ticket service ticket (draws rounds) w2
        ≡ returned tt (world (on_duty b) s' (grants k []) u)
      → s'.config.day_active ≡ true
      → 10 ≤ (draws rounds).pause % 100
      → work_loop me service draws (suc rounds) (world (on_duty b) s (grant ∷ es) t)
        ≡ work_loop me service draws rounds (world (on_duty b) s' (grants k []) u)
  unfolding work_loop observe observe_over
  round_steps rounds k s s' es t u w1 w2 ticket waited taken_ served open_ long = rw waited (
      rw taken_ (
        rw served
          (rw (observe_calm k (on_duty b) s' u) (rw (no_pause rounds s' long) (rw open_ refl)))))

  pub round_serves :
      (rounds j : ℕ) (s : Shared D) (t : List (Act D))
      → CanServe n service s
      → s.config.day_active ≡ true
      → 10 ≤ (draws rounds).pause % 100
      → (u : List (Act D)) × (work_loop me service draws
            (suc rounds)
            (world (on_duty b) s (grants 7 (grants j [])) t)
          ≡ work_loop me service draws rounds
              (world (on_duty b) (after_service n service (draws rounds) s) (grants j []) u))
  unfolding grants
  round_serves rounds j s t c open_ long =
      let (u1, e1) = (wait-Runs n (on_duty b) service s c).run (grants 6 (grants j [])) t in
      let (u2, e2) =
        (pop-Runs n (on_duty b) service (taken s) (taken-IsReady s c) c.known (mutex_left s c)
            c.ticket).run
          (grants 4 (grants j [])) u1 in
      let (u3, e3) =
        (serve-Runs n (on_duty b) service (Queue.pop (queue_of service s)).0 (draws rounds) _
            (popped-IsReady s c)).run
          (grants j []) u2 in
      (
        u3,
        round_steps rounds j s (after_service n service (draws rounds) s) _ t u3 _ _ _ e1 e2 e3
            open_ long,
      )
