-- ===== src/Dispenser/Ready.antt =====
-- The dispenser of src/erogatore_ticket.c with the mutex of the statistics free: what it counts, and
-- how it turns a request down, when its calls are granted at once and nobody else runs.
use operative_system_project.Prelude.{
  ℕ, ◌≡◌, ◌<◌, refl, List, ◌∷◌, length, ◌-◌, arith, length-set, ◌++◌, ap, [], set-set_restore,
}
use operative_system_project.Commons.Semaphores.{stats_mutex_sem, layout}
use operative_system_project.Shared.{Shared}
use operative_system_project.Process.{
  Act, Event, ◌>>◌, grant, returned, lowered, commit, counted, send, sent,
}
use operative_system_project.Process.Quiet.{
  IsReady, world, value, with_sem, require_down_works, require_up_works, retry_works,
}
use operative_system_project.Dispenser.{
  Flags, lock_stats, unlock_stats, sem_up, sem_down, handle_ticket_signal, mark_request,
  mark_not_served, refuse, send_user_reply,
}
use operative_system_project.Dispenser.Steps.{counting, refusal}
use operative_system_project.Stats.{
  SimulationStats, Update, count_request, count_not_served, requests, refuses,
}
use operative_system_project.Prelude.Int.{ℤ}

module _ {D : Type 0} (n : ℕ) where
  abbrev pub with_stats : (SimulationStats D → SimulationStats D) → Shared D → Shared D
  with_stats h s = record s { stats = h s.stats }

  section_runs :
      (h : SimulationStats D → SimulationStats D) (u : Update D) (f : Flags) (s : Shared D)
      (es : List (Event D)) (t : List (Act D))
      → IsReady n s
      → (lock_stats >> (commit (with_stats h) (counted u) >> unlock_stats))
          (world f s (grant ∷ grant ∷ es) t)
        ≡ returned tt (world f (with_stats h s) es (counting n u t))
  unfolding lock_stats unlock_stats sem_up sem_down
  section_runs h u f s es t r = rw (r.fixed) (
      rw
        (require_down_works handle_ticket_signal (λ g. g.terminate_requested) f s (grant ∷ es) t
          (stats_mutex_sem n) exists r.stats_free)
        (rw (r.fixed) (
          rw
            (require_up_works handle_ticket_signal (λ g. g.terminate_requested) f locked es
              (counted u ∷ lowered (stats_mutex_sem n) ∷ t) (stats_mutex_sem n) still)
            (ap
              (λ l.
                returned tt
                  (world f (record s { stats = h s.stats; sems = l }) es (counting n u t)))
              (set-set_restore s.sems (stats_mutex_sem n) exists r.stats_free)))))
    where
      locked : Shared D
      locked = with_stats h (with_sem (stats_mutex_sem n) (value (stats_mutex_sem n) s - 1) s)

      exists : stats_mutex_sem n < length s.sems
      exists = omega (arith, (layout n 0 (omega arith)).stats_in, r.sem_set)

      still : stats_mutex_sem n < length locked.sems
      still =
          omega
            (arith, exists, length-set s.sems (stats_mutex_sem n) (value (stats_mutex_sem n) s - 1))

  pub mark_request_runs :
      (service : ℕ) (f : Flags) (s : Shared D) (es : List (Event D)) (t : List (Act D))
      → IsReady n s
      → mark_request service (world f s (grant ∷ grant ∷ es) t)
        ≡ returned tt
            (world f (with_stats (count_request service) s) es (counting n (requests service) t))
  unfolding mark_request
  mark_request_runs service = section_runs (count_request service) (requests service)

  pub mark_not_served_runs :
      (service : ℕ) (f : Flags) (s : Shared D) (es : List (Event D)) (t : List (Act D))
      → IsReady n s
      → mark_not_served service (world f s (grant ∷ grant ∷ es) t)
        ≡ returned tt
            (world f (with_stats (count_not_served service) s) es (counting n (refuses service) t))
  unfolding mark_not_served
  mark_not_served_runs service = section_runs (count_not_served service) (refuses service)

  -- The shared state after a refusal.
  abbrev pub refused : ℤ → ℕ → Shared D → Shared D
  refused pid service s = record s {
    stats = count_not_served service s.stats;
    mailbox = s.mailbox ++ refusal pid service ∷ [];
  }

  pub refuse_runs :
      (pid : ℤ) (service : ℕ) (f : Flags) (s : Shared D) (es : List (Event D)) (t : List (Act D))
      → IsReady n s
      → refuse pid service (world f s (grant ∷ grant ∷ grant ∷ es) t)
        ≡ returned tt (
            world f
              (refused pid service s)
              es
              (sent (refusal pid service) ∷ counting n (refuses service) t))
  unfolding refuse send_user_reply send
  refuse_runs pid service f s es t r = rw (mark_not_served_runs service f s (grant ∷ es) t r) (
      rw (
        retry_works handle_ticket_signal (λ g. g.terminate_requested) f
          (with_stats (count_not_served service) s) es (counting n (refuses service) t)
          (send (refusal pid service)) tt _ _ refl))
