-- ===== src/Director/Flush/Counting.antt =====
-- count_pending_users of src/director.c, when its calls complete at once and nobody else runs.
use operative_system_project.Prelude.{ℕ, ◌+◌, ◌*◌, ◌<◌, ◌≤◌, ◌≡◌, refl, zero, suc, arith}
use operative_system_project.Queue
use operative_system_project.Director.{Flags, count_services, count_pending_users, seats, sem_up}
use operative_system_project.Director.Flush.Services.{mutex_exists, mutex_free, locked, mutex}
use operative_system_project.Director.Flush.Pending.{IsCalm, pending}
use operative_system_project.Shared.{Shared, queue_of}
use operative_system_project.Commons.{service_count}
use operative_system_project.Queue.{run}
use operative_system_project.Process.Runs.{Runs, recount, ret-Runs, then_steps, peek-Runs}
use operative_system_project.Director.Flush.{down_at-Runs, unlock-Runs}
use operative_system_project.Process.{peek, ◌>>=◌, require, ◌>>◌}
use operative_system_project.Commons.Semaphores.{service_queue_mutex_sem}

module _ {D : Type 0} (n : ℕ) (f : Flags) where
  count_services-Runs :
      (service left total : ℕ) (s : Shared D)
      → IsCalm n s
      → service + left ≤ service_count
      → Runs (count_services service left total) f s (2 * left) (total + pending service left s) s
  unfolding count_services pending Queue.queue_length
  count_services-Runs service zero total s calm inside =
      recount _ f s s 0 0 total (total + 0) refl (omega arith) (ret-Runs total f s)
  count_services-Runs service (suc left) total s calm inside =
      let known : service < service_count = omega (arith, inside) in
      let found : ℕ = Queue.queue_length (queue_of service s) in
      let here : found ≡ (queue_of service s).length = refl in
      let l : Shared D = locked n f service s calm known in
      recount _ f s s (1 + (1 + 2 * left)) (2 * suc left)
        (total + found + pending (service + 1) left s) _ (omega arith) (omega (arith, here))
        (then_steps _ _ f s l s 1 (1 + 2 * left) _
          (down_at-Runs n f (mutex n f service s calm known) s
            (mutex_exists n f service s calm known) (mutex_free n f service s calm known))
          (peek-Runs
            (λ r.
              (peek >>= λ r'. require (sem_up (service_queue_mutex_sem (seats r') service)))
              >> count_services (service + 1) left
                  (total + Queue.queue_length (queue_of service r)))
            f l s (1 + 2 * left) _
            (then_steps _ (count_services (service + 1) left (total + found)) f l s s 1 (2 * left) _
              (unlock-Runs n f (mutex n f service s calm known) s l
                (mutex_exists n f service s calm known) (mutex_free n f service s calm known) refl
                refl)
              (count_services-Runs (service + 1) left (total + found) s calm
                (omega (arith, inside))))))

-- If the mutexes are free, the queues valid, and all calls complete at once with nobody else at
-- work, count_pending_users returns the number of the waiting users and changes nothing.
pub count_pending_users-Runs :
    {D : Type 0} (n : ℕ) (f : Flags) (s : Shared D)
    → IsCalm n s
    → Runs count_pending_users f s 12 (pending 0 service_count s) s
unfolding count_pending_users
count_pending_users-Runs n f s calm =
    recount _ f s s _ 12 _ (pending 0 service_count s) (omega arith) (omega arith)
      (count_services-Runs n f 0 service_count 0 s calm (omega arith))
